-- ===== src/Config.antt =====
-- src/config.rs: the configuration and the options of the command line, as built for a Unix system.
pub mod Shim
use Prim.Native.String.{String}
use text.Mathlib.Text.{◌==◌ as str_eq, starts_with, find?}
use netmuxd.Base.{
  ℕ, zero, suc, Bool, true, false, ◌||◌, List, [], ◌∷◌, Option, none, some, length, case_option,
  if◌then◌else◌,
}

-- `UsbmuxdAddr` of idevice
pub data UsbmuxdAddr (SocketAddr : Type 0) : Type 0 where
  tcp_socket : SocketAddr → UsbmuxdAddr SocketAddr
  unix_socket : String → UsbmuxdAddr SocketAddr

-- The parsers of the standard library for a port and a socket address, and the address that idevice
-- takes from the environment or its default.
pub record Platform : Type 1 where
  pub SocketAddr : Type 0
  pub parse_port : String → Option ℕ
  pub parse_address : String → Option SocketAddr
  pub default_upstream : UsbmuxdAddr SocketAddr

module _ (p : Platform) where
  pub record NetmuxdConfig : Type 0 where
    pub port : ℕ
    pub host : Option String
    pub plist_storage : Option String
    pub use_heartbeat : Bool
    pub use_unix : Bool
    pub use_mdns : Bool
    pub use_usb : Bool
    pub apple_mux : Bool
    pub upstream : Option (UsbmuxdAddr p.SocketAddr)
    pub socket_path : String

  -- `NetmuxdConfig::default()`, with DEFAULT_SOCKET_PATH
  abbrev pub default_config : NetmuxdConfig
  default_config = record {
    port = 27015;
    host = none;
    plist_storage = none;
    use_heartbeat = true;
    use_unix = true;
    use_mdns = true;
    use_usb = true;
    apple_mux = true;
    upstream = none;
    socket_path = "/var/run/usbmuxd";
  }

  -- An argument has been looked at: the process panics or exits, or goes on with the arguments that
  -- are left.
  pub data Parsed : Type 0 where
    panicked : Parsed
    exited : Parsed
    next : NetmuxdConfig → List String → Parsed

  -- `nth(i + 1)`, with what is left behind it
  abbrev pub with_value : List String → (String → List String → Parsed) → Parsed
  with_value [] f = panicked
  with_value (v ∷ rest) f = f v rest

  unfoldable pub set_port : NetmuxdConfig → List String → Parsed
  set_port c args =
      with_value args
        λ v rest. case_option (p.parse_port v) panicked λ n. next (record c { port = n }) rest

  -- `parse_upstream`; `none` is a panic.
  unfoldable pub parse_upstream : String → Option (UsbmuxdAddr p.SocketAddr)
  parse_upstream addr =
      case_option (find? addr ":") (some (unix_socket addr))
        λ i. case_option (p.parse_address addr) none λ a. some (tcp_socket a)

  -- `res.upstream = Some(..)` and `res.use_usb = false`
  abbrev pub shim : NetmuxdConfig → UsbmuxdAddr p.SocketAddr → NetmuxdConfig
  shim c addr = record c { upstream = some addr; use_usb = false }

  unfoldable pub set_upstream : NetmuxdConfig → List String → Parsed
  set_upstream c [] = next (shim c p.default_upstream) []
  set_upstream c (addr ∷ rest) =
      if starts_with addr "-"
      then next (shim c p.default_upstream) (addr ∷ rest)
      else case_option (parse_upstream addr) panicked λ a. next (shim c a) rest

  -- The value of `--plist-storage` is looked at again as the next argument.
  unfoldable pub set_plist_storage : NetmuxdConfig → List String → Parsed
  set_plist_storage c args =
      with_value args λ v rest. next (record c { plist_storage = some v }) (v ∷ rest)

  unfoldable pub parse_arg : NetmuxdConfig → String → List String → Parsed
  parse_arg c arg args =
      if str_eq arg "-p" || str_eq arg "--port"
      then set_port c args
      else if str_eq arg "--host"
      then with_value args (λ v rest. next (record c { host = some v }) rest)
      else if str_eq arg "--plist-storage"
      then set_plist_storage c args
      else if str_eq arg "--disable-unix"
      then next (record c { use_unix = false }) args
      else if str_eq arg "--disable-mdns"
      then next (record c { use_mdns = false }) args
      else if str_eq arg "--disable-usb"
      then next (record c { use_usb = false }) args
      else if str_eq arg "--disable-heartbeat"
      then next (record c { use_heartbeat = false }) args
      else if str_eq arg "--upstream-usbmuxd"
      then set_upstream c args
      else if str_eq arg "--socket-path"
      then with_value args (λ v rest. next (record c { socket_path = v }) rest)
      else if str_eq arg "-h" || str_eq arg "--help"
      then exited
      else if str_eq arg "--about"
      then exited
      else next c args

  pub data Outcome : Type 0 where
    panic : Outcome
    exit : Outcome
    config : NetmuxdConfig → Outcome
    out_of_fuel : Outcome

  -- The loop of `collect`. Each round leaves fewer arguments, so that as much fuel as there are
  -- arguments is enough.
  abbrev pub continue_with : (NetmuxdConfig → List String → Outcome) → Parsed → Outcome
  continue_with f panicked = panic
  continue_with f exited = exit
  continue_with f (next c args) = f c args

  unfoldable pub collect_args : ℕ → NetmuxdConfig → List String → Outcome
  collect_args fuel c [] = config c
  collect_args zero c (arg ∷ args) = out_of_fuel
  collect_args (suc fuel) c (arg ∷ args) = continue_with (collect_args fuel) (parse_arg c arg args)

  unfoldable pub collect : List String → Outcome
  collect args = collect_args (length args) default_config args
