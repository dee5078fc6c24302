-- ===== src/Tests/ConfigRuns.antt =====
-- The options of src/config.rs on concrete arguments.
use Prim.Native.String.{String}
use netmuxd.Base.{◌≡◌, refl, some, none, List, [], ◌∷◌, false}
use netmuxd.Config.{
  Platform, unix_socket, collect, collect_args, parse_arg, set_upstream, set_port,
  set_plist_storage, parse_upstream, config, default_config,
}
use netmuxd.Config.Shim.{IsSettled, collect-IsSettled}

abbrev platform : Platform
platform = record {
  SocketAddr = Unit {0};
  parse_port = λ v. some 80;
  parse_address = λ v. none;
  default_upstream = unix_socket "/var/run/usbmuxd";
}

abbrev arguments : List String
arguments =
    "netmuxd" ∷ "--upstream-usbmuxd" ∷ "/tmp/mux" ∷ "--plist-storage" ∷ "--disable-mdns" ∷ []

-- The value of `--plist-storage` is taken for an option as well.
collect_run :
    collect platform arguments
    ≡ config (record (default_config platform) {
      upstream = some (unix_socket "/tmp/mux");
      use_usb = false;
      plist_storage = some "--disable-mdns";
      use_mdns = false;
    })
unfolding collect collect_args parse_arg set_upstream set_port set_plist_storage parse_upstream
collect_run = refl

collect-IsSettled_example : IsSettled platform (collect platform arguments)
collect-IsSettled_example = collect-IsSettled platform arguments
