-- ===== src/Apple/Descriptors.antt =====
-- src/usb/apple.rs: the mux interfaces that the descriptors of a device name.
use netmuxd.Base.{
  ℕ, Bool, true, false, not, ◌&&◌, ◌||◌, List, [], ◌∷◌, ◌++◌, Option, none, some, case_option,
  if◌then◌else◌, ◌==◌, leb,
}

-- APPLE_VID, PID_RANGE, MUX_INTERFACE_CLASS, MUX_INTERFACE_SUBCLASS, MUX_INTERFACE_PROTOCOL
abbrev pub apple_vid : ℕ
apple_vid = 0x05ac

abbrev pub pid_range_start : ℕ
pid_range_start = 0x1290

abbrev pub pid_range_end : ℕ
pid_range_end = 0x12af

abbrev pub mux_interface_class : ℕ
mux_interface_class = 0xff

abbrev pub mux_interface_subclass : ℕ
mux_interface_subclass = 0xfe

abbrev pub mux_interface_protocol : ℕ
mux_interface_protocol = 0x02

-- `is_apple_mux`
unfoldable pub is_apple_mux : ℕ → ℕ → Bool
is_apple_mux vid pid = vid == apple_vid && leb pid_range_start pid && leb pid pid_range_end

-- What nusb shows of a device: endpoints, alternate settings and configurations.
pub record EndpointDescriptor : Type 0 where
  pub is_bulk : Bool
  pub is_in : Bool
  pub address : ℕ

pub record AltSetting : Type 0 where
  pub interface_number : ℕ
  pub class : ℕ
  pub subclass : ℕ
  pub protocol : ℕ
  pub endpoints : List EndpointDescriptor

pub record DeviceConfig : Type 0 where
  pub configuration_value : ℕ
  pub interfaces : List (List AltSetting)

pub record MuxTarget : Type 0 where
  pub config_value : ℕ
  pub interface_number : ℕ
  pub ep_in : ℕ
  pub ep_out : ℕ

-- The last bulk endpoint of a direction.
unfoldable pub last_bulk : Bool → List EndpointDescriptor → Option ℕ → Option ℕ
last_bulk inward [] found = found
last_bulk inward (e ∷ es) found =
    last_bulk inward es
      (if e.is_bulk && (if e.is_in then inward else not inward) then some e.address else found)

abbrev pub is_mux_setting : AltSetting → Bool
is_mux_setting a =
    a.class == mux_interface_class
    && a.subclass == mux_interface_subclass
    && a.protocol == mux_interface_protocol

unfoldable pub target_of : ℕ → AltSetting → Option MuxTarget
target_of config a =
    if is_mux_setting a
    then case_option (last_bulk true a.endpoints none) none (λ i.
      case_option (last_bulk false a.endpoints none) none (λ o. some (record {
        config_value = config;
        interface_number = a.interface_number;
        ep_in = i;
        ep_out = o;
      })))
    else none

abbrev pub add_target : Option MuxTarget → List MuxTarget → List MuxTarget
add_target none ts = ts
add_target (some t) ts = t ∷ ts

unfoldable pub targets_of_settings : ℕ → List AltSetting → List MuxTarget
targets_of_settings config [] = []
targets_of_settings config (a ∷ rest) =
    add_target (target_of config a) (targets_of_settings config rest)

unfoldable pub targets_of_interfaces : ℕ → List (List AltSetting) → List MuxTarget
targets_of_interfaces config [] = []
targets_of_interfaces config (i ∷ is) =
    targets_of_settings config i ++ targets_of_interfaces config is

unfoldable pub all_targets : List DeviceConfig → List MuxTarget
all_targets [] = []
all_targets (c ∷ cs) = targets_of_interfaces c.configuration_value c.interfaces ++ all_targets cs

abbrev pub is_active : Option ℕ → MuxTarget → Bool
is_active none t = false
is_active (some v) t = t.config_value == v

unfoldable pub filter_targets : (MuxTarget → Bool) → List MuxTarget → List MuxTarget
filter_targets keep [] = []
filter_targets keep (t ∷ ts) =
    let rest = filter_targets keep ts in if keep t then t ∷ rest else rest

-- The active configuration's in front, the others behind them.
unfoldable pub order_targets : Option ℕ → List MuxTarget → List MuxTarget
order_targets active ts =
    filter_targets (is_active active) ts ++ filter_targets (λ t. not (is_active active t)) ts

-- `collect_mux_candidates`
unfoldable pub collect_mux_candidates : Option ℕ → List DeviceConfig → List MuxTarget
collect_mux_candidates active cs = order_targets active (all_targets cs)

unfoldable pub has_mux : List MuxTarget → ℕ → Bool
has_mux [] v = false
has_mux (t ∷ ts) v = t.config_value == v || has_mux ts v

-- `find_no_mux_config`
unfoldable pub find_no_mux_config : List DeviceConfig → List MuxTarget → Option ℕ
find_no_mux_config [] ts = none
find_no_mux_config (c ∷ cs) ts =
    if has_mux ts c.configuration_value
    then find_no_mux_config cs ts
    else some c.configuration_value
