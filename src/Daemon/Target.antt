-- ===== src/Daemon/Target.antt =====
-- src/daemon/nusb_backend.rs: the mux interface, the location and the speed of a device.
use netmuxd.Base.{
  ℕ, zero, suc, ◌+◌, ◌*◌, ◌%◌, ◌^◌, Bool, true, false, List, [], ◌∷◌, Option, none, some,
  case_option, if◌then◌else◌, ltb,
}
use netmuxd.Apple.Descriptors.{AltSetting, DeviceConfig, MuxTarget, last_bulk, is_mux_setting}

-- What one setting gives, and otherwise the next ones.
abbrev pub or_else : {A : Type 0} → Option A → Option A → Option A
or_else none later = later
or_else (some a) later = some a

unfoldable pub setting_target : ℕ → AltSetting → Option MuxTarget
setting_target config a =
    if is_mux_setting a
    then case_option (last_bulk true a.endpoints none) none (λ i.
      case_option (last_bulk false a.endpoints none) none (λ o. some (record {
        config_value = config;
        interface_number = a.interface_number;
        ep_in = i;
        ep_out = o;
      })))
    else none

unfoldable pub find_in_settings : ℕ → List AltSetting → Option MuxTarget
find_in_settings config [] = none
find_in_settings config (a ∷ rest) =
    or_else (setting_target config a) (find_in_settings config rest)

unfoldable pub find_in_interfaces : ℕ → List (List AltSetting) → Option MuxTarget
find_in_interfaces config [] = none
find_in_interfaces config (i ∷ is) =
    or_else (find_in_settings config i) (find_in_interfaces config is)

-- `find_mux_in_config`
unfoldable pub find_mux_in_config : DeviceConfig → Option MuxTarget
find_mux_in_config c = find_in_interfaces c.configuration_value c.interfaces

-- `sort_by_key(|c| Reverse(c.configuration_value()))`, which is stable.
unfoldable pub insert_config : DeviceConfig → List DeviceConfig → List DeviceConfig
insert_config c [] = c ∷ []
insert_config c (d ∷ ds) =
    if ltb c.configuration_value d.configuration_value then d ∷ insert_config c ds else c ∷ (d ∷ ds)

unfoldable pub sort_configs : List DeviceConfig → List DeviceConfig
sort_configs [] = []
sort_configs (c ∷ cs) = insert_config c (sort_configs cs)

unfoldable pub find_first : List DeviceConfig → Option MuxTarget
find_first [] = none
find_first (c ∷ cs) = or_else (find_mux_in_config c) (find_first cs)

-- `find_mux_target`, with the active configuration, if it can be read.
unfoldable pub find_mux_target : Option DeviceConfig → List DeviceConfig → Option MuxTarget
find_mux_target active cs =
    or_else (case_option active none find_mux_in_config) (find_first (sort_configs cs))

-- `device_location_id` as built for systems other than macOS: `(acc << 4) | (b & 0xf)` on 64 bits
abbrev pub next_location : ℕ → ℕ → ℕ
next_location acc b = (acc * 16) % 2 ^ 64 + b % 16

unfoldable pub location_from : ℕ → List ℕ → ℕ
location_from acc [] = acc
location_from acc (b ∷ bs) = location_from (next_location acc b) bs

abbrev pub device_location_id : List ℕ → ℕ
device_location_id port_chain = location_from 0 port_chain

pub data Speed : Type 0 where
  low full high super super_plus other : Speed

-- `speed_to_bps`
abbrev pub speed_to_bps : Option Speed → ℕ
speed_to_bps none = 0
speed_to_bps (some low) = 1500000
speed_to_bps (some full) = 12000000
speed_to_bps (some high) = 480000000
speed_to_bps (some super) = 5000000000
speed_to_bps (some super_plus) = 10000000000
speed_to_bps (some other) = 0

-- CLAIM_INTERFACE_RETRIES
abbrev pub claim_interface_retries : ℕ
claim_interface_retries = 5

-- What a claim of the interface comes to.
pub data Claim : Type 0 where
  claimed busy refused : Claim

abbrev pub claim_next : Claim → Bool → Bool
claim_next claimed later = true
claim_next busy later = later
claim_next refused later = false

-- `claim_interface_with_retry`, with `left` retries to go, over what claim after claim comes to.
unfoldable pub claim_interface_with_retry : (ℕ → Claim) → ℕ → ℕ → Bool
claim_interface_with_retry claims zero n = claim_next (claims n) false
claim_interface_with_retry claims (suc left) n =
    claim_next (claims n) (claim_interface_with_retry claims left (n + 1))
