-- ===== src/Devices.antt =====
-- src/devices.rs: a device as the muxer keeps it, and the property list that clients are shown.
pub mod Plist
pub mod Sockaddr
use Prim.Native.String.{String}
use text.Mathlib.Text.{◌==◌ as str_eq}
use netmuxd.Base.{ℕ, ◌%◌, Bool, true, false, List, Option, none, some, case_option, if◌then◌else◌}
use netmuxd.Base.Bytes.{u32_mod}
use Plist.{Entries, end, entry, Value, string, integer, bytes, dictionary}
use Sockaddr.{IpAddr, sockaddr}

pub record MuxerDevice : Type 0 where
  pub connection_type : String
  pub device_id : ℕ
  pub interface_index : ℕ
  pub serial_number : String
  pub network_address : Option IpAddr
  pub service_name : Option String
  pub connection_speed : Option ℕ
  pub location_id : Option ℕ
  pub product_id : Option ℕ

-- `if let Some(n) = o { p.insert(key, n.into()) }`
abbrev pub optional : String → Option ℕ → Entries → Entries
optional key none rest = rest
optional key (some n) rest = entry key (integer n) rest

-- `as u32`
abbrev pub truncated : Option ℕ → Option ℕ
truncated none = none
truncated (some n) = some (n % u32_mod)

-- `none` is a panic of an `expect`. `bsd` is the target's layout of a socket address.
unfoldable pub network_entries : Bool → MuxerDevice → Option Entries
network_entries bsd d = case_option d.service_name none λ name.
    case_option d.network_address none λ address. some (
      entry "EscapedFullServiceName" (string name)
        (entry "NetworkAddress" (bytes (sockaddr bsd address)) end))

unfoldable pub usb_entries : MuxerDevice → Entries
usb_entries d =
    optional "ConnectionSpeed" d.connection_speed
      (optional "LocationID" (truncated d.location_id) (optional "ProductID" d.product_id end))

unfoldable pub common_entries : MuxerDevice → Entries → Entries
common_entries d rest = entry "ConnectionType" (string d.connection_type) (
    entry "DeviceID" (integer d.device_id) (
      entry "InterfaceIndex" (integer d.interface_index)
        (entry "SerialNumber" (string d.serial_number) rest)))

-- `From<&MuxerDevice> for plist::Dictionary`
unfoldable pub device_entries : Bool → MuxerDevice → Option Entries
device_entries bsd d =
    if str_eq d.connection_type "Network"
    then case_option (network_entries bsd d) none (λ rest. some (common_entries d rest))
    else if str_eq d.connection_type "USB"
    then some (common_entries d (usb_entries d))
    else some (common_entries d end)
