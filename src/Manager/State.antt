-- ===== src/Manager/State.antt =====
-- src/manager.rs: the tables of the manager task, and what it keeps them with.
use Prim.Native.String.{String}
use text.Mathlib.Text.{◌==◌ as str_eq}
use netmuxd.Base.{
  ℕ, Bool, ◌&&◌, List, [], ◌∷◌, ◌++◌, Option, none, some, case_option, if◌then◌else◌,
}
use netmuxd.Base.Dict.{get, remove}
use netmuxd.Devices.Plist.{Entries, end, entry, string, integer, dictionary}
use netmuxd.Devices.{MuxerDevice, device_entries}
use netmuxd.Devices.Sockaddr.{IpAddr}

-- SHIM_NETWORK_ID_BASE
abbrev pub shim_network_id_base : ℕ
shim_network_id_base = 0x1000_0000

pub data ListenerEvent : Type 0 where
  attached : Entries → ListenerEvent
  detached : ℕ → ListenerEvent

-- An unbounded sender: whether its receiver is still there, and what was sent into it.
pub record Listener : Type 0 where
  pub name : ℕ
  pub is_open : Bool
  pub inbox : List ListenerEvent

-- What a caller is sent back over its oneshot.
pub data Response : Type 0 where
  result : ℕ → Response
  device_list : List Entries → Response

pub record DeviceConnection : Type 0 where
  pub connection_type : String
  pub serial_number : String
  pub network_address : Option IpAddr
  pub usb : Option ℕ

-- The locals of the manager task, and what it has done to others: kills sent, mux tasks told to
-- shut down, answers given, heartbeat tasks started.
pub record Manager : Type 0 where
  pub devices : List (ℕ × MuxerDevice)
  pub usb_handles : List (ℕ × ℕ)
  pub open_sockets : List (ℕ × List ℕ)
  pub listeners : List Listener
  pub last_index : ℕ
  pub last_interface_index : ℕ
  pub killed : List ℕ
  pub shut_down : List ℕ
  pub responses : List (ℕ × Response)
  pub connections : List (ℕ × Option DeviceConnection)
  pub heartbeats : List (MuxerDevice × Option ℕ)

-- `new_manager_thread`
abbrev pub new_manager : Bool → Manager
new_manager has_upstream = record {
  devices = [];
  usb_handles = [];
  open_sockets = [];
  listeners = [];
  last_index = if has_upstream then shim_network_id_base else 1;
  last_interface_index = 1;
  killed = [];
  shut_down = [];
  responses = [];
  connections = [];
  heartbeats = [];
}

unfoldable pub is_device : String → String → MuxerDevice → Bool
is_device udid connection_type d =
    str_eq d.serial_number udid && str_eq d.connection_type connection_type

unfoldable pub find_device_id : List (ℕ × MuxerDevice) → String → String → Option ℕ
find_device_id [] udid connection_type = none
find_device_id ((id, d) ∷ devices) udid connection_type =
    if is_device udid connection_type d
    then some id
    else find_device_id devices udid connection_type

abbrev pub sockets_of : ℕ → List (ℕ × List ℕ) → List ℕ
sockets_of id sockets = case_option (get id sockets) [] λ l. l

-- The entry goes from all three tables, and its sockets are killed. The handle is the caller's.
unfoldable pub drop_entry : ℕ → Manager → Manager × Option ℕ
drop_entry id m = (
  record m {
    devices = remove id m.devices;
    open_sockets = remove id m.open_sockets;
    usb_handles = remove id m.usb_handles;
    killed = m.killed ++ sockets_of id m.open_sockets;
  },
  get id m.usb_handles,
)

-- `none` is a panic in the conversion of the device.
unfoldable pub attached_plist : Bool → MuxerDevice → Option Entries
attached_plist bsd d = case_option (device_entries bsd d) none λ properties. some (
    entry "DeviceID" (integer d.device_id)
      (entry "MessageType" (string "Attached") (entry "Properties" (dictionary properties) end)))

-- `tx.send(event)`
abbrev pub send_event : Listener → ListenerEvent → Listener
send_event l e = record l { inbox = l.inbox ++ e ∷ [] }

-- `listeners.retain(|tx| tx.send(event.clone()).is_ok())`
unfoldable pub broadcast : List Listener → ListenerEvent → List Listener
broadcast [] e = []
broadcast (l ∷ ls) e =
    let rest = broadcast ls e in if l.is_open then send_event l e ∷ rest else rest

unfoldable pub respond : Manager → Option ℕ → Response → Manager
respond m none r = m
respond m (some caller) r = record m { responses = m.responses ++ (caller, r) ∷ [] }
