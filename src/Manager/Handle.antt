-- ===== src/Manager/Handle.antt =====
-- src/manager.rs, the loop of `new_manager_thread`: one request at a time.
use Prim.Native.String.{String}
use text.Mathlib.Text.{◌==◌ as str_eq}
use netmuxd.Base.{
  ℕ, ◌+◌, ◌%◌, Bool, true, false, ◌&&◌, List, [], ◌∷◌, ◌++◌, Option, none, some, case_option,
  if◌then◌else◌, ◌==◌,
}
use netmuxd.Base.Dict.{get, insert}
use netmuxd.Base.Bytes.{u64_mod}
use netmuxd.Devices.Plist.{Entries}
use netmuxd.Devices.{MuxerDevice}
use netmuxd.Devices.Sockaddr.{IpAddr}
use netmuxd.Manager.State.{
  Manager, Listener, attached, detached, result, device_list, DeviceConnection, find_device_id,
  sockets_of, drop_entry, attached_plist, send_event, broadcast, respond,
}

-- `ManagerRequestType`, each with the request's own answer channel where it is used. The last is
-- not a request: a listener's receiver is dropped.
pub data Request : Type 0 where
  discovered_network_device : String → IpAddr → String → String → Option ℕ → Request
  discovered_usb_device : String → ℕ → ℕ → ℕ → ℕ → Request
  deferred_muxer_add : MuxerDevice → Option ℕ → Request
  remove_device : String → Option String → Request
  list_devices : Option ℕ → Request
  get_device_connection : ℕ → ℕ → Request
  heartbeat_failed : String → Request
  open_socket : ℕ → ℕ → Request
  subscribe : Listener → Request
  listener_gone : ℕ → Request

-- What the task reads besides its tables: the configuration, the target's socket address layout,
-- and whether the storage has a readable pairing record.
pub record Environment : Type 0 where
  pub use_heartbeat : Bool
  pub bsd : Bool
  pub has_pairing_record : String → Bool

-- The device enters the table, and the listeners hear of it. `none` is a panic of the task.
unfoldable pub attach : Environment → Manager → MuxerDevice → Option Manager
attach env m d = case_option (attached_plist env.bsd d) none λ plist. some (record m {
  devices = insert d.device_id d m.devices;
  listeners = broadcast m.listeners (attached plist);
})

abbrev pub next_index : Manager → Manager
next_index m = record m {
  last_index = (m.last_index + 1) % u64_mod;
  last_interface_index = (m.last_interface_index + 1) % u64_mod;
}

abbrev pub network_device : Manager → String → IpAddr → String → String → MuxerDevice
network_device m udid address service connection_type = record {
  connection_type = connection_type;
  device_id = m.last_index;
  interface_index = m.last_interface_index;
  serial_number = udid;
  network_address = some address;
  service_name = some service;
  connection_speed = none;
  location_id = none;
  product_id = none;
}

abbrev pub usb_device : Manager → String → ℕ → ℕ → ℕ → MuxerDevice
usb_device m udid location product speed = record {
  connection_type = "USB";
  device_id = m.last_index;
  interface_index = m.last_interface_index;
  serial_number = udid;
  network_address = none;
  service_name = none;
  connection_speed = some speed;
  location_id = some location;
  product_id = some product;
}

unfoldable pub start_heartbeat : Manager → MuxerDevice → Option ℕ → Manager
start_heartbeat m d response = record m { heartbeats = m.heartbeats ++ (d, response) ∷ [] }

unfoldable pub attach_and_respond : Environment → Manager → MuxerDevice → Option ℕ → Option Manager
attach_and_respond env m d response =
    case_option (attach env m d) none λ m'. some (respond m' response (result 1))

unfoldable pub add_network_device :
    Environment → Manager → String → IpAddr → String → String → Option ℕ → Option Manager
add_network_device env m udid address service connection_type response =
    let d = network_device m udid address service connection_type in
    if env.has_pairing_record udid
    then if env.use_heartbeat
      then some (start_heartbeat (next_index m) d response)
      else attach_and_respond env (next_index m) d response
    else some m

unfoldable pub add_usb_device : Environment → Manager → String → ℕ → ℕ → ℕ → ℕ → Option Manager
add_usb_device env m udid location product speed handle =
    let d = usb_device m udid location product speed in
    case_option (attach env m d) none
      λ m'. some (next_index (record m' { usb_handles = insert d.device_id handle m'.usb_handles }))

unfoldable pub matches_type : Option String → MuxerDevice → Bool
matches_type none d = true
matches_type (some t) d = str_eq d.connection_type t

-- The ids that the filter of `RemoveDevice` collects.
unfoldable pub matching_ids : String → Option String → List (ℕ × MuxerDevice) → List ℕ
matching_ids udid t [] = []
matching_ids udid t ((id, d) ∷ devices) =
    let rest = matching_ids udid t devices in
    if str_eq d.serial_number udid && matches_type t d then id ∷ rest else rest

-- `h.shutdown().await`
abbrev pub shut_down_handle : Manager × Option ℕ → Manager
shut_down_handle (m, none) = m
shut_down_handle (m, some h) = record m { shut_down = m.shut_down ++ h ∷ [] }

unfoldable pub announce_detached : Manager → ℕ → Manager
announce_detached m id = record m { listeners = broadcast m.listeners (detached id) }

unfoldable pub remove_id : Manager → ℕ → Manager
remove_id m id = announce_detached (shut_down_handle (drop_entry id m)) id

unfoldable pub remove_ids : Manager → List ℕ → Manager
remove_ids m [] = m
remove_ids m (id ∷ ids) = remove_ids (remove_id m id) ids

unfoldable pub fail_heartbeat : Manager → ℕ → Manager
fail_heartbeat m id = announce_detached (drop_entry id m).0 id

-- `attached_plist` of every device.
unfoldable pub plists : Bool → List (ℕ × MuxerDevice) → Option (List Entries)
plists bsd [] = some []
plists bsd ((id, d) ∷ devices) =
    case_option (attached_plist bsd d) none
      λ plist. case_option (plists bsd devices) none λ rest. some (plist ∷ rest)

abbrev pub connection_of : Manager → ℕ → MuxerDevice → DeviceConnection
connection_of m id d = record {
  connection_type = d.connection_type;
  serial_number = d.serial_number;
  network_address = d.network_address;
  usb = get id m.usb_handles;
}

unfoldable pub lookup_connection : Manager → ℕ → Option DeviceConnection
lookup_connection m id = case_option (get id m.devices) none λ d. some (connection_of m id d)

-- The first event that cannot be sent ends the loop; the listener is then not kept. A listener is
-- also not looked at where there is no device to tell it of.
unfoldable pub greet : Bool → Listener → List (ℕ × MuxerDevice) → Option (Listener × Bool)
greet bsd l [] = some (l, true)
greet bsd l ((id, d) ∷ devices) =
    let rest = λ (plist : Entries). greet bsd (send_event l (attached plist)) devices in
    case_option (attached_plist bsd d) none
      λ plist. if l.is_open then rest plist else some (l, false)

unfoldable pub keep_listener : Manager → Listener × Bool → Manager
keep_listener m (l, true) = record m { listeners = m.listeners ++ l ∷ [] }
keep_listener m (l, false) = m

unfoldable pub close_listener : ℕ → List Listener → List Listener
close_listener name [] = []
close_listener name (l ∷ ls) =
    (if l.name == name then record l { is_open = false } else l) ∷ close_listener name ls

unfoldable pub handle : Environment → Manager → Request → Option Manager
handle env m (discovered_network_device udid address service t response) =
    case_option (find_device_id m.devices udid t)
      (add_network_device env m udid address service t response) λ id. some m
handle env m (discovered_usb_device udid location product speed h) =
    case_option (find_device_id m.devices udid "USB")
      (add_usb_device env m udid location product speed h)
      λ id. some (record m { usb_handles = insert id h m.usb_handles })
handle env m (deferred_muxer_add d response) = attach_and_respond env m d response
handle env m (remove_device udid t) = some (remove_ids m (matching_ids udid t m.devices))
handle env m (list_devices none) = some m
handle env m (list_devices (some caller)) =
    case_option (plists env.bsd m.devices) none λ l. some (respond m (some caller) (device_list l))
handle env m (get_device_connection id caller) =
    some (record m { connections = m.connections ++ (caller, lookup_connection m id) ∷ [] })
handle env m (heartbeat_failed udid) =
    case_option (find_device_id m.devices udid "Network") (some m) λ id. some (fail_heartbeat m id)
handle env m (open_socket id kill) = some (record m {
  open_sockets = insert id (sockets_of id m.open_sockets ++ kill ∷ []) m.open_sockets;
})
handle env m (subscribe l) =
    case_option (greet env.bsd l m.devices) none λ r. some (keep_listener m r)
handle env m (listener_gone name) = some (record m { listeners = close_listener name m.listeners })

unfoldable pub handle_all : Environment → Manager → List Request → Option Manager
handle_all env m [] = some m
handle_all env m (r ∷ rs) = case_option (handle env m r) none λ m'. handle_all env m' rs
