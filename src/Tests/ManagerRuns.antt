-- ===== src/Tests/ManagerRuns.antt =====
-- The manager of src/manager.rs and the devices of src/devices.rs on concrete inputs.
use netmuxd.Base.{◌≡◌, refl, true, false, List, [], ◌∷◌, some, none, arith, length}
use netmuxd.Base.Dict.{get, insert, remove}
use netmuxd.Devices.{device_entries, network_entries, usb_entries, common_entries}
use netmuxd.Devices.Sockaddr.{IpAddr, v4, sockaddr, read_sockaddr, read_sockaddr-sockaddr}
use netmuxd.Manager.State.{
  Manager, Listener, new_manager, is_device, find_device_id, drop_entry, attached_plist, broadcast,
  respond,
}
use netmuxd.Manager.Handle.{
  Request, discovered_network_device, discovered_usb_device, remove_device, subscribe, Environment,
  attach, start_heartbeat, attach_and_respond, add_network_device, add_usb_device, matches_type,
  matching_ids, announce_detached, remove_id, remove_ids, greet, keep_listener, handle, handle_all,
}
use netmuxd.Manager.Safety.{IsSafe, Carries}
use netmuxd.Manager.Total.{handle-Carries}

abbrev environment : Environment
environment = record { use_heartbeat = false; bsd = false; has_pairing_record = λ udid. true }

abbrev start : Manager
start = new_manager false

abbrev listener : Listener
listener = record { name = 1; is_open = true; inbox = [] }

abbrev home : IpAddr
home = v4 (192 ∷ 168 ∷ 1 ∷ 20 ∷ [])

abbrev found : Request
found = discovered_network_device "phone" home "phone.local" "Network" none

abbrev requests : List Request
requests =
    subscribe listener
    ∷ found
    ∷ discovered_usb_device "phone" 1 2 3 4
    ∷ remove_device "phone" (some "USB")
    ∷ []

-- The names that a run computes with.
manager_code : Unit {0}
unfolding get insert remove device_entries network_entries usb_entries common_entries sockaddr
    is_device find_device_id drop_entry attached_plist broadcast respond attach start_heartbeat
    attach_and_respond add_network_device add_usb_device matches_type matching_ids announce_detached
    remove_id remove_ids greet keep_listener handle handle_all
manager_code = tt

start-IsSafe : IsSafe start
start-IsSafe = record { known = tt }

handle-Carries_example : Carries start (handle environment start found)
handle-Carries_example = handle-Carries environment start found (omega arith) start-IsSafe tt

read_sockaddr-sockaddr_example :
    (length (sockaddr false home) ≡ 128) × (read_sockaddr false (sockaddr false home) ≡ some home)
read_sockaddr-sockaddr_example = read_sockaddr-sockaddr false home refl
