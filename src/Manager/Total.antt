-- ===== src/Manager/Total.antt =====
-- src/manager.rs: a request, from the table before it to the table after it.
use netmuxd.Base.{ℕ, ◌+◌, ◌<◌, refl, Option, none, some, case_rule}
use netmuxd.Base.Dict.{insert, All-remove}
use netmuxd.Base.Bytes.{u64_mod}
use netmuxd.Manager.State.{Manager, Listener, device_list, find_device_id, drop_entry, respond}
use netmuxd.Manager.Handle.{
  Request, discovered_network_device, discovered_usb_device, deferred_muxer_add, remove_device,
  list_devices, get_device_connection, heartbeat_failed, open_socket, subscribe, listener_gone,
  Environment, add_network_device, add_usb_device, matching_ids, announce_detached, remove_ids,
  fail_heartbeat, keep_listener, handle,
}
use netmuxd.Manager.Safety.{
  Entry, IsSafe, IsFair, Carries, stay, add_network_device-Carries, add_usb_device-Carries,
  devices-respond, attach_and_respond-Carries,
}
use netmuxd.Manager.Passing.{
  remove_ids-Carries, plists-total, greet-total, keep_listener-IsSafe, level, same_tables,
}

handle-list :
    (env : Environment) (m : Manager) (o : Option ℕ)
    → IsSafe m
    → Carries m (handle env m (list_devices o))
unfolding handle
handle-list env m none s = stay m s
handle-list env m (some caller) s =
    let (l, e) = plists-total env.bsd m.last_index m.devices s.known in
    let (d, i) = devices-respond m (some caller) (device_list l) in
    level m _
      (respond m (some caller) (device_list l), rw e, record { known = rw (d, i) s.known }, i)

handle-subscribe :
    (env : Environment) (m : Manager) (l : Listener)
    → IsSafe m
    → Carries m (handle env m (subscribe l))
unfolding handle
handle-subscribe env m l s =
    let (r, e) = greet-total env.bsd m.last_index l m.devices s.known in
    let (safe, i) = keep_listener-IsSafe m r s in level m _ (keep_listener m r, rw e, safe, i)

fail_heartbeat-IsSafe : (m : Manager) (id : ℕ) → IsSafe m → Carries m (some (fail_heartbeat m id))
unfolding fail_heartbeat announce_detached drop_entry
fail_heartbeat-IsSafe m id s =
    level m _
      (_, refl, record { known = All-remove (Entry m.last_index) id m.devices s.known }, refl)

-- With room for one more number, the manager carries out the request: it does not panic, the
-- devices in its table keep their own numbers, all below the next one, and that grows by one at
-- most. A deferred device must be one that this manager has numbered.
pub handle-Carries :
    (env : Environment) (m : Manager) (r : Request)
    → m.last_index + 1 < u64_mod
    → IsSafe m
    → IsFair m r
    → Carries m (handle env m r)
unfolding handle
handle-Carries env m (discovered_network_device udid address service t response) room s fair =
    case_rule (Carries m) (find_device_id m.devices udid t)
      {x = add_network_device env m udid address service t response} {f = λ id. some m}
      (λ _. add_network_device-Carries env m udid address service t response room s)
      (λ id _. stay m s)
handle-Carries env m (discovered_usb_device udid location product speed h) room s fair =
    case_rule (Carries m) (find_device_id m.devices udid "USB")
      {x = add_usb_device env m udid location product speed h}
      {f = λ id. some (record m { usb_handles = insert id h m.usb_handles })}
      (λ _. add_usb_device-Carries env m udid location product speed h room s)
      (λ id _. same_tables m _ refl refl s)
handle-Carries env m (deferred_muxer_add d response) room s fair =
    level m _ (attach_and_respond-Carries env m d response s fair)
handle-Carries env m (remove_device udid t) room s fair =
    let (safe, i) = remove_ids-Carries m (matching_ids udid t m.devices) s in
    level m _ (remove_ids m (matching_ids udid t m.devices), refl, safe, i)
handle-Carries env m (list_devices o) room s fair = handle-list env m o s
handle-Carries env m (get_device_connection id caller) room s fair = same_tables m _ refl refl s
handle-Carries env m (heartbeat_failed udid) room s fair =
    case_rule (Carries m) (find_device_id m.devices udid "Network") {x = some m}
      {f = λ id. some (fail_heartbeat m id)} (λ _. stay m s) (λ id _. fail_heartbeat-IsSafe m id s)
handle-Carries env m (open_socket id kill) room s fair = same_tables m _ refl refl s
handle-Carries env m (subscribe l) room s fair = handle-subscribe env m l s
handle-Carries env m (listener_gone name) room s fair = same_tables m _ refl refl s
