-- ===== src/Service/OwnNumbers.antt =====
-- src/manager.rs: every request keeps the numbers of a manager in shim mode apart from the upstream muxer's.
use Prim.Native.String.{String}
use netmuxd.Base.{
  ℕ, suc, ◌+◌, ◌<◌, ◌≡◌, Bool, true, false, List, [], ◌∷◌, Option, none, some, case_option, arith,
  case_rule, subst, sym, Option-cases, inl, inr, length, All,
}
use netmuxd.Base.Dict.{get, insert, All-get}
use netmuxd.Base.Bytes.{u64_mod}
use netmuxd.Devices.{MuxerDevice}
use netmuxd.Manager.State.{
  Manager, Listener, device_list, find_device_id, respond, new_manager, shim_network_id_base,
}
use netmuxd.Manager.Handle.{
  Request, discovered_network_device, discovered_usb_device, deferred_muxer_add, remove_device,
  list_devices, get_device_connection, heartbeat_failed, open_socket, subscribe, listener_gone,
  Environment, attach, next_index, usb_device, add_network_device, add_usb_device, matching_ids,
  plists, greet, fail_heartbeat, keep_listener, handle, handle_all,
}
use netmuxd.Service.Numbering.{
  IsOwn, OwnEntry, OwnTask, IsApart, IsApartAfter, IsStarted, AreStarted, All-middle, relax,
  next_index-IsApart, remove_ids-IsApart, fail_heartbeat-IsApart, respond-IsApart, attach-IsApart,
  attach_and_respond-IsApart, add_network_device-IsApart,
}

module _ (n : ℕ) where
  add_usb_device-IsApart :
      (env : Environment) (m : Manager) (udid : String) (location product speed k : ℕ)
      → IsApart (suc n) m
      → IsApartAfter n (add_usb_device env m udid location product speed k)
  unfolding add_usb_device
  add_usb_device-IsApart env m udid location product speed k h =
      let d = usb_device m udid location product speed in
      case_rule (IsApartAfter n) (attach env m d) {x = none}
        {f = λ m'.
          some (next_index (record m' { usb_handles = insert d.device_id k m'.usb_handles }))}
        (λ _. tt)
        (λ m' e.
          let g = subst (IsApartAfter (suc n)) e (attach-IsApart (suc n) env m d h.low h) in
          next_index-IsApart n (record m' { usb_handles = insert d.device_id k m'.usb_handles })
            (record { low = g.low; room = g.room; table = g.table; tasks = g.tasks }))

  keep_listener-IsApart :
      (m : Manager) (r : Listener × Bool) → IsApart n m → IsApart n (keep_listener m r)
  unfolding keep_listener
  keep_listener-IsApart m (l, true) h = record {
    low = h.low;
    room = h.room;
    table = h.table;
    tasks = h.tasks;
  }
  keep_listener-IsApart m (l, false) h = h

  started-IsOwn :
      (m : Manager) (d : MuxerDevice) (o : Option ℕ)
      → IsApart (suc n) m
      → IsStarted m (deferred_muxer_add d o)
      → IsOwn d.device_id
  started-IsOwn m d o h (before, o', after, e) =
      All-middle OwnTask before (d, o') after (subst (All OwnTask) e h.tasks)

  handle-IsApart :
      (env : Environment) (m : Manager) (r : Request)
      → IsApart (suc n) m
      → IsStarted m r
      → IsApartAfter n (handle env m r)
  unfolding handle
  handle-IsApart env m (discovered_network_device udid address service t o) h fair =
      case_rule (IsApartAfter n) (find_device_id m.devices udid t)
        {x = add_network_device env m udid address service t o} {f = λ k. some m}
        (λ _. add_network_device-IsApart n env m udid address service t o h) (λ _ _. relax n m h)
  handle-IsApart env m (discovered_usb_device udid location product speed k) h fair =
      let g = relax n m h in
      case_rule (IsApartAfter n) (find_device_id m.devices udid "USB")
        {x = add_usb_device env m udid location product speed k}
        {f = λ j. some (record m { usb_handles = insert j k m.usb_handles })}
        (λ _. add_usb_device-IsApart env m udid location product speed k h)
        (λ _ _. record { low = g.low; room = g.room; table = g.table; tasks = g.tasks })
  handle-IsApart env m (deferred_muxer_add d o) h fair =
      attach_and_respond-IsApart n env m d o (started-IsOwn m d o h fair) (relax n m h)
  handle-IsApart env m (remove_device udid t) h fair =
      remove_ids-IsApart n m (matching_ids udid t m.devices) (relax n m h)
  handle-IsApart env m (list_devices none) h fair = relax n m h
  handle-IsApart env m (list_devices (some caller)) h fair =
      case_rule (IsApartAfter n) (plists env.bsd m.devices) {x = none}
        {f = λ l. some (respond m (some caller) (device_list l))} (λ _. tt)
        (λ l _. respond-IsApart n m (some caller) (device_list l) (relax n m h))
  handle-IsApart env m (get_device_connection k caller) h fair =
      let g = relax n m h in record { low = g.low; room = g.room; table = g.table; tasks = g.tasks }
  handle-IsApart env m (heartbeat_failed udid) h fair =
      case_rule (IsApartAfter n) (find_device_id m.devices udid "Network") {x = some m}
        {f = λ k. some (fail_heartbeat m k)} (λ _. relax n m h)
        (λ k _. fail_heartbeat-IsApart n m k (relax n m h))
  handle-IsApart env m (open_socket k j) h fair =
      let g = relax n m h in record { low = g.low; room = g.room; table = g.table; tasks = g.tasks }
  handle-IsApart env m (subscribe l) h fair =
      case_rule (IsApartAfter n) (greet env.bsd l m.devices) {x = none}
        {f = λ r. some (keep_listener m r)} (λ _. tt)
        (λ r _. keep_listener-IsApart m r (relax n m h))
  handle-IsApart env m (listener_gone name) h fair =
      let g = relax n m h in record { low = g.low; room = g.room; table = g.table; tasks = g.tasks }

pub handle_all-IsApart :
    (env : Environment) (m : Manager) (rs : List Request)
    → IsApart (length rs) m
    → AreStarted env m rs
    → IsApartAfter 0 (handle_all env m rs)
unfolding handle_all
handle_all-IsApart env m [] h fair = h
handle_all-IsApart env m (r ∷ rs) h fair = elim (Option-cases (handle env m r)) [
  | inl e ↦ rw (e) tt
  | inr (m', e) ↦
      let g = subst (IsApartAfter (length rs)) e (handle-IsApart (length rs) env m r h fair.0) in
      let fair' = subst (λ o. case_option o (Unit {0}) (λ m'. AreStarted env m' rs)) e fair.1 in
      subst (λ o. IsApartAfter 0 (case_option o none (λ m'. handle_all env m' rs))) (sym e)
        (handle_all-IsApart env m' rs g fair')
]

-- In shim mode every device that the manager holds is numbered from `SHIM_NETWORK_ID_BASE` on,
-- whatever it is asked, as long as the numbers do not run out and a deferred device is one that it has
-- started a heartbeat task for.
pub shim-IsOwn :
    (env : Environment) (rs : List Request) (few : shim_network_id_base + length rs < u64_mod)
    (fair : AreStarted env (new_manager true) rs) (m : Manager)
    (run : handle_all env (new_manager true) rs ≡ some m) (id : ℕ) (d : MuxerDevice)
    (held : get id m.devices ≡ some d)
    → IsOwn id
shim-IsOwn env rs few fair m run id d held =
    let start : IsApart (length rs) (new_manager true) = record {
      low = omega arith;
      room = few;
      table = tt;
      tasks = tt;
    } in
    let g : IsApart 0 m =
      subst (IsApartAfter 0) run (handle_all-IsApart env (new_manager true) rs start fair) in
    All-get OwnEntry id m.devices g.table held
