-- ===== src/Service/Held.antt =====
-- src/manager.rs, the sockets of the devices: a kill that the manager holds is kept until it is sent.
use Prim.Native.String.{String}
use netmuxd.Base.{
  ℕ, ◌≡◌, refl, Bool, true, false, ◌||◌, List, [], ◌∷◌, ◌++◌, Option, none, some, if◌then◌else◌,
  arith, case_rule, if_rule, subst,
}
use netmuxd.Base.Dict.{insert, contains, get-remove, get-insert}
use netmuxd.Devices.{MuxerDevice}
use netmuxd.Devices.Sockaddr.{IpAddr}
use netmuxd.Manager.State.{
  Manager, Listener, attached, Response, result, device_list, find_device_id, sockets_of,
  drop_entry, attached_plist, broadcast, respond,
}
use netmuxd.Manager.Handle.{
  Request, discovered_network_device, discovered_usb_device, deferred_muxer_add, remove_device,
  list_devices, get_device_connection, heartbeat_failed, open_socket, subscribe, listener_gone,
  Environment, attach, next_index, network_device, usb_device, start_heartbeat, attach_and_respond,
  add_network_device, add_usb_device, matching_ids, plists, greet, shut_down_handle,
  announce_detached, remove_id, remove_ids, fail_heartbeat, keep_listener, handle, handle_all,
}

pub contains-append :
    (xs ys : List ℕ) (k : ℕ) → contains (xs ++ ys) k ≡ contains xs k || contains ys k
contains-append [] ys k = refl
contains-append (x ∷ xs) ys k = ground (arith, contains-append xs ys k)

-- The kill is held for the device, or has been sent.
abbrev pub IsHeld : ℕ → ℕ → Manager → Type 0
IsHeld id kill m = contains (sockets_of id m.open_sockets) kill || contains m.killed kill ≡ true

-- The tables with the sockets stay as they are.
abbrev pub SameSockets : Manager → Manager → Type 0
SameSockets m m' = (m'.open_sockets ≡ m.open_sockets) × (m'.killed ≡ m.killed)

-- What holds of the manager unless it has panicked.
abbrev pub HoldsAfter : ℕ → ℕ → Option Manager → Type 0
HoldsAfter id kill none = Unit {0}
HoldsAfter id kill (some m) = IsHeld id kill m

module _ (id kill : ℕ) where
  drop_entry-IsHeld : (k : ℕ) (m : Manager) → IsHeld id kill m → IsHeld id kill (drop_entry k m).0
  unfolding drop_entry
  drop_entry-IsHeld k m h =
      rw
        (
          get-remove k id m.open_sockets,
          contains-append m.killed (sockets_of k m.open_sockets) kill,
        )
        ground (arith, h)

  shut_down_handle-IsHeld :
      (m : Manager) (h : Option ℕ) → IsHeld id kill m → IsHeld id kill (shut_down_handle (m, h))
  shut_down_handle-IsHeld m none held = held
  shut_down_handle-IsHeld m (some h) held = held

  pub remove_id-IsHeld : (m : Manager) (k : ℕ) → IsHeld id kill m → IsHeld id kill (remove_id m k)
  unfolding remove_id announce_detached
  remove_id-IsHeld m k held =
      shut_down_handle-IsHeld (drop_entry k m).0 (drop_entry k m).1 (drop_entry-IsHeld k m held)

  remove_ids-IsHeld :
      (m : Manager) (ks : List ℕ) → IsHeld id kill m → IsHeld id kill (remove_ids m ks)
  unfolding remove_ids
  remove_ids-IsHeld m [] held = held
  remove_ids-IsHeld m (k ∷ ks) held =
      remove_ids-IsHeld (remove_id m k) ks (remove_id-IsHeld m k held)

  fail_heartbeat-IsHeld :
      (m : Manager) (k : ℕ) → IsHeld id kill m → IsHeld id kill (fail_heartbeat m k)
  unfolding fail_heartbeat announce_detached
  fail_heartbeat-IsHeld m k held = drop_entry-IsHeld k m held

  respond-IsHeld :
      (m : Manager) (o : Option ℕ) (r : Response)
      → IsHeld id kill m
      → IsHeld id kill (respond m o r)
  unfolding respond
  respond-IsHeld m none r held = held
  respond-IsHeld m (some caller) r held = held

  attach-HoldsAfter :
      (env : Environment) (m : Manager) (d : MuxerDevice) (held : IsHeld id kill m)
      → HoldsAfter id kill (attach env m d)
  unfolding attach
  attach-HoldsAfter env m d held =
      case_rule (HoldsAfter id kill) (attached_plist env.bsd d) {x = none}
        {f = λ plist. some (record m {
          devices = insert d.device_id d m.devices;
          listeners = broadcast m.listeners (attached plist);
        })}
        (λ _. tt) (λ _ _. held)

  attach_and_respond-HoldsAfter :
      (env : Environment) (m : Manager) (d : MuxerDevice) (o : Option ℕ) (held : IsHeld id kill m)
      → HoldsAfter id kill (attach_and_respond env m d o)
  unfolding attach_and_respond
  attach_and_respond-HoldsAfter env m d o held =
      case_rule (HoldsAfter id kill) (attach env m d) {x = none}
        {f = λ m'. some (respond m' o (result 1))} (λ _. tt)
        (λ m' e.
          respond-IsHeld m' o (result 1)
            (subst (HoldsAfter id kill) e (attach-HoldsAfter env m d held)))

  add_network_device-HoldsAfter :
      (env : Environment) (m : Manager) (udid : String) (address : IpAddr) (service t : String)
      (o : Option ℕ) (held : IsHeld id kill m)
      → HoldsAfter id kill (add_network_device env m udid address service t o)
  unfolding add_network_device start_heartbeat
  add_network_device-HoldsAfter env m udid address service t o held =
      let d = network_device m udid address service t in
      let now = attach_and_respond env (next_index m) d o in
      let later = some (start_heartbeat (next_index m) d o) in
      if_rule (HoldsAfter id kill) (env.has_pairing_record udid)
        {x = if env.use_heartbeat then later else now} {y = some m}
        (λ _.
          if_rule (HoldsAfter id kill) env.use_heartbeat {x = later} {y = now} (λ _. held)
            (λ _. attach_and_respond-HoldsAfter env (next_index m) d o held))
        (λ _. held)

  add_usb_device-HoldsAfter :
      (env : Environment) (m : Manager) (udid : String) (location product speed h : ℕ)
      (held : IsHeld id kill m)
      → HoldsAfter id kill (add_usb_device env m udid location product speed h)
  unfolding add_usb_device
  add_usb_device-HoldsAfter env m udid location product speed h held =
      let d = usb_device m udid location product speed in
      case_rule (HoldsAfter id kill) (attach env m d) {x = none}
        {f = λ m'.
          some (next_index (record m' { usb_handles = insert d.device_id h m'.usb_handles }))}
        (λ _. tt) (λ m' e. subst (HoldsAfter id kill) e (attach-HoldsAfter env m d held))

  keep_listener-IsHeld :
      (m : Manager) (r : Listener × Bool) → IsHeld id kill m → IsHeld id kill (keep_listener m r)
  unfolding keep_listener
  keep_listener-IsHeld m (l, true) held = held
  keep_listener-IsHeld m (l, false) held = held

  open_socket-IsHeld :
      (m : Manager) (k j : ℕ) (held : IsHeld id kill m)
      → contains
            (sockets_of id (insert k (sockets_of k m.open_sockets ++ j ∷ []) m.open_sockets))
            kill
          || contains m.killed kill
        ≡ true
  open_socket-IsHeld m k j held =
      rw (get-insert k id (sockets_of k m.open_sockets ++ j ∷ []) m.open_sockets) ground
        (arith, held, contains-append (sockets_of k m.open_sockets) (j ∷ []) kill)

  handle-HoldsAfter :
      (env : Environment) (m : Manager) (r : Request) (held : IsHeld id kill m)
      → HoldsAfter id kill (handle env m r)
  unfolding handle
  handle-HoldsAfter env m (discovered_network_device udid address service t o) held =
      case_rule (HoldsAfter id kill) (find_device_id m.devices udid t)
        {x = add_network_device env m udid address service t o} {f = λ k. some m}
        (λ _. add_network_device-HoldsAfter env m udid address service t o held) (λ _ _. held)
  handle-HoldsAfter env m (discovered_usb_device udid location product speed h) held =
      case_rule (HoldsAfter id kill) (find_device_id m.devices udid "USB")
        {x = add_usb_device env m udid location product speed h}
        {f = λ k. some (record m { usb_handles = insert k h m.usb_handles })}
        (λ _. add_usb_device-HoldsAfter env m udid location product speed h held) (λ _ _. held)
  handle-HoldsAfter env m (deferred_muxer_add d o) held =
      attach_and_respond-HoldsAfter env m d o held
  handle-HoldsAfter env m (remove_device udid t) held =
      remove_ids-IsHeld m (matching_ids udid t m.devices) held
  handle-HoldsAfter env m (list_devices none) held = held
  handle-HoldsAfter env m (list_devices (some caller)) held =
      case_rule (HoldsAfter id kill) (plists env.bsd m.devices) {x = none}
        {f = λ l. some (respond m (some caller) (device_list l))} (λ _. tt)
        (λ l _. respond-IsHeld m (some caller) (device_list l) held)
  handle-HoldsAfter env m (get_device_connection k caller) held = held
  handle-HoldsAfter env m (heartbeat_failed udid) held =
      case_rule (HoldsAfter id kill) (find_device_id m.devices udid "Network") {x = some m}
        {f = λ k. some (fail_heartbeat m k)} (λ _. held) (λ k _. fail_heartbeat-IsHeld m k held)
  handle-HoldsAfter env m (open_socket k j) held = open_socket-IsHeld m k j held
  handle-HoldsAfter env m (subscribe l) held =
      case_rule (HoldsAfter id kill) (greet env.bsd l m.devices) {x = none}
        {f = λ r. some (keep_listener m r)} (λ _. tt) (λ r _. keep_listener-IsHeld m r held)
  handle-HoldsAfter env m (listener_gone name) held = held

  -- Whatever the manager is asked, it holds on to the kill until it has sent it.
  pub handle_all-HoldsAfter :
      (env : Environment) (m : Manager) (rs : List Request) (held : IsHeld id kill m)
      → HoldsAfter id kill (handle_all env m rs)
  unfolding handle_all
  handle_all-HoldsAfter env m [] held = held
  handle_all-HoldsAfter env m (r ∷ rs) held =
      case_rule (HoldsAfter id kill) (handle env m r) {x = none} {f = λ m'. handle_all env m' rs}
        (λ _. tt)
        (λ m' e.
          handle_all-HoldsAfter env m' rs
            (subst (HoldsAfter id kill) e (handle-HoldsAfter env m r held)))

  -- A device that goes, removed or with its heartbeat failed, takes what is held for it along.
  pub drop_entry-sends :
      (m : Manager) (held : IsHeld id kill m) → contains (drop_entry id m).0.killed kill ≡ true
  unfolding drop_entry
  drop_entry-sends m held =
      rw (contains-append m.killed (sockets_of id m.open_sockets) kill) ground (arith, held)

  pub remove_id-sends :
      (m : Manager) (held : IsHeld id kill m) → contains (remove_id m id).killed kill ≡ true
  unfolding remove_id announce_detached
  remove_id-sends m held = sends (drop_entry id m).0 (drop_entry id m).1 (drop_entry-sends m held)
    where
      sends :
          (m' : Manager) (h : Option ℕ)
          → contains m'.killed kill ≡ true
          → contains (shut_down_handle (m', h)).killed kill ≡ true
      sends m' none e = e
      sends m' (some h) e = e

  pub fail_heartbeat-sends :
      (m : Manager) (held : IsHeld id kill m) → contains (fail_heartbeat m id).killed kill ≡ true
  unfolding fail_heartbeat announce_detached
  fail_heartbeat-sends m held = drop_entry-sends m held
