-- ===== src/Manager/Told.antt =====
-- src/manager.rs: listeners and the table of devices, over any sequence of requests.
use netmuxd.Base.{
  ℕ, ◌≡◌, refl, subst, Bool, true, false, List, [], ◌∷◌, Option, none, some, case_option,
  if◌then◌else◌, ◌==◌, arith, All, All-append, if_rule, case_rule, Option-cases, inl, inr,
}
use netmuxd.Base.Dict.{get, insert}
use mathlib.Core.Bool.{false≢true}
use netmuxd.Devices.Plist.{Entries}
use netmuxd.Devices.{MuxerDevice}
use netmuxd.Manager.State.{
  Manager, Listener, attached, device_list, find_device_id, attached_plist, send_event, respond,
}
use netmuxd.Manager.Handle.{
  Request, discovered_network_device, discovered_usb_device, deferred_muxer_add, remove_device,
  list_devices, get_device_connection, heartbeat_failed, open_socket, subscribe, listener_gone,
  Environment, add_network_device, add_usb_device, matching_ids, close_listener, fail_heartbeat,
  plists, greet, keep_listener, handle,
}
use netmuxd.Manager.Safety.{Entry, IsSafe}
use netmuxd.Manager.Views.{
  track, has, Sees, Agrees, Keeps, track-append, attached_plist-id, respond-Agrees,
  attach_and_respond-Keeps, add_network_device-Keeps, add_usb_device-Keeps, detach-Agrees,
  remove_ids-Agrees,
}
use netmuxd.Manager.Safety.{IsFair}

-- A listener that was greeted knows what it knew before and the devices of the table.
abbrev Greeted : ℕ → Bool → Option (Listener × Bool) → Type 0
Greeted id b none = Unit {0}
Greeted id b (some (l, ok)) = ok ≡ true → track id false l.inbox ≡ b

greeted_next :
    (id k : ℕ) (bsd : Bool) (l : Listener) (d : MuxerDevice) (p : Entries)
    (devices : List (ℕ × MuxerDevice))
    → d.device_id ≡ k
    → attached_plist bsd d ≡ some p
    → (if has id devices then true else track id false (send_event l (attached p)).inbox)
      ≡ (if has id ((k, d) ∷ devices) then true else track id false l.inbox)
unfolding get
greeted_next id k bsd l d p devices own e =
    rw (track-append id false l.inbox (attached p), attached_plist-id bsd d p e, own) (ground arith)

greet-Greeted :
    (id bound : ℕ) (bsd : Bool) (l : Listener) (devices : List (ℕ × MuxerDevice))
    → All (Entry bound) devices
    → Greeted id (if has id devices then true else track id false l.inbox) (greet bsd l devices)
unfolding greet get
greet-Greeted id bound bsd l [] h = λ _. refl
greet-Greeted id bound bsd l ((k, d) ∷ devices) h =
    let seen = if has id ((k, d) ∷ devices) then true else track id false l.inbox in
    let next = λ (plist : Entries). greet bsd (send_event l (attached plist)) devices in
    case_rule (Greeted id seen) (attached_plist bsd d) {x = none}
      {f = λ plist. if l.is_open then next plist else some (l, false)} (λ _. tt)
      λ plist e.
        if_rule (Greeted id seen) l.is_open {x = next plist} {y = some (l, false)}
          (λ _.
            subst (λ b. Greeted id b (next plist))
              (greeted_next id k bsd l d plist devices h.0.own_id e)
              (greet-Greeted id bound bsd (send_event l (attached plist)) devices h.1))
          (λ _ not_ok. absurd (false≢true not_ok))

keep_listener-Agrees :
    (id : ℕ) (m : Manager) (r : Listener × Bool)
    → Greeted id (has id m.devices) (some r)
    → Agrees id m
    → Agrees id (keep_listener m r)
unfolding keep_listener
keep_listener-Agrees id m (l, true) g h =
    All-append (Sees id (has id m.devices)) m.listeners (l ∷ []) h (inr (g refl), tt)
keep_listener-Agrees id m (l, false) g h = h

-- A new listener has been told of nothing.
abbrev pub IsFresh : Request → Type 0
IsFresh (subscribe l) = l.inbox ≡ []
IsFresh _ = Unit {0}

subscribe-Keeps :
    (id : ℕ) (env : Environment) (m : Manager) (l : Listener)
    → IsSafe m
    → l.inbox ≡ []
    → Agrees id m
    → Keeps id (handle env m (subscribe l))
unfolding handle
subscribe-Keeps id env m l s fresh h =
    let all = greet-Greeted id m.last_index env.bsd l m.devices s.known in
    elim (Option-cases (greet env.bsd l m.devices)) [
      | inl e ↦ rw (e, handle) tt
      | inr (r, e) ↦
          let told : Greeted id (if has id m.devices then true else track id false l.inbox)
              (some r) =
            rw e at all in
          rw (e, handle)
            (keep_listener-Agrees id m r (subst (λ b. Greeted id b (some r)) (unheard fresh) told)
              h)
    ]
  where
    unheard :
        l.inbox ≡ []
        → (if has id m.devices then true else track id false l.inbox) ≡ has id m.devices
    unheard e = rw e (ground arith)

close_listener-Sees :
    (id name : ℕ) (b : Bool) (ls : List Listener)
    → All (Sees id b) ls
    → All (Sees id b) (close_listener name ls)
unfolding close_listener
close_listener-Sees id name b [] h = tt
close_listener-Sees id name b (l ∷ ls) h = (
  if_rule (Sees id b) (l.name == name) {x = record l { is_open = false }} {y = l} (λ _. inl refl)
      (λ _. h.0),
  close_listener-Sees id name b ls h.1,
)

list_devices-Keeps :
    (id : ℕ) (env : Environment) (m : Manager) (o : Option ℕ)
    → Agrees id m
    → Keeps id (handle env m (list_devices o))
unfolding handle
list_devices-Keeps id env m none h = h
list_devices-Keeps id env m (some caller) h =
    case_rule (Keeps id) (plists env.bsd m.devices) {x = none}
      {f = λ l. some (respond m (some caller) (device_list l))} (λ _. tt)
      (λ l _. respond-Agrees id m (some caller) (device_list l) h)

fail_heartbeat-Agrees : (id k : ℕ) (m : Manager) → Agrees id m → Agrees id (fail_heartbeat m k)
unfolding fail_heartbeat
fail_heartbeat-Agrees id k m h = detach-Agrees id k m h

-- Every request keeps the listeners right about a device: one that can still be told takes it to be
-- there exactly if the table holds it.
pub handle-Keeps :
    (id : ℕ) (env : Environment) (m : Manager) (r : Request)
    → IsSafe m
    → IsFresh r
    → Agrees id m
    → Keeps id (handle env m r)
unfolding handle
handle-Keeps id env m (discovered_network_device udid address service t response) s fresh h =
    case_rule (Keeps id) (find_device_id m.devices udid t)
      {x = add_network_device env m udid address service t response} {f = λ id. some m}
      (λ _. add_network_device-Keeps id env m udid address service t response h) (λ k _. h)
handle-Keeps id env m (discovered_usb_device udid location product speed hd) s fresh h =
    case_rule (Keeps id) (find_device_id m.devices udid "USB")
      {x = add_usb_device env m udid location product speed hd}
      {f = λ k. some (record m { usb_handles = insert k hd m.usb_handles })}
      (λ _. add_usb_device-Keeps id env m udid location product speed hd h) (λ k _. h)
handle-Keeps id env m (deferred_muxer_add d response) s fresh h =
    attach_and_respond-Keeps id env m d response h
handle-Keeps id env m (remove_device udid t) s fresh h =
    remove_ids-Agrees id m (matching_ids udid t m.devices) h
handle-Keeps id env m (list_devices o) s fresh h = list_devices-Keeps id env m o h
handle-Keeps id env m (get_device_connection k caller) s fresh h = h
handle-Keeps id env m (heartbeat_failed udid) s fresh h =
    case_rule (Keeps id) (find_device_id m.devices udid "Network") {x = some m}
      {f = λ k. some (fail_heartbeat m k)} (λ _. h) (λ k _. fail_heartbeat-Agrees id k m h)
handle-Keeps id env m (open_socket k kill) s fresh h = h
handle-Keeps id env m (subscribe l) s fresh h = subscribe-Keeps id env m l s fresh h
handle-Keeps id env m (listener_gone name) s fresh h =
    close_listener-Sees id name (has id m.devices) m.listeners h

-- The requests of a run: each device that is deferred has been numbered by the manager that gets
-- it, and each listener is new.
abbrev pub AreFair : Environment → Manager → List Request → Type 0
AreFair env m [] = Unit {0}
AreFair env m (r ∷ rs) =
    IsFair m r × IsFresh r × case_option (handle env m r) (Unit {0}) (λ m'. AreFair env m' rs)
