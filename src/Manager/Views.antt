-- ===== src/Manager/Views.antt =====
-- src/manager.rs: what a listener has been told, next to the table of devices.
use Prim.Native.String.{String}
use netmuxd.Base.{
  ◌⊎◌, ℕ, ◌≡◌, refl, sym, ap, ◌∙◌, Bool, true, false, List, [], ◌∷◌, ◌++◌, Option, none, some,
  case_option, if◌then◌else◌, ◌==◌, arith, All, if_rule, case_rule, Option-cases, inl, inr,
}
use mathlib.Core.Bool.{false≢true}
use netmuxd.Base.Dict.{get, insert, remove}
use netmuxd.Devices.Plist.{Entries}
use netmuxd.Devices.{MuxerDevice}
use netmuxd.Devices.Sockaddr.{IpAddr}
use netmuxd.Manager.State.{
  Manager, Listener, ListenerEvent, attached, detached, Response, result, drop_entry,
  attached_plist, send_event, broadcast, respond,
}
use netmuxd.Manager.Handle.{
  Environment, attach, next_index, network_device, usb_device, start_heartbeat, attach_and_respond,
  add_network_device, add_usb_device, shut_down_handle, announce_detached, remove_id, remove_ids,
}
use netmuxd.Base.Dict.{get-insert, get-remove}
use netmuxd.Devices.Plist.{find, as_integer}

abbrev pub is_id : ℕ → Option ℕ → Bool
is_id id none = false
is_id id (some j) = j == id

-- `DeviceID` of an `Attached` message.
abbrev pub plist_id : Entries → Option ℕ
plist_id p = as_integer (find "DeviceID" p)

-- A client that follows the events: whether it takes the device to be there.
abbrev pub update : ℕ → Bool → ListenerEvent → Bool
update id known (attached p) = if is_id id (plist_id p) then true else known
update id known (detached j) = if j == id then false else known

abbrev pub track : ℕ → Bool → List ListenerEvent → Bool
track id known [] = known
track id known (e ∷ es) = track id (update id known e) es

abbrev pub has : ℕ → List (ℕ × MuxerDevice) → Bool
has id devices = case_option (get id devices) false λ d. true

pub track-append :
    (id : ℕ) (known : Bool) (es : List ListenerEvent) (e : ListenerEvent)
    → track id known (es ++ e ∷ []) ≡ update id (track id known es) e
track-append id known [] e = refl
track-append id known (x ∷ es) e = track-append id (update id known x) es e

pub attached_plist-id :
    (bsd : Bool) (d : MuxerDevice) (p : Entries)
    → attached_plist bsd d ≡ some p
    → plist_id p ≡ some d.device_id
unfolding attached_plist find
attached_plist-id bsd d p h = ground arith

has-insert :
    (id k : ℕ) (d : MuxerDevice) (devices : List (ℕ × MuxerDevice))
    → has id (insert k d devices) ≡ (if k == id then true else has id devices)
has-insert id k d devices = ground (arith, get-insert k id d devices)

has-remove :
    (id k : ℕ) (devices : List (ℕ × MuxerDevice))
    → has id (remove k devices) ≡ (if k == id then false else has id devices)
has-remove id k devices = ground (arith, get-remove k id devices)

-- A listener that can still be told has the device exactly if `b`.
abbrev pub Sees : ℕ → Bool → Listener → Type 0
Sees id b l = (l.is_open ≡ false) ⊎ (track id false l.inbox ≡ b)

abbrev pub Agrees : ℕ → Manager → Type 0
Agrees id m = All (Sees id (has id m.devices)) m.listeners

broadcast-Sees :
    (id : ℕ) (b c : Bool) (e : ListenerEvent) (ls : List Listener)
    → update id b e ≡ c
    → All (Sees id b) ls
    → All (Sees id c) (broadcast ls e)
unfolding broadcast
broadcast-Sees id b c e [] u h = tt
broadcast-Sees id b c e (l ∷ ls) u h =
    let rest = broadcast-Sees id b c e ls u h.1 in
    if_rule (All (Sees id c)) l.is_open {x = send_event l e ∷ broadcast ls e} {y = broadcast ls e}
      (λ o. (told o h.0, rest)) (λ _. rest)
  where
    told : l.is_open ≡ true → Sees id b l → Sees id c (send_event l e)
    told o (inl closed) = absurd (false≢true (sym closed ∙ o))
    told o (inr s) = inr (track-append id false l.inbox e ∙ ap (λ k. update id k e) s ∙ u)

-- The manager that a request leaves, if it does not panic, agrees with its listeners.
abbrev pub Keeps : ℕ → Option Manager → Type 0
Keeps id none = Unit {0}
Keeps id (some m) = Agrees id m

pub respond-Agrees :
    (id : ℕ) (m : Manager) (o : Option ℕ) (r : Response) → Agrees id m → Agrees id (respond m o r)
unfolding respond
respond-Agrees id m none r h = h
respond-Agrees id m (some c) r h = h

attach-Keeps :
    (id : ℕ) (env : Environment) (m : Manager) (d : MuxerDevice)
    → Agrees id m
    → Keeps id (attach env m d)
unfolding attach
attach-Keeps id env m d h =
    case_rule (Keeps id) (attached_plist env.bsd d) {x = none}
      {f = λ plist. some (record m {
        devices = insert d.device_id d m.devices;
        listeners = broadcast m.listeners (attached plist);
      })}
      (λ _. tt)
      λ plist e.
        broadcast-Sees id _ _ (attached plist) m.listeners
          (ap (λ o. if is_id id o then true else has id m.devices)
              (attached_plist-id env.bsd d plist e)
            ∙ sym (has-insert id d.device_id d m.devices))
          h

pub attach_and_respond-Keeps :
    (id : ℕ) (env : Environment) (m : Manager) (d : MuxerDevice) (o : Option ℕ)
    → Agrees id m
    → Keeps id (attach_and_respond env m d o)
unfolding attach_and_respond
attach_and_respond-Keeps id env m d o h = elim (Option-cases (attach env m d)) [
  | inl e ↦ rw (e, attach_and_respond) tt
  | inr (m', e) ↦
      let h' : Agrees id m' = rw e at (attach-Keeps id env m d h) in
      rw (e, attach_and_respond) (respond-Agrees id m' o (result 1) h')
]

pub add_network_device-Keeps :
    (id : ℕ) (env : Environment) (m : Manager) (udid : String) (address : IpAddr)
    (service t : String) (o : Option ℕ)
    → Agrees id m
    → Keeps id (add_network_device env m udid address service t o)
unfolding add_network_device start_heartbeat
add_network_device-Keeps id env m udid address service t o h =
    let d = network_device m udid address service t in
    if_rule (Keeps id) (env.has_pairing_record udid)
      {x = if env.use_heartbeat
        then some (start_heartbeat (next_index m) d o)
        else attach_and_respond env (next_index m) d o}
      {y = some m}
      (λ _.
        if_rule (Keeps id) env.use_heartbeat {x = some (start_heartbeat (next_index m) d o)}
          {y = attach_and_respond env (next_index m) d o} (λ _. h)
          (λ _. attach_and_respond-Keeps id env (next_index m) d o h))
      (λ _. h)

pub add_usb_device-Keeps :
    (id : ℕ) (env : Environment) (m : Manager) (udid : String) (location product speed handle_ : ℕ)
    → Agrees id m
    → Keeps id (add_usb_device env m udid location product speed handle_)
unfolding add_usb_device
add_usb_device-Keeps id env m udid location product speed handle_ h =
    let d = usb_device m udid location product speed in
    elim (Option-cases (attach env m d)) [
      | inl e ↦ rw (e, add_usb_device) tt
      | inr (m', e) ↦
          let h' : Agrees id m' = rw e at (attach-Keeps id env m d h) in rw (e, add_usb_device) h'
    ]

pub detach-Agrees :
    (id k : ℕ) (m : Manager) → Agrees id m → Agrees id (announce_detached (drop_entry k m).0 k)
unfolding announce_detached drop_entry
detach-Agrees id k m h =
    broadcast-Sees id _ _ (detached k) m.listeners (sym (has-remove id k m.devices)) h

announce_shut :
    (id k : ℕ) (r : Manager × Option ℕ)
    → Agrees id (announce_detached r.0 k)
    → Agrees id (announce_detached (shut_down_handle r) k)
unfolding announce_detached
announce_shut id k (m, none) h = h
announce_shut id k (m, some handle_) h = h

remove_id-Agrees : (id k : ℕ) (m : Manager) → Agrees id m → Agrees id (remove_id m k)
unfolding remove_id
remove_id-Agrees id k m h = announce_shut id k (drop_entry k m) (detach-Agrees id k m h)

pub remove_ids-Agrees :
    (id : ℕ) (m : Manager) (ks : List ℕ) → Agrees id m → Agrees id (remove_ids m ks)
unfolding remove_ids
remove_ids-Agrees id m [] h = h
remove_ids-Agrees id m (k ∷ ks) h =
    remove_ids-Agrees id (remove_id m k) ks (remove_id-Agrees id k m h)
