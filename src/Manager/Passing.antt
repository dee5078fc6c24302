-- ===== src/Manager/Passing.antt =====
-- src/manager.rs: the requests that take from the table of devices or only look at it.
use netmuxd.Base.{
  ℕ, ◌≡◌, refl, ◌∙◌, Bool, true, false, List, [], ◌∷◌, Option, none, some, arith, All, Bool-cases,
  inl, inr,
}
use netmuxd.Base.Dict.{All-remove}
use netmuxd.Devices.Plist.{Entries}
use netmuxd.Devices.{MuxerDevice}
use netmuxd.Manager.State.{Manager, Listener, attached, drop_entry, send_event}
use netmuxd.Manager.Handle.{
  shut_down_handle, announce_detached, remove_id, remove_ids, plists, greet, keep_listener,
}
use netmuxd.Manager.Safety.{Entry, IsSafe, attached_plist_total, Carries}

last-drop_entry : (m : Manager) (id : ℕ) → (drop_entry id m).0.last_index ≡ m.last_index
unfolding drop_entry
last-drop_entry m id = refl

pub drop_entry-IsSafe : (m : Manager) (id : ℕ) → IsSafe m → IsSafe (drop_entry id m).0
unfolding drop_entry
drop_entry-IsSafe m id s = record { known = All-remove (Entry m.last_index) id m.devices s.known }

shut_down_handle-IsSafe : (r : Manager × Option ℕ) → IsSafe r.0 → IsSafe (shut_down_handle r)
shut_down_handle-IsSafe (m, none) s = s
shut_down_handle-IsSafe (m, some h) s = record { known = s.known }

last-shut_down : (r : Manager × Option ℕ) → (shut_down_handle r).last_index ≡ r.0.last_index
last-shut_down (m, none) = refl
last-shut_down (m, some h) = refl

pub remove_ids-Carries :
    (m : Manager) (ids : List ℕ)
    → IsSafe m
    → IsSafe (remove_ids m ids) × ((remove_ids m ids).last_index ≡ m.last_index)
unfolding remove_ids remove_id announce_detached
remove_ids-Carries m [] s = (s, refl)
remove_ids-Carries m (id ∷ ids) s =
    let safe = shut_down_handle-IsSafe (drop_entry id m) (drop_entry-IsSafe m id s) in
    let (rest, last) = remove_ids-Carries (remove_id m id) ids (record { known = safe.known }) in
    (rest, last ∙ last-shut_down (drop_entry id m) ∙ last-drop_entry m id)

pub plists-total :
    (bsd : Bool) (bound : ℕ) (devices : List (ℕ × MuxerDevice))
    → All (Entry bound) devices
    → (l : List Entries) × (plists bsd devices ≡ some l)
unfolding plists
plists-total bsd bound [] h = ([], refl)
plists-total bsd bound ((id, d) ∷ devices) h =
    let (p, e) = attached_plist_total bsd d h.0.fields in
    let (l, rest) = plists-total bsd bound devices h.1 in (p ∷ l, rw (e, rest))

pub greet-total :
    (bsd : Bool) (bound : ℕ) (l : Listener) (devices : List (ℕ × MuxerDevice))
    → All (Entry bound) devices
    → (r : Listener × Bool) × (greet bsd l devices ≡ some r)
unfolding greet
greet-total bsd bound l [] h = ((l, true), refl)
greet-total bsd bound l ((id, d) ∷ devices) h =
    let (p, e) = attached_plist_total bsd d h.0.fields in
    let (r, rest) = greet-total bsd bound (send_event l (attached p)) devices h.1 in
    elim (Bool-cases l.is_open) [
      | inl open_ ↦ (r, ground (arith, e, rest))
      | inr closed ↦ ((l, false), ground (arith, e))
    ]

pub keep_listener-IsSafe :
    (m : Manager) (r : Listener × Bool)
    → IsSafe m
    → IsSafe (keep_listener m r) × ((keep_listener m r).last_index ≡ m.last_index)
unfolding keep_listener
keep_listener-IsSafe m (l, true) s = (record { known = s.known }, refl)
keep_listener-IsSafe m (l, false) s = (s, refl)

pub level :
    (m : Manager) (r : Option Manager)
    → (m' : Manager) × (r ≡ some m') × IsSafe m' × (m'.last_index ≡ m.last_index)
    → Carries m r
level m r (m', e, s, l) = (m', e, s, omega (arith, l), omega (arith, l))

pub same_tables :
    (m m' : Manager)
    → m'.devices ≡ m.devices
    → m'.last_index ≡ m.last_index
    → IsSafe m
    → Carries m (some m')
same_tables m m' d l s = level m _ (m', refl, record { known = rw (d, l) s.known }, l)
