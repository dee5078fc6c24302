-- ===== src/Service/Numbering.antt =====
-- src/manager.rs, `SHIM_NETWORK_ID_BASE`: the numbers that the manager gives to devices in shim mode.
use Prim.Native.String.{String}
use netmuxd.Base.{
  ℕ, suc, ◌+◌, ◌≤◌, ◌<◌, ◌≡◌, List, [], ◌∷◌, ◌++◌, Option, none, some, case_option, if◌then◌else◌,
  arith, case_rule, if_rule, subst, All, All-append,
}
use netmuxd.Base.Dict.{insert, All-insert, All-remove}
use netmuxd.Base.Bytes.{u64_mod}
use netmuxd.Devices.{MuxerDevice}
use netmuxd.Devices.Sockaddr.{IpAddr}
use netmuxd.Manager.State.{
  Manager, attached, Response, result, drop_entry, attached_plist, broadcast, respond,
  shim_network_id_base,
}
use netmuxd.Manager.Handle.{
  Request, deferred_muxer_add, Environment, attach, next_index, network_device, start_heartbeat,
  attach_and_respond, add_network_device, shut_down_handle, announce_detached, remove_id,
  remove_ids, fail_heartbeat, handle,
}

-- The device is not one that the upstream muxer could have numbered.
abbrev pub IsOwn : ℕ → Type 0
IsOwn id = shim_network_id_base ≤ id

abbrev pub OwnEntry : ℕ × MuxerDevice → Type 0
OwnEntry (id, d) = IsOwn id

abbrev pub OwnTask : MuxerDevice × Option ℕ → Type 0
OwnTask (d, o) = IsOwn d.device_id

-- The devices in the table and those with a heartbeat task are the manager's own, as the next will be,
-- and there is room for `n` more.
pub record IsApart (n : ℕ) (m : Manager) : Type 0 where
  pub low : IsOwn m.last_index
  pub room : m.last_index + n < u64_mod
  pub table : All OwnEntry m.devices
  pub tasks : All OwnTask m.heartbeats

abbrev pub IsApartAfter : ℕ → Option Manager → Type 0
IsApartAfter n none = Unit {0}
IsApartAfter n (some m) = IsApart n m

-- A deferred device is one that this manager has started a heartbeat task for.
abbrev pub IsStarted : Manager → Request → Type 0
IsStarted m (deferred_muxer_add d response) =
    (before : List (MuxerDevice × Option ℕ)) × (o : Option ℕ) × (after : List
      (MuxerDevice × Option ℕ))
    × (m.heartbeats ≡ before ++ (d, o) ∷ after)
IsStarted m _ = Unit {0}

abbrev pub AreStarted : Environment → Manager → List Request → Type 0
AreStarted env m [] = Unit {0}
AreStarted env m (r ∷ rs) =
    IsStarted m r × case_option (handle env m r) (Unit {0}) (λ m'. AreStarted env m' rs)

pub All-middle {ℓ κ} :
    {A : Type ℓ} (P : A → Type κ) (xs : List A) (a : A) (ys : List A) → All P (xs ++ a ∷ ys) → P a
All-middle P [] a ys h = h.0
All-middle P (x ∷ xs) a ys h = All-middle P xs a ys h.1

module _ (n : ℕ) where
  pub relax : (m : Manager) → IsApart (suc n) m → IsApart n m
  relax m h = record { low = h.low; room = omega (arith, h.room); table = h.table; tasks = h.tasks }

  pub next_index-IsApart : (m : Manager) → IsApart (suc n) m → IsApart n (next_index m)
  next_index-IsApart m h = record {
    low = omega (arith, h.room, h.low);
    room = omega (arith, h.room, h.low);
    table = h.table;
    tasks = h.tasks;
  }

  drop_entry-IsApart : (k : ℕ) (m : Manager) → IsApart n m → IsApart n (drop_entry k m).0
  unfolding drop_entry
  drop_entry-IsApart k m h = record {
    low = h.low;
    room = h.room;
    table = All-remove OwnEntry k m.devices h.table;
    tasks = h.tasks;
  }

  remove_id-IsApart : (m : Manager) (k : ℕ) → IsApart n m → IsApart n (remove_id m k)
  unfolding remove_id announce_detached
  remove_id-IsApart m k h = shut (drop_entry k m).0 (drop_entry k m).1 (drop_entry-IsApart k m h)
    where
      shut :
          (m' : Manager) (o : Option ℕ)
          → IsApart n m'
          → IsApart n (announce_detached (shut_down_handle (m', o)) k)
      shut m' none g = record { low = g.low; room = g.room; table = g.table; tasks = g.tasks }
      shut m' (some o) g = record { low = g.low; room = g.room; table = g.table; tasks = g.tasks }

  pub remove_ids-IsApart : (m : Manager) (ks : List ℕ) → IsApart n m → IsApart n (remove_ids m ks)
  unfolding remove_ids
  remove_ids-IsApart m [] h = h
  remove_ids-IsApart m (k ∷ ks) h = remove_ids-IsApart (remove_id m k) ks (remove_id-IsApart m k h)

  pub fail_heartbeat-IsApart : (m : Manager) (k : ℕ) → IsApart n m → IsApart n (fail_heartbeat m k)
  unfolding fail_heartbeat announce_detached
  fail_heartbeat-IsApart m k h =
      let g = drop_entry-IsApart k m h in
      record { low = g.low; room = g.room; table = g.table; tasks = g.tasks }

  pub respond-IsApart :
      (m : Manager) (o : Option ℕ) (r : Response) → IsApart n m → IsApart n (respond m o r)
  unfolding respond
  respond-IsApart m none r h = h
  respond-IsApart m (some caller) r h = record {
    low = h.low;
    room = h.room;
    table = h.table;
    tasks = h.tasks;
  }

  pub attach-IsApart :
      (env : Environment) (m : Manager) (d : MuxerDevice)
      → IsOwn d.device_id
      → IsApart n m
      → IsApartAfter n (attach env m d)
  unfolding attach
  attach-IsApart env m d own h =
      case_rule (IsApartAfter n) (attached_plist env.bsd d) {x = none}
        {f = λ plist. some (record m {
          devices = insert d.device_id d m.devices;
          listeners = broadcast m.listeners (attached plist);
        })}
        (λ _. tt)
        (λ _ _. record {
          low = h.low;
          room = h.room;
          table = All-insert OwnEntry d.device_id d m.devices own h.table;
          tasks = h.tasks;
        })

  pub attach_and_respond-IsApart :
      (env : Environment) (m : Manager) (d : MuxerDevice) (o : Option ℕ)
      → IsOwn d.device_id
      → IsApart n m
      → IsApartAfter n (attach_and_respond env m d o)
  unfolding attach_and_respond
  attach_and_respond-IsApart env m d o own h =
      case_rule (IsApartAfter n) (attach env m d) {x = none}
        {f = λ m'. some (respond m' o (result 1))} (λ _. tt)
        (λ m' e.
          respond-IsApart m' o (result 1) (subst (IsApartAfter n) e (attach-IsApart env m d own h)))

  pub add_network_device-IsApart :
      (env : Environment) (m : Manager) (udid : String) (address : IpAddr) (service t : String)
      (o : Option ℕ)
      → IsApart (suc n) m
      → IsApartAfter n (add_network_device env m udid address service t o)
  unfolding add_network_device start_heartbeat
  add_network_device-IsApart env m udid address service t o h =
      let d = network_device m udid address service t in
      let now = attach_and_respond env (next_index m) d o in
      let later = some (start_heartbeat (next_index m) d o) in
      let g = next_index-IsApart m h in
      if_rule (IsApartAfter n) (env.has_pairing_record udid)
        {x = if env.use_heartbeat then later else now} {y = some m}
        (λ _.
          if_rule (IsApartAfter n) env.use_heartbeat {x = later} {y = now}
            (λ _. record {
              low = g.low;
              room = g.room;
              table = g.table;
              tasks = All-append OwnTask m.heartbeats ((d, o) ∷ []) h.tasks (h.low, tt);
            })
            (λ _. attach_and_respond-IsApart env (next_index m) d o h.low g))
        (λ _. relax m h)
