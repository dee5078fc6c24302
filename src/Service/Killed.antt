-- ===== src/Service/Killed.antt =====
-- src/manager.rs, `RemoveDevice` and `HeartbeatFailed`: what the kills of a device come to when it goes.
use Prim.Native.String.{String}
use text.Mathlib.TextPositions.{eq_refl}
use netmuxd.Base.{
  ℕ, ◌≡◌, refl, true, List, [], ◌∷◌, Option, none, some, ◌==◌, arith, if_rule, ==_iff,
}
use netmuxd.Base.Dict.{get, contains}
use netmuxd.Devices.{MuxerDevice}
use netmuxd.Manager.State.{Manager, sockets_of, find_device_id, drop_entry}
use netmuxd.Manager.Handle.{
  Request, remove_device, heartbeat_failed, Environment, matches_type, matching_ids,
  shut_down_handle, announce_detached, remove_id, remove_ids, fail_heartbeat, handle,
}
use netmuxd.Service.Held.{
  IsHeld, contains-append, remove_id-IsHeld, remove_id-sends, fail_heartbeat-sends,
}

-- A request by which the manager lets go of the device of a number: it removes devices of its name,
-- of any kind or of the device's own, or the heartbeat failed of the device that it finds first.
pub data Drops (id : ℕ) (m : Manager) : Request → Type 0 where
  removes :
      (d : MuxerDevice) (t : Option String) (listed : get id m.devices ≡ some d)
      (matches : matches_type t d ≡ true)
      → Drops id m (remove_device d.serial_number t)
  fails :
      (udid : String) (found : find_device_id m.devices udid "Network" ≡ some id)
      → Drops id m (heartbeat_failed udid)

listed-matching :
    (id : ℕ) (d : MuxerDevice) (t : Option String) (devices : List (ℕ × MuxerDevice))
    (listed : get id devices ≡ some d) (matches : matches_type t d ≡ true)
    → contains (matching_ids d.serial_number t devices) id ≡ true
unfolding get matching_ids
listed-matching id d t [] listed matches = absurd (ground arith)
listed-matching id d t ((j, e) ∷ devices) listed matches =
    ground (arith, matches, eq_refl d.serial_number, listed-matching id d t devices)

module _ (kill : ℕ) where
  WasSent : Manager → Type 0
  WasSent m = contains m.killed kill ≡ true

  drop_entry-WasSent : (m : Manager) (k : ℕ) → WasSent m → WasSent (drop_entry k m).0
  unfolding WasSent drop_entry
  drop_entry-WasSent m k sent =
      rw (contains-append m.killed (sockets_of k m.open_sockets) kill, sent) refl

  shut_down_handle-WasSent :
      (m : Manager) (h : Option ℕ) → WasSent m → WasSent (shut_down_handle (m, h))
  unfolding WasSent
  shut_down_handle-WasSent m none sent = sent
  shut_down_handle-WasSent m (some h) sent = sent

  remove_id-WasSent : (m : Manager) (k : ℕ) → WasSent m → WasSent (remove_id m k)
  unfolding WasSent remove_id announce_detached
  remove_id-WasSent m k sent =
      shut_down_handle-WasSent (drop_entry k m).0 (drop_entry k m).1 (drop_entry-WasSent m k sent)

  remove_ids-WasSent : (m : Manager) (ks : List ℕ) → WasSent m → WasSent (remove_ids m ks)
  unfolding remove_ids
  remove_ids-WasSent m [] sent = sent
  remove_ids-WasSent m (k ∷ ks) sent =
      remove_ids-WasSent (remove_id m k) ks (remove_id-WasSent m k sent)

  remove_ids-sends :
      (id : ℕ) (m : Manager) (ks : List ℕ)
      → IsHeld id kill m
      → contains ks id ≡ true
      → WasSent (remove_ids m ks)
  unfolding remove_ids WasSent
  remove_ids-sends id m [] held among = absurd (ground arith)
  remove_ids-sends id m (k ∷ ks) held among =
      if_rule (λ b. b ≡ true → WasSent (remove_ids (remove_id m k) ks)) (k == id) {x = true}
        {y = contains ks id}
        (λ e _.
          let sent : WasSent (remove_id m k) =
            rw ((==_iff k id).0 e) (remove_id-sends id kill m held) in
          remove_ids-WasSent (remove_id m k) ks sent)
        (λ _ later.
          remove_ids-sends id (remove_id m k) ks (remove_id-IsHeld id kill m k held) later)
        among

  -- A request by which the manager lets go of a device sends what it holds for the device.
  pub Drops-sends :
      (env : Environment) (id : ℕ) (m : Manager) (r : Request)
      → IsHeld id kill m
      → Drops id m r
      → (m' : Manager) × (handle env m r ≡ some m') × (contains m'.killed kill ≡ true)
  unfolding handle WasSent
  Drops-sends env id m _ held (removes d t listed matches) = (
    remove_ids m (matching_ids d.serial_number t m.devices),
    refl,
    remove_ids-sends id m (matching_ids d.serial_number t m.devices) held
        (listed-matching id d t m.devices listed matches),
  )
  Drops-sends env id m _ held (fails udid found) =
      (fail_heartbeat m id, rw (found) refl, fail_heartbeat-sends id kill m held)
