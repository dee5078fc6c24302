-- ===== src/Daemon/Balance.antt =====
-- src/daemon/nusb_backend.rs: over any course of events, what becomes of the mux tasks that are spawned.
use Prim.Native.String.{String}
use netmuxd.Base.{
  ℕ, zero, suc, ◌+◌, ◌≤◌, ◌≡◌, refl, ap, subst, Bool, List, [], ◌∷◌, ◌++◌, length, Option, none,
  some, case_option, if◌then◌else◌, arith, case_rule, if_rule, length-append,
}
use netmuxd.Base.Dict.{get, remove}
use netmuxd.Manager.Handle.{discovered_usb_device, remove_device}
use netmuxd.Apple.Descriptors.{MuxTarget, is_apple_mux}
use netmuxd.Daemon.Target.{find_mux_target}
use netmuxd.Daemon.Udid.{resolve_paired_udid}
use netmuxd.Daemon.Usb.{
  Shared, RecordCheck, valid, stale, unknown, has_record, check_pairing_record, send_remove, trust,
  validate, connect_device, register_or_pair, pair_via_usb, after_pairing, finish_pairing,
}
use netmuxd.Daemon.Counts.{
  registrations, removals, registrations-append, removals-append, length-remove,
  length-rename_known, length-insert,
}
use netmuxd.Daemon.Registered.{Quiet, validate-Quiet, pair_via_usb-Quiet}
use netmuxd.Daemon.Enrolled.{pair_via_usb-known}
use netmuxd.Daemon.Hotplug.{
  Plug, Hub, new_hub, Pending, HotplugEvent, connected, disconnected, mux_exited, paired, meta_of,
  enter, run_mux, opens_target, handle_connected, forget, pick_pairing, end_pairing, hub_step,
  run_hub,
}

-- There are as many mux tasks that have been spawned as devices that the manager has been told of, tasks
-- that have been told to shut down, and pairings that go on, together; and not more devices that have
-- been removed or are known.
pub record IsBalanced (h : Hub) : Type 0 where
  pub tasks :
      registrations h.shared.requests + length h.shared.shut_down + length h.pairings
      ≡ length h.spawned
  pub devices : removals h.shared.requests + length h.shared.known ≤ length h.spawned

trust-known :
    (removable : Bool) (udid : String) (check : RecordCheck) (d : Shared)
    → (trust removable udid check d).1.known ≡ d.known
trust-known removable udid valid d = refl
trust-known removable udid stale d = refl
trust-known removable udid unknown d = refl

forget-IsBalanced : (id : ℕ) (h : Hub) → IsBalanced h → IsBalanced (forget id h)
unfolding forget send_remove
forget-IsBalanced id h b =
    case_rule IsBalanced (get id h.shared.known) {x = h}
      {f = λ udid. record h {
        shared = send_remove udid (record h.shared { known = remove id h.shared.known });
      }}
      (λ _. b)
      (λ udid e. record {
        tasks = omega (
          arith,
          b.tasks,
          registrations-append h.shared.requests (remove_device udid (some "USB") ∷ []),
        );
        devices = omega (
          arith,
          b.devices,
          removals-append h.shared.requests (remove_device udid (some "USB") ∷ []),
          length-remove id udid h.shared.known e,
        );
      })

validate-known :
    (p : Plug) (raw : String) (d : Shared) → (validate p.preflight raw d).1.known ≡ d.known
unfolding validate
validate-known p raw d =
    let check = λ (udid : String). check_pairing_record (has_record d.records udid) p.preflight in
    case_rule (λ (r : Option String × Shared). r.1.known ≡ d.known)
      (resolve_paired_udid (has_record d.records) raw) {x = (none, d)}
      {f = λ udid. trust p.preflight.removable udid (check udid) d} (λ _. refl)
      (λ udid _. trust-known p.preflight.removable udid (check udid) d)

entered-IsBalanced :
    (p : Plug) (raw : String) (h : Hub) (r : Option String × Shared)
    → Quiet p.mux_handle (meta_of p) h.shared r
    → r.1.known ≡ h.shared.known
    → IsBalanced h
    → IsBalanced (enter p raw h (register_or_pair p.mux_handle (meta_of p) raw r))
entered-IsBalanced p raw h (some udid, d) (requests, shut) known b =
    let told =
      discovered_usb_device udid (meta_of p).location_id (meta_of p).product_id (meta_of p).speed
        p.mux_handle in
    record {
      tasks = omega (
        arith,
        b.tasks,
        registrations-append d.requests (told ∷ []),
        ap registrations requests,
        ap length shut,
        length-append h.spawned ((p.mux_handle, raw) ∷ []),
      );
      devices = omega (
        arith,
        b.devices,
        removals-append d.requests (told ∷ []),
        ap removals requests,
        ap length known,
        length-insert p.id udid d.known,
        length-append h.spawned ((p.mux_handle, raw) ∷ []),
      );
    }
entered-IsBalanced p raw h (none, d) (requests, shut) known b = record {
  tasks = omega (
    arith,
    b.tasks,
    ap registrations requests,
    ap length shut,
    length-append h.pairings,
    length-append h.spawned ((p.mux_handle, raw) ∷ []),
  );
  devices = omega (
    arith,
    b.devices,
    ap removals requests,
    ap length known,
    length-insert p.id raw d.known,
    length-append h.spawned ((p.mux_handle, raw) ∷ []),
  );
}

run_mux-IsBalanced :
    (p : Plug) (raw : String) (h : Hub) → IsBalanced h → IsBalanced (run_mux p raw h)
unfolding run_mux connect_device
run_mux-IsBalanced p raw h b =
    entered-IsBalanced p raw h (validate p.preflight raw h.shared)
      (validate-Quiet p.mux_handle (meta_of p) p.preflight raw h.shared)
      (validate-known p raw h.shared) b

handle_connected-IsBalanced :
    (p : Plug) (h : Hub) → IsBalanced h → IsBalanced (handle_connected p h)
unfolding handle_connected
handle_connected-IsBalanced p h b =
    let switched : Hub = record h { switched = h.switched ++ p.id ∷ [] } in
    let run = case_option p.serial h (λ raw. run_mux p raw h) in
    let open_one = λ (t : MuxTarget). if opens_target p t then run else h in
    let found = case_option (find_mux_target p.active p.configs) switched open_one in
    if_rule IsBalanced p.opens {x = found} {y = h}
      (λ _.
        case_rule IsBalanced (find_mux_target p.active p.configs) {x = switched} {f = open_one}
          (λ _. record { tasks = b.tasks; devices = b.devices })
          (λ t _.
            if_rule IsBalanced (opens_target p t) {x = run} {y = h}
              (λ _.
                case_rule IsBalanced p.serial {x = h} {f = λ raw. run_mux p raw h} (λ _. b)
                  (λ raw _. run_mux-IsBalanced p raw h b))
              (λ _. b)))
      (λ _. b)

abbrev OneLess : List Pending → Option (Pending × List Pending) → Type 0
OneLess ps none = Unit {0}
OneLess ps (some r) = length ps ≡ suc (length r.1)

pick_pairing-OneLess : (n : ℕ) (ps : List Pending) → OneLess ps (pick_pairing n ps)
unfolding pick_pairing
pick_pairing-OneLess n [] = tt
pick_pairing-OneLess zero (p ∷ ps) = omega arith
pick_pairing-OneLess (suc n) (p ∷ ps) =
    case_rule (OneLess (p ∷ ps)) (pick_pairing n ps) {x = none} {f = λ r. some (r.0, p ∷ r.1)}
      (λ _. tt)
      (λ r e. let less = subst (OneLess ps) e (pick_pairing-OneLess n ps) in omega (arith, less))

paired-IsBalanced :
    (h : Hub) (pending : Pending) (ps : List Pending) (r : Option String × Shared)
    → Quiet pending.mux_handle pending.meta h.shared r
    → r.1.known ≡ h.shared.known
    → length h.pairings ≡ suc (length ps)
    → IsBalanced h
    → IsBalanced (record h {
      shared = after_pairing pending.key pending.mux_handle pending.meta r;
      pairings = ps;
    })
paired-IsBalanced h pending ps (none, d) (requests, shut) known less b = record {
  tasks = omega (
    arith,
    b.tasks,
    less,
    ap registrations requests,
    ap length shut,
    length-append d.shut_down (pending.mux_handle ∷ []),
  );
  devices = omega (arith, b.devices, ap removals requests, ap length known);
}
paired-IsBalanced h pending ps (some udid, d) (requests, shut) known less b =
    let told =
      discovered_usb_device udid pending.meta.location_id pending.meta.product_id pending.meta.speed
        pending.mux_handle in
    record {
      tasks = omega (
        arith,
        b.tasks,
        less,
        registrations-append d.requests (told ∷ []),
        ap registrations requests,
        ap length shut,
      );
      devices = omega (
        arith,
        b.devices,
        removals-append d.requests (told ∷ []),
        ap removals requests,
        ap length known,
        length-rename_known pending.key udid d.known,
      );
    }

hub_step-IsBalanced : (h : Hub) (e : HotplugEvent) → IsBalanced h → IsBalanced (hub_step h e)
unfolding hub_step finish_pairing
hub_step-IsBalanced h (connected p) b =
    if_rule IsBalanced (is_apple_mux p.vendor_id p.product_id) {x = handle_connected p h} {y = h}
      (λ _. handle_connected-IsBalanced p h b) (λ _. b)
hub_step-IsBalanced h (disconnected id) b = forget-IsBalanced id h b
hub_step-IsBalanced h (mux_exited id) b = forget-IsBalanced id h b
hub_step-IsBalanced h (paired n q) b =
    case_rule IsBalanced (pick_pairing n h.pairings) {x = h} {f = end_pairing q h} (λ _. b)
      (λ r e.
        paired-IsBalanced h r.0 r.1 (pair_via_usb q r.0.raw h.shared)
          (pair_via_usb-Quiet r.0.mux_handle r.0.meta q r.0.raw h.shared)
          (pair_via_usb-known q r.0.raw h.shared)
          (subst (OneLess h.pairings) e (pick_pairing-OneLess n h.pairings)) b)

run-IsBalanced : (h : Hub) (es : List HotplugEvent) → IsBalanced h → IsBalanced (run_hub h es)
unfolding run_hub
run-IsBalanced h [] b = b
run-IsBalanced h (e ∷ es) b = run-IsBalanced (hub_step h e) es (hub_step-IsBalanced h e b)

-- In any course of connections, removals, exits of mux tasks and ends of pairings, with whatever records
-- there are at first: there are as many mux tasks that have been spawned as devices that the manager has
-- been told of, tasks that have been told to shut down, and pairings that go on, together. And the
-- devices that the manager has been told to remove, with those that are known, are not more than these.
pub run_hub-IsBalanced :
    (records : List String) (es : List HotplugEvent) → IsBalanced (run_hub (new_hub records) es)
run_hub-IsBalanced records es =
    run-IsBalanced (new_hub records) es (record { tasks = refl; devices = omega arith })
