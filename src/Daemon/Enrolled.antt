-- ===== src/Daemon/Enrolled.antt =====
-- src/daemon/mod.rs and src/daemon/nusb_backend.rs: how a device comes to be given to the manager.
use Prim.Native.String.{String}
use netmuxd.Base.{
  ℕ, ◌≡◌, refl, sym, ◌∙◌, ap, false, List, [], ◌∷◌, ◌++◌, Option, none, some, ==_refl, case_option,
  true, arith, length,
}
use mathlib.Core.Bool.{false≢true}
use netmuxd.Base.Dict.{get, insert, get-insert}
use netmuxd.Manager.Handle.{discovered_usb_device}
use netmuxd.Daemon.Usb.{
  Shared, PairRun, DeviceMeta, validate, connect_device, register_or_pair, rename_known,
  pair_via_usb, pair_as, after_pairing, finish_pairing,
}
use netmuxd.Daemon.Registered.{validate-Quiet, pair_via_usb-Quiet, Quiet}
use netmuxd.Daemon.Hotplug.{
  Plug, Hub, Pending, pick_pairing, paired, enter, meta_of, run_mux, hub_step,
}

abbrev pub known_to : Hub → ℕ → Option String
known_to h id = get id h.shared.known

-- The device is told to the manager and known under the same UDID.
pub record Enrolls (p : Plug) (h h' : Hub) : Type 0 where
  pub udid : String
  pub told :
      h'.shared.requests
      ≡ h.shared.requests
        ++ discovered_usb_device udid
            (meta_of p).location_id
            (meta_of p).product_id
            (meta_of p).speed
            p.mux_handle
          ∷ []
  pub known : known_to h' p.id ≡ some udid

known-insert :
    (key : ℕ) (udid : String) (known : List (ℕ × String))
    → get key (insert key udid known) ≡ some udid
known-insert key udid known = rw (get-insert, ==_refl) refl

entered :
    (p : Plug) (raw : String) (h : Hub) (r : Option String × Shared)
    (quiet : Quiet p.mux_handle (meta_of p) h.shared r)
    (registered : (register_or_pair p.mux_handle (meta_of p) raw r).1 ≡ false)
    → Enrolls p h (enter p raw h (register_or_pair p.mux_handle (meta_of p) raw r))
entered p raw h (none, d) quiet registered = absurd (false≢true (sym registered))
entered p raw h (some udid, d) (requests, shut) registered = record {
  udid = udid;
  told =
      ap
        (λ l.
          l
          ++ discovered_usb_device udid (meta_of p).location_id (meta_of p).product_id
              (meta_of p).speed p.mux_handle
            ∷ [])
        requests;
  known = known-insert p.id udid d.known;
}

pick_pairing-last :
    (ps : List Pending) (pending : Pending)
    → pick_pairing (length ps) (ps ++ pending ∷ []) ≡ some (pending, ps)
unfolding pick_pairing
pick_pairing-last [] pending = refl
pick_pairing-last (p ∷ ps) pending = rw (pick_pairing-last ps pending) refl

get-rename_known :
    (key : ℕ) (udid raw : String) (known : List (ℕ × String))
    → get key known ≡ some raw
    → get key (rename_known key udid known) ≡ some udid
unfolding get rename_known
get-rename_known key udid raw [] h = absurd (ground arith)
get-rename_known key udid raw ((k, u) ∷ known) h =
    ground (arith, h, get-rename_known key udid raw known)

-- The pairing that a connection starts.
abbrev pub pending_of : Plug → String → Pending
pending_of p raw = record { key = p.id; mux_handle = p.mux_handle; meta = meta_of p; raw = raw }

-- A device that is connected without a record: it is known under its serial number, its pairing goes
-- on, and the manager has not been told of it.
record Waits (p : Plug) (raw : String) (h h' : Hub) : Type 0 where
  pub untold : h'.shared.requests ≡ h.shared.requests
  pub known : known_to h' p.id ≡ some raw
  pub pairs : h'.pairings ≡ h.pairings ++ pending_of p raw ∷ []

entered-Waits :
    (p : Plug) (raw : String) (h : Hub) (r : Option String × Shared)
    (quiet : Quiet p.mux_handle (meta_of p) h.shared r)
    (pairing : (register_or_pair p.mux_handle (meta_of p) raw r).1 ≡ true)
    → Waits p raw h (enter p raw h (register_or_pair p.mux_handle (meta_of p) raw r))
entered-Waits p raw h (some udid, d) quiet pairing = absurd (false≢true pairing)
entered-Waits p raw h (none, d) (requests, shut) pairing = record {
  untold = requests;
  known = known-insert p.id raw d.known;
  pairs = refl;
}

pub pair_via_usb-known :
    (q : PairRun) (raw : String) (d : Shared) → (pair_via_usb q raw d).1.known ≡ d.known
unfolding pair_via_usb pair_as
pair_via_usb-known q raw d = ground arith

after_pairing-told :
    (key handle_ : ℕ) (meta : DeviceMeta) (udid : String) (r : Option String × Shared)
    (won : r.0 ≡ some udid)
    → ((after_pairing key handle_ meta r).requests
        ≡ r.1.requests
          ++ discovered_usb_device udid meta.location_id meta.product_id meta.speed handle_ ∷ [])
      × ((after_pairing key handle_ meta r).known ≡ rename_known key udid r.1.known)
after_pairing-told key handle_ meta udid (none, d) won = absurd (ground arith)
after_pairing-told key handle_ meta udid (some u, d) won =
    let same : u ≡ udid = ap (λ o. case_option o u (λ x. x)) won in rw (same) (refl, refl)

paired-Enrolls :
    (p : Plug) (raw : String) (h start : Hub) (q : PairRun) (udid : String)
    → Waits p raw h start
    → (pair_via_usb q raw start.shared).0 ≡ some udid
    → Enrolls p h (hub_step start (paired (length h.pairings) q))
unfolding hub_step finish_pairing
paired-Enrolls p raw h start q udid waits won =
    let r = pair_via_usb q raw start.shared in
    let (told, known) = after_pairing-told p.id p.mux_handle (meta_of p) udid r won in
    let (requests, shut) = pair_via_usb-Quiet p.mux_handle (meta_of p) q raw start.shared in
    let picked =
      ap (pick_pairing (length h.pairings)) waits.pairs
      ∙ pick_pairing-last h.pairings (pending_of p raw) in
    rw (picked) record {
      udid = udid;
      told =
          told
          ∙ ap
              (λ l.
                l
                ++ discovered_usb_device udid (meta_of p).location_id (meta_of p).product_id
                    (meta_of p).speed p.mux_handle
                  ∷ [])
              (requests ∙ waits.untold);
      known =
          ap (get p.id) known
          ∙ get-rename_known p.id udid raw r.1.known
              (ap (get p.id) (pair_via_usb-known q raw start.shared) ∙ waits.known);
    }

-- A device of the backend has just been given to the manager: when it was connected, with a record that
-- is trusted, or by the pairing that its connection has started, and that ends next.
pub data IsGiven (p : Plug) (raw : String) (h : Hub) : Hub → Type 0 where
  at_once :
      (trusted : (connect_device p.mux_handle (meta_of p) raw p.preflight h.shared).1 ≡ false)
      → IsGiven p raw h (run_mux p raw h)
  by_pairing :
      (q : PairRun) (udid : String)
      (pairing : (connect_device p.mux_handle (meta_of p) raw p.preflight h.shared).1 ≡ true)
      (won : (pair_via_usb q raw (run_mux p raw h).shared).0 ≡ some udid)
      → IsGiven p raw h (hub_step (run_mux p raw h) (paired (length h.pairings) q))

pub given-Enrolls :
    (p : Plug) (raw : String) (h h' : Hub) (given : IsGiven p raw h h') → Enrolls p h h'
unfolding run_mux connect_device
given-Enrolls p raw h _ (at_once trusted) =
    entered p raw h (validate p.preflight raw h.shared)
      (validate-Quiet p.mux_handle (meta_of p) p.preflight raw h.shared) trusted
given-Enrolls p raw h _ (by_pairing q udid pairing won) =
    paired-Enrolls p raw h (run_mux p raw h) q udid
      (entered-Waits p raw h (validate p.preflight raw h.shared)
        (validate-Quiet p.mux_handle (meta_of p) p.preflight raw h.shared) pairing)
      won
