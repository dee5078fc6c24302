-- ===== src/Daemon/Registered.antt =====
-- src/daemon/mod.rs: what becomes of a USB device.
use Prim.Native.String.{String}
use netmuxd.Base.{
  ℕ, ◌≡◌, refl, ap, Bool, ◌&&◌, [], ◌∷◌, ◌++◌, Option, none, some, case_option, if◌then◌else◌,
  case_rule, if_rule, ◌⊎◌, inl, inr,
}
use netmuxd.Manager.Handle.{discovered_usb_device}
use netmuxd.Daemon.Udid.{resolve_paired_udid, synthesize_udid}
use netmuxd.Daemon.Usb.{
  Preflight, PairRun, DeviceMeta, Shared, RecordCheck, valid, stale, unknown, has_record,
  without_record, in_restore_mode, check_pairing_record, canonical_udid, pair_as, pair_via_usb,
  after_pairing, finish_pairing, trust, validate, register_or_pair, connect_device, run_device,
}

module _ (handle_ : ℕ) (meta : DeviceMeta) where
  -- The manager has been told of the device, with its handle, or its mux task has been told to shut down.
  abbrev pub Settles : Shared → Shared → Type 0
  Settles d d' =
      ((udid : String) × (d'.requests
          ≡ d.requests
            ++ discovered_usb_device udid meta.location_id meta.product_id meta.speed handle_ ∷ [])
        × (d'.shut_down ≡ d.shut_down))
      ⊎ ((d'.requests ≡ d.requests) × (d'.shut_down ≡ d.shut_down ++ handle_ ∷ []))

  -- Nothing of it has happened yet.
  abbrev pub Quiet : Shared → Option String × Shared → Type 0
  Quiet d (o, d') = (d'.requests ≡ d.requests) × (d'.shut_down ≡ d.shut_down)

  pub pair_via_usb-Quiet :
      (p : PairRun) (raw : String) (d : Shared) → Quiet d (pair_via_usb p raw d)
  unfolding pair_via_usb pair_as
  pair_via_usb-Quiet p raw d =
      let paired = λ (udid : String). record d { records = udid ∷ without_record udid d.records } in
      let ask = case_option (canonical_udid raw p.unique) (none, d) (λ udid. pair_as p udid d) in
      if_rule (Quiet d) p.connects
        {x = if in_restore_mode p.query_type then (some (synthesize_udid raw), d) else ask}
        {y = (none, d)}
        (λ _.
          if_rule (Quiet d) (in_restore_mode p.query_type) {x = (some (synthesize_udid raw), d)}
            {y = ask} (λ _. (refl, refl))
            (λ _.
              case_rule (Quiet d) (canonical_udid raw p.unique) {x = (none, d)}
                {f = λ udid. pair_as p udid d} (λ _. (refl, refl))
                (λ udid _.
                  if_rule (Quiet d) (p.has_identity && p.trusted && p.serializes && p.writes)
                    {x = (some udid, paired udid)} {y = (none, d)} (λ _. (refl, refl))
                    (λ _. (refl, refl)))))
        (λ _. (refl, refl))

  after_pairing-Settles :
      (key : ℕ) (d : Shared) (r : Option String × Shared) (quiet : Quiet d r)
      → Settles d (after_pairing key handle_ meta r)
  after_pairing-Settles key d (none, d') (requests, shut) =
      inr (requests, ap (λ l. l ++ handle_ ∷ []) shut)
  after_pairing-Settles key d (some udid, d') (requests, shut) = inl (
    udid,
    ap
        (λ l.
          l ++ discovered_usb_device udid meta.location_id meta.product_id meta.speed handle_ ∷ [])
        requests,
    shut,
  )

  trust-Quiet :
      (removable : Bool) (udid : String) (check : RecordCheck) (d : Shared)
      → Quiet d (trust removable udid check d)
  trust-Quiet removable udid valid d = (refl, refl)
  trust-Quiet removable udid stale d = (refl, refl)
  trust-Quiet removable udid unknown d = (refl, refl)

  pub validate-Quiet : (p : Preflight) (raw : String) (d : Shared) → Quiet d (validate p raw d)
  unfolding validate
  validate-Quiet p raw d =
      case_rule (Quiet d) (resolve_paired_udid (has_record d.records) raw) {x = (none, d)}
        {f = λ udid. trust p.removable udid (check_pairing_record (has_record d.records udid) p) d}
        (λ _. (refl, refl))
        (λ udid _.
          trust-Quiet p.removable udid (check_pairing_record (has_record d.records udid) p) d)

  Settles-after :
      (d e d' : Shared) (requests : e.requests ≡ d.requests) (shut : e.shut_down ≡ d.shut_down)
      → Settles e d'
      → Settles d d'
  Settles-after d e d' requests shut (inl (udid, told, same)) =
      inl (udid, rw⁻¹ (requests) told, rw⁻¹ (shut) same)
  Settles-after d e d' requests shut (inr (told, same)) =
      inr (rw⁻¹ (requests) told, rw⁻¹ (shut) same)

  finish : ℕ → String → PairRun → String × Bool × Shared → Shared
  finish key raw q (udid, pairing, d') =
      if pairing then finish_pairing key handle_ meta raw q d' else d'

  finish-Settles :
      (key : ℕ) (raw : String) (q : PairRun) (d : Shared) (r : Option String × Shared)
      (quiet : Quiet d r)
      → Settles d (finish key raw q (register_or_pair handle_ meta raw r))
  unfolding finish finish_pairing
  finish-Settles key raw q d (some udid, d') (requests, shut) = inl (
    udid,
    ap
        (λ l.
          l ++ discovered_usb_device udid meta.location_id meta.product_id meta.speed handle_ ∷ [])
        requests,
    shut,
  )
  finish-Settles key raw q d (none, d') (requests, shut) =
      Settles-after d d' (after_pairing key handle_ meta (pair_via_usb q raw d')) requests shut
        (after_pairing-Settles key d' (pair_via_usb q raw d') (pair_via_usb-Quiet q raw d'))

-- Whatever the storage holds and however the check of its record and the pairing go: by the end of the
-- course of a USB device, either the manager has been told of the device exactly once, with the handle
-- of its mux task, or that task has been told to shut down; never both, and nothing else is sent.
pub run_device-Settles :
    (key handle_ : ℕ) (meta : DeviceMeta) (raw : String) (p : Preflight) (q : PairRun) (d : Shared)
    → Settles handle_ meta d (run_device key handle_ meta raw p q d)
unfolding run_device connect_device finish
run_device-Settles key handle_ meta raw p q d =
    finish-Settles handle_ meta key raw q d (validate p raw d) (validate-Quiet handle_ meta p raw d)
