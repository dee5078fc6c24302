-- ===== src/Daemon/Usb.antt =====
-- src/daemon/mod.rs: a USB device is checked, paired if it must be, and given to the manager.
use Prim.Native.String.{String}
use text.Mathlib.Text.{◌==◌ as str_eq}
use netmuxd.Base.{
  ℕ, Bool, true, false, not, ◌&&◌, List, [], ◌∷◌, ◌++◌, Option, none, some, case_option,
  if◌then◌else◌, ◌==◌,
}
use netmuxd.Manager.Handle.{Request, discovered_usb_device, remove_device}
use netmuxd.Daemon.Udid.{synthesize_udid, resolve_paired_udid}

-- How `start_session` with a stored record ends.
pub data SessionStart : Type 0 where
  session_ok invalid_host_id rustls_error other_error : SessionStart

-- The check of a record: whether the mux connects to lockdown, what `QueryType` answers, `none` being
-- its error, how the session starts, and whether the file of the record can be removed, or is gone by then.
pub record Preflight : Type 0 where
  pub connects : Bool
  pub query_type : Option String
  pub session : SessionStart
  pub removable : Bool

-- What `GetValue(UniqueDeviceID)` gives.
pub data UniqueId : Type 0 where
  id_failed not_a_string : UniqueId
  unique_id : String → UniqueId

-- The pairing: the same, then the device's own UDID, whether the host has an identity, whether the
-- device trusts it, and whether the record can be serialised and written.
pub record PairRun : Type 0 where
  pub connects : Bool
  pub query_type : Option String
  pub unique : UniqueId
  pub has_identity : Bool
  pub trusted : Bool
  pub serializes : Bool
  pub writes : Bool

pub data RecordCheck : Type 0 where
  valid stale unknown : RecordCheck

pub record DeviceMeta : Type 0 where
  pub location_id : ℕ
  pub product_id : ℕ
  pub speed : ℕ

-- What the tasks of a backend share: the UDIDs with a readable record, the requests sent to the
-- manager, the devices that are plugged in, by the key of the backend, and the mux tasks that have been
-- told to shut down.
pub record Shared : Type 0 where
  pub records : List String
  pub requests : List Request
  pub known : List (ℕ × String)
  pub shut_down : List ℕ

unfoldable pub has_record : List String → String → Bool
has_record [] udid = false
has_record (r ∷ rs) udid = if str_eq r udid then true else has_record rs udid

-- The records once the file of one is gone.
unfoldable pub without_record : String → List String → List String
without_record udid [] = []
without_record udid (r ∷ rs) =
    let rest = without_record udid rs in if str_eq r udid then rest else r ∷ rest

-- `remove_pairing_record`, whose error leaves the file.
unfoldable pub remove_pairing_record : Bool → String → List String → List String
remove_pairing_record removable udid records =
    if removable then without_record udid records else records

-- Whether `QueryType` shows another mode than the usual one.
abbrev pub in_restore_mode : Option String → Bool
in_restore_mode none = false
in_restore_mode (some t) = not (str_eq t "com.apple.mobile.lockdown")

abbrev pub check_session : SessionStart → RecordCheck
check_session session_ok = valid
check_session invalid_host_id = stale
check_session rustls_error = stale
check_session other_error = unknown

abbrev pub check_type : SessionStart → Option String → RecordCheck
check_type s none = unknown
check_type s (some t) = if in_restore_mode (some t) then unknown else check_session s

-- `check_pairing_record`
unfoldable pub check_pairing_record : Bool → Preflight → RecordCheck
check_pairing_record readable p =
    if readable
    then (if p.connects then check_type p.session p.query_type else unknown)
    else unknown

-- `register_with_manager`
abbrev pub register_with_manager : String → ℕ → DeviceMeta → Shared → Shared
register_with_manager udid handle_ meta d = record d {
  requests =
      d.requests
      ++ discovered_usb_device udid meta.location_id meta.product_id meta.speed handle_ ∷ [];
}

-- `send_remove`
unfoldable pub send_remove : String → Shared → Shared
send_remove udid d = record d { requests = d.requests ++ remove_device udid (some "USB") ∷ [] }

abbrev pub canonical_udid : String → UniqueId → Option String
canonical_udid raw id_failed = some (synthesize_udid raw)
canonical_udid raw not_a_string = none
canonical_udid raw (unique_id u) = some u

-- The pairing of a device whose UDID is known; the record is stored.
unfoldable pub pair_as : PairRun → String → Shared → Option String × Shared
pair_as p udid d =
    if p.has_identity && p.trusted && p.serializes && p.writes
    then (some udid, record d { records = udid ∷ without_record udid d.records })
    else (none, d)

-- `pair_via_usb`; `none` is one of its errors.
unfoldable pub pair_via_usb : PairRun → String → Shared → Option String × Shared
pair_via_usb p raw d =
    if p.connects
    then if in_restore_mode p.query_type
      then (some (synthesize_udid raw), d)
      else case_option (canonical_udid raw p.unique) (none, d) (λ udid. pair_as p udid d)
    else (none, d)

-- `if k.contains_key(&key) { k.insert(key, udid) }`
unfoldable pub rename_known : ℕ → String → List (ℕ × String) → List (ℕ × String)
rename_known key udid [] = []
rename_known key udid ((k, u) ∷ rest) =
    if k == key then (k, udid) ∷ rest else (k, u) ∷ rename_known key udid rest

-- The end of the spawned pairing.
abbrev pub after_pairing : ℕ → ℕ → DeviceMeta → Option String × Shared → Shared
after_pairing key handle_ meta (none, d) = record d { shut_down = d.shut_down ++ handle_ ∷ [] }
after_pairing key handle_ meta (some udid, d) =
    register_with_manager udid handle_ meta (record d { known = rename_known key udid d.known })

unfoldable pub finish_pairing : ℕ → ℕ → DeviceMeta → String → PairRun → Shared → Shared
finish_pairing key handle_ meta raw p d = after_pairing key handle_ meta (pair_via_usb p raw d)

-- The record that is trusted, if there is one; a stale one is removed, and where that fails, the program
-- only warns of it.
abbrev pub trust : Bool → String → RecordCheck → Shared → Option String × Shared
trust removable udid valid d = (some udid, d)
trust removable udid stale d =
    (none, record d { records = remove_pairing_record removable udid d.records })
trust removable udid unknown d = (some udid, d)

unfoldable pub validate : Preflight → String → Shared → Option String × Shared
validate p raw d =
    case_option (resolve_paired_udid (has_record d.records) raw) (none, d)
      λ udid. trust p.removable udid (check_pairing_record (has_record d.records udid) p) d

-- `connect_device` up to its end: the UDID that the backend remembers, whether a pairing has been
-- started, and what is shared.
abbrev pub register_or_pair :
    ℕ → DeviceMeta → String → Option String × Shared → String × Bool × Shared
register_or_pair handle_ meta raw (some udid, d) =
    (udid, false, register_with_manager udid handle_ meta d)
register_or_pair handle_ meta raw (none, d) = (raw, true, d)

unfoldable pub connect_device :
    ℕ → DeviceMeta → String → Preflight → Shared → String × Bool × Shared
connect_device handle_ meta raw p d = register_or_pair handle_ meta raw (validate p raw d)

-- The whole course of a device: connected and, if it must be, paired later, by when the backend may have
-- changed what is known.
unfoldable pub run_device : ℕ → ℕ → DeviceMeta → String → Preflight → PairRun → Shared → Shared
run_device key handle_ meta raw p q d =
    let (udid, pairing, d') = connect_device handle_ meta raw p d in
    if pairing then finish_pairing key handle_ meta raw q d' else d'
