-- ===== src/Pairing/Identity.antt =====
-- src/pairing_file.rs, `get_host_identity`: the identity that the host pairs with.
use Prim.Native.String.{String}
use text.Mathlib.Text.{◌==◌ as str_eq}
use netmuxd.Base.{Bool, true, false, ◌||◌, Option, none, some, case_option, if◌then◌else◌}
use netmuxd.Devices.Plist.{Entries, end, entry, Value, string, find}

-- Reading and writing the XML of the crate plist, on contents of any type.
pub record PlistCrate (C : Type 0) : Type 0 where
  pub from_bytes : C → Option Entries
  pub to_writer_xml : Entries → Option C

-- `SystemConfiguration.plist`: not there, there but not readable, or with these contents.
pub data Stored (C : Type 0) : Type 0 where
  absent unreadable : Stored C
  contents : C → Stored C

abbrev pub as_text : Option Value → Option String
as_text (some (string s)) = some s
as_text _ = none

-- `plist.insert(key, value)`
unfoldable pub insert_entry : String → Value → Entries → Entries
insert_entry key v end = entry key v end
insert_entry key v (entry k w rest) =
    if str_eq k key then entry k v rest else entry k w (insert_entry key v rest)

-- A field of the dictionary, made if it is not there: the field, the dictionary, and whether that has
-- changed.
unfoldable pub ensure : String → String → Entries → String × Entries × Bool
ensure key fresh plist =
    case_option (as_text (find key plist)) (fresh, insert_entry key (string fresh) plist, true)
      λ s. (s, plist, false)

module _ {C : Type 0} (crate : PlistCrate C) where
  -- The dictionary in the file, or an empty one; `none` is the error of a file that cannot be read.
  unfoldable pub load : Stored C → Option Entries
  load absent = some end
  load unreadable = none
  load (contents c) = case_option (crate.from_bytes c) (some end) (λ plist. some plist)

  -- The write is tried, and its failure passed over.
  unfoldable pub persist : Bool → Entries → Stored C → Stored C
  persist writable plist file =
      case_option (crate.to_writer_xml plist) file λ c. if writable then contents c else file

  unfoldable pub identify :
      String → String → Bool → Entries → Stored C → (String × String) × Stored C
  identify fresh_host fresh_buid writable plist file =
      let (host_id, plist₁, dirty₁) = ensure "HostID" fresh_host plist in
      let (system_buid, plist₂, dirty₂) = ensure "SystemBUID" fresh_buid plist₁ in
      ((host_id, system_buid), if dirty₁ || dirty₂ then persist writable plist₂ file else file)

  -- `get_host_identity`, with the two UUIDs that it draws if it needs them, and whether the file can be
  -- written.
  unfoldable pub get_host_identity :
      String → String → Bool → Stored C → Option (String × String) × Stored C
  get_host_identity fresh_host fresh_buid writable file =
      case_option (load file) (none, file)
        λ plist.
          let (ids, file') = identify fresh_host fresh_buid writable plist file in (some ids, file')

  -- `get_buid`
  unfoldable pub get_buid : String → String → Bool → Stored C → Option String × Stored C
  get_buid fresh_host fresh_buid writable file =
      let (ids, file') = get_host_identity fresh_host fresh_buid writable file in
      (case_option ids none (λ i. some i.1), file')
