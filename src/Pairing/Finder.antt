-- ===== src/Pairing/Finder.antt =====
-- src/pairing_file.rs, `PairingFileFinder`: the index of the pairing records in the storage.
use Prim.Native.String.{String}
use text.Mathlib.Text.{◌==◌ as str_eq}
use netmuxd.Base.{
  ℕ, Bool, true, false, ◌||◌, List, [], ◌∷◌, ◌++◌, is_empty, Option, none, some, case_option,
  if◌then◌else◌, ◌==◌,
}
use netmuxd.Devices.Plist.{Entries, find}
use netmuxd.Pairing.Identity.{as_text}

-- What the finder calls that is not its own code: `plist::from_bytes`, `decode_auth_tag` and
-- `derive_auth_tag` of idevice; `file_stem`, the name in front of its first dot, and the bytes of a text.
pub record FinderCrates : Type 0 where
  pub from_bytes : List ℕ → Option Entries
  pub decode_auth_tag : List ℕ → Option (List ℕ)
  pub derive_auth_tag : List ℕ → List ℕ → List ℕ
  pub file_stem : String → Option String
  pub first_part : String → Option String
  pub text_bytes : String → List ℕ

-- An entry of the storage: one that cannot be read, one that is no file, or a file with its name and,
-- if it can be opened and read, its contents.
pub data DirEntry : Type 0 where
  bad_entry no_file : DirEntry
  file : String → Option (List ℕ) → DirEntry

pub record Finder : Type 0 where
  pub known_mac_addresses : List (String × String)
  pub host_ids : List (String × List ℕ)
  pub paired_udids : List String

abbrev pub new_finder : Finder
new_finder = record { known_mac_addresses = []; host_ids = []; paired_udids = [] }

-- A hash map with texts for keys; the order of the list stands for the order of an iteration.
module _ {ℓ} {V : Type ℓ} where
  unfoldable pub lookup : String → List (String × V) → Option V
  lookup key [] = none
  lookup key ((k, v) ∷ m) = if str_eq k key then some v else lookup key m

  unfoldable pub insert_text : String → V → List (String × V) → List (String × V)
  insert_text key v [] = (key, v) ∷ []
  insert_text key v ((k, w) ∷ m) = if str_eq k key then (k, v) ∷ m else (k, w) ∷ insert_text key v m

unfoldable pub contains_text : String → List String → Bool
contains_text key [] = false
contains_text key (k ∷ ks) = str_eq k key || contains_text key ks

unfoldable pub same_bytes : List ℕ → List ℕ → Bool
same_bytes [] [] = true
same_bytes [] (b ∷ bs) = false
same_bytes (a ∷ rest) [] = false
same_bytes (a ∷ rest) (b ∷ bs) = if a == b then same_bytes rest bs else false

unfoldable pub contains_tag : List ℕ → List (List ℕ) → Bool
contains_tag tag [] = false
contains_tag tag (t ∷ ts) = same_bytes t tag || contains_tag tag ts

module _ (c : FinderCrates) where
  abbrev pub index_mac : String → Entries → Finder → Finder
  index_mac stem plist f =
      case_option (as_text (find "WiFiMACAddress" plist)) f
        λ mac. record f { known_mac_addresses = insert_text mac stem f.known_mac_addresses }

  abbrev pub index_host_id : String → Entries → Finder → Finder
  index_host_id stem plist f =
      case_option (as_text (find "HostID" plist)) f
        λ host_id. record f { host_ids = insert_text stem (c.text_bytes host_id) f.host_ids }

  unfoldable pub push_udid : String → Finder → Finder
  push_udid udid f =
      if contains_text udid f.paired_udids
      then f
      else record f { paired_udids = f.paired_udids ++ udid ∷ [] }

  abbrev pub udid_of : String → Entries → Option String
  udid_of name plist = case_option (as_text (find "UDID" plist)) (c.first_part name) λ u. some u

  unfoldable pub index_plist : String → Entries → Finder → Finder
  index_plist name plist f = case_option (udid_of name plist) f λ udid.
      case_option (c.file_stem name) f
        λ stem. push_udid udid (index_host_id stem plist (index_mac stem plist f))

  unfoldable pub index_entry : DirEntry → Finder → Finder
  index_entry bad_entry f = f
  index_entry no_file f = f
  index_entry (file name none) f = f
  index_entry (file name (some bytes)) f =
      case_option (c.from_bytes bytes) f λ plist. index_plist name plist f

  unfoldable pub index_all : List DirEntry → Finder → Finder
  index_all [] f = f
  index_all (e ∷ es) f = index_all es (index_entry e f)

  -- `update_cache`, over the storage; `none` is a panic where that cannot be read.
  unfoldable pub update_cache : Option (List DirEntry) → Finder → Option Finder
  update_cache storage f = case_option storage none λ es. some (index_all es f)

  -- `get_udid_from_mac`, with the finder that it leaves; a storage is read if the index does not help.
  unfoldable pub get_udid_from_mac :
      Option (List DirEntry) → String → Finder → Option (Option String × Finder)
  get_udid_from_mac storage mac f =
      case_option (lookup mac f.known_mac_addresses)
        (case_option (update_cache storage f) none
          λ f'. some (lookup mac f'.known_mac_addresses, f'))
        λ udid. some (some udid, f)

  unfoldable pub match_ids : List ℕ → List (List ℕ) → List (String × List ℕ) → Option String
  match_ids identifier tags [] = none
  match_ids identifier tags ((udid, host_id) ∷ rest) =
      if contains_tag (c.derive_auth_tag host_id identifier) tags
      then some udid
      else match_ids identifier tags rest

  unfoldable pub match_txt : List ℕ → List (List ℕ) → Finder → Option String
  match_txt identifier tags f = match_ids identifier tags f.host_ids

  -- `filter_map(decode_auth_tag)`
  unfoldable pub decode_tags : List (List ℕ) → List (List ℕ)
  decode_tags [] = []
  decode_tags (t ∷ ts) = case_option (c.decode_auth_tag t) (decode_tags ts) λ d. d ∷ decode_tags ts

  -- The lookup once there are decoded tags.
  unfoldable pub find_by_tags :
      Option (List DirEntry) → List ℕ → List (List ℕ) → Finder → Option (Option String × Finder)
  find_by_tags storage identifier tags f =
      case_option (match_txt identifier tags f)
        (case_option (update_cache storage f) none λ f'. some (match_txt identifier tags f', f'))
        λ udid. some (some udid, f)

  -- `find_udid_from_txt`
  unfoldable pub find_udid_from_txt :
      Option (List DirEntry) → List ℕ → List (List ℕ) → Finder → Option (Option String × Finder)
  find_udid_from_txt storage identifier auth_tags f =
      if is_empty (decode_tags auth_tags)
      then some (none, f)
      else find_by_tags storage identifier (decode_tags auth_tags) f
