-- ===== src/Pairing/Matching.antt =====
-- src/pairing_file.rs, `find_udid_from_txt`: which device a Bonjour record is taken for.
use Prim.Native.String.{String}
use text.Mathlib.Text.{◌==◌ as str_eq}
use text.Mathlib.TextEquality.{eq_iff}
use netmuxd.Base.{
  ℕ, ◌≡◌, refl, sym, subst, List, [], ◌∷◌, ◌++◌, none, some, case_option, case_rule, if_rule, All,
  ◌⊎◌,
}
use netmuxd.Devices.Plist.{Entries, find}
use netmuxd.Pairing.Identity.{as_text}
use netmuxd.Pairing.Finder.{
  FinderCrates, DirEntry, bad_entry, no_file, file, Finder, insert_text, contains_text, index_mac,
  index_host_id, push_udid, udid_of, index_plist, index_entry, index_all,
}

-- The entry is a file whose stem is the UDID, and it is the record of a host with this id.
pub record IsHostId (c : FinderCrates) (e : DirEntry) (u : String) (h : List ℕ) : Type 0 where
  pub name : String
  pub bytes : List ℕ
  pub plist : Entries
  pub host_id : String
  pub is_file : e ≡ file name (some bytes)
  pub parses : c.from_bytes bytes ≡ some plist
  pub stem : c.file_stem name ≡ some u
  pub says : as_text (find "HostID" plist) ≡ some host_id
  pub same : h ≡ c.text_bytes host_id

-- One of the entries is such a file.
abbrev pub IsIn : FinderCrates → List DirEntry → String × List ℕ → Type 0
IsIn c [] (u, h) = ⊥
IsIn c (e ∷ es) (u, h) = IsHostId c e u h ⊎ IsIn c es (u, h)

module _ (c : FinderCrates) where
  -- What the index of host ids holds, if each file that is read has it.
  abbrev Indexes : (String × List ℕ → Type 0) → DirEntry → Type 0
  Indexes P e = (u : String) (h : List ℕ) → IsHostId c e u h → P (u, h)

  insert_text-All :
      (P : String × List ℕ → Type 0) (u : String) (h : List ℕ) (m : List (String × List ℕ))
      (new : P (u, h)) (old : All P m)
      → All P (insert_text u h m)
  unfolding insert_text
  insert_text-All P u h [] new old = (new, tt)
  insert_text-All P u h ((k, w) ∷ m) new old =
      if_rule (All P) (str_eq k u) {x = (k, h) ∷ m} {y = (k, w) ∷ insert_text u h m}
        (λ e. (subst (λ t. P (t, h)) (sym ((eq_iff k u).0 e)) new, old.1))
        (λ _. (old.0, insert_text-All P u h m new old.1))

  push_udid-host_ids : (udid : String) (f : Finder) → (push_udid c udid f).host_ids ≡ f.host_ids
  unfolding push_udid
  push_udid-host_ids udid f =
      if_rule (λ (g : Finder). g.host_ids ≡ f.host_ids) (contains_text udid f.paired_udids) {x = f}
        {y = record f { paired_udids = f.paired_udids ++ udid ∷ [] }} (λ _. refl) (λ _. refl)

  index_mac-host_ids :
      (stem : String) (plist : Entries) (f : Finder)
      → (index_mac c stem plist f).host_ids ≡ f.host_ids
  index_mac-host_ids stem plist f =
      case_rule (λ (g : Finder). g.host_ids ≡ f.host_ids) (as_text (find "WiFiMACAddress" plist))
        {x = f}
        {f = λ mac. record f { known_mac_addresses = insert_text mac stem f.known_mac_addresses }}
        (λ _. refl) (λ _ _. refl)

  abbrev AllIds : (String × List ℕ → Type 0) → Finder → Type 0
  AllIds P f = All P f.host_ids

  index_host_id-All :
      (P : String × List ℕ → Type 0) (stem : String) (plist : Entries) (f : Finder)
      (new : (s : String) → as_text (find "HostID" plist) ≡ some s → P (stem, c.text_bytes s))
      (old : AllIds P f)
      → AllIds P (index_host_id c stem plist f)
  index_host_id-All P stem plist f new old =
      case_rule (AllIds P) (as_text (find "HostID" plist)) {x = f}
        {f = λ s. record f { host_ids = insert_text stem (c.text_bytes s) f.host_ids }} (λ _. old)
        (λ s e. insert_text-All P stem (c.text_bytes s) f.host_ids (new s e) old)

  index_entry-All :
      (P : String × List ℕ → Type 0) (e : DirEntry) (f : Finder) (new : Indexes P e)
      (old : AllIds P f)
      → AllIds P (index_entry c e f)
  unfolding index_entry index_plist
  index_entry-All P bad_entry f new old = old
  index_entry-All P no_file f new old = old
  index_entry-All P (file name none) f new old = old
  index_entry-All P (file name (some bytes)) f new old =
      case_rule (AllIds P) (c.from_bytes bytes) {x = f} {f = λ plist. index_plist c name plist f}
        (λ _. old)
        (λ plist parses.
          let g = λ (stem : String). index_host_id c stem plist (index_mac c stem plist f) in
          case_rule (AllIds P) (udid_of c name plist) {x = f}
            {f = λ udid. case_option (c.file_stem name) f (λ stem. push_udid c udid (g stem))}
            (λ _. old)
            (λ udid _.
              case_rule (AllIds P) (c.file_stem name) {x = f}
                {f = λ stem. push_udid c udid (g stem)} (λ _. old)
                (λ stem e. subst (All P) (sym (push_udid-host_ids udid (g stem))) (
                  index_host_id-All P stem plist (index_mac c stem plist f)
                    (λ s says. new stem (c.text_bytes s) (record {
                      name = name;
                      bytes = bytes;
                      plist = plist;
                      host_id = s;
                      is_file = refl;
                      parses = parses;
                      stem = e;
                      says = says;
                      same = refl;
                    }))
                    (subst (All P) (sym (index_mac-host_ids stem plist f)) old)))))

  pub index_all-All :
      (P : String × List ℕ → Type 0) (es : List DirEntry) (f : Finder) (new : All (Indexes P) es)
      (old : AllIds P f)
      → AllIds P (index_all c es f)
  unfolding index_all
  index_all-All P [] f new old = old
  index_all-All P (e ∷ es) f new old =
      index_all-All P es (index_entry c e f) new.1 (index_entry-All P e f new.0 old)
