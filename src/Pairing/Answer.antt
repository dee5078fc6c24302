-- ===== src/Pairing/Answer.antt =====
-- src/pairing_file.rs, `find_udid_from_txt`: what its answer says.
use Prim.Native.String.{String}
use netmuxd.Base.{ℕ, ◌≡◌, true, false, List, [], Option, none, some, All, ◌⊎◌}
use netmuxd.Pairing.Finder.{FinderCrates, DirEntry, Finder, contains_tag}
use netmuxd.Pairing.Matching.{IsIn}

-- The tag that the host id gives for the identifier is one of the tags.
abbrev pub Fits : FinderCrates → List ℕ → List (List ℕ) → String × List ℕ → Type 0
Fits c identifier tags (u, h) = contains_tag (c.derive_auth_tag h identifier) tags ≡ true

abbrev pub Misses : FinderCrates → List ℕ → List (List ℕ) → String × List ℕ → Type 0
Misses c identifier tags (u, h) = contains_tag (c.derive_auth_tag h identifier) tags ≡ false

module _ (c : FinderCrates) (identifier : List ℕ) (tags : List (List ℕ)) where
  -- The first that fits, or none does.
  abbrev Picks : (String × List ℕ → Type 0) → List (String × List ℕ) → Option String → Type 0
  Picks P m none = All (Misses c identifier tags) m
  Picks P m (some u) = (h : List ℕ) × P (u, h) × Fits c identifier tags (u, h)

-- Each host id in the index is from one of the files.
abbrev pub IsBacked : FinderCrates → List DirEntry → Finder → Type 0
IsBacked c seen f = All (IsIn c seen) f.host_ids

-- What comes back: a UDID comes from a file with this stem, whose host id gives one of the tags for the
-- identifier; no UDID means that no tag can be decoded, or that no host id in the index gives one of them.
abbrev pub Answers :
    FinderCrates → List ℕ → List (List ℕ) → List DirEntry → Option (Option String × Finder) → Type 0
Answers c identifier tags seen none = ⊥
Answers c identifier tags seen (some (some u, f)) =
    IsBacked c seen f × ((h : List ℕ) × IsIn c seen (u, h) × Fits c identifier tags (u, h))
Answers c identifier tags seen (some (none, f)) =
    IsBacked c seen f × ((tags ≡ []) ⊎ All (Misses c identifier tags) f.host_ids)
