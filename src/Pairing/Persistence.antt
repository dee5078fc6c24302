-- ===== src/Pairing/Persistence.antt =====
-- src/pairing_file.rs, `get_host_identity`: the identity of the host is kept.
use Prim.Native.String.{String}
use text.Mathlib.Text.{◌==◌ as str_eq}
use text.Mathlib.TextPositions.{eq_refl}
use text.Mathlib.TextEquality.{eq_iff}
use netmuxd.Base.{
  ◌≡◌, refl, sym, ◌∙◌, ap, subst, Bool, true, false, ◌||◌, Option, none, some, if◌then◌else◌, arith,
  case_rule, if_rule,
}
use netmuxd.Devices.Plist.{Entries, end, entry, Value, string, find}
use netmuxd.Pairing.Identity.{
  PlistCrate, Stored, as_text, insert_entry, ensure, load, persist, identify, get_host_identity,
}

find-insert : (key : String) (v : Value) (p : Entries) → find key (insert_entry key v p) ≡ some v
unfolding find insert_entry
find-insert key v end = rw (eq_refl key) refl
find-insert key v (entry k w rest) =
    if_rule (λ q. find key q ≡ some v) (str_eq k key) {x = entry k v rest}
      {y = entry k w (insert_entry key v rest)} (λ e. rw (e) refl)
      (λ e. rw (e) (find-insert key v rest))

find-insert_other :
    (key other : String) (v : Value) (p : Entries) (apart : str_eq key other ≡ false)
    → find other (insert_entry key v p) ≡ find other p
unfolding find insert_entry
find-insert_other key other v end apart = rw (apart) refl
find-insert_other key other v (entry k w rest) apart =
    if_rule (λ q. find other q ≡ find other (entry k w rest)) (str_eq k key) {x = entry k v rest}
      {y = entry k w (insert_entry key v rest)}
      (λ e.
        let miss : str_eq k other ≡ false =
          subst (λ l. str_eq l other ≡ false) (sym ((eq_iff k key).0 e)) apart in
        rw (miss) refl)
      (λ e.
        ap (λ r. if str_eq k other then some w else r) (find-insert_other key other v rest apart))

-- The field is there, under this text.
abbrev Says : String → Entries → String → Type 0
Says key p s = as_text (find key p) ≡ some s

-- A field that has been made is there, one that was there stays as it was, and nothing has changed if it
-- was there.
record Ensured (key : String) (p : Entries) (r : String × Entries × Bool) : Type 0 where
  pub says : Says key r.1 r.0
  pub keeps : (other s : String) → str_eq key other ≡ false → Says other p s → Says other r.1 s
  pub clean : r.2 ≡ false → r.1 ≡ p

ensure-Ensured : (key fresh : String) (p : Entries) → Ensured key p (ensure key fresh p)
unfolding ensure
ensure-Ensured key fresh p =
    case_rule (Ensured key p) (as_text (find key p))
      {x = (fresh, insert_entry key (string fresh) p, true)} {f = λ s. (s, p, false)}
      (λ _. record {
        says = rw (find-insert key (string fresh) p) refl;
        keeps = λ other s apart h. rw (find-insert_other key other (string fresh) p apart) h;
        clean = λ e. absurd (cc);
      })
      (λ s e. record { says = e; keeps = λ other t apart h. h; clean = λ _. refl })

ensure-there :
    (key fresh s : String) (p : Entries) → Says key p s → ensure key fresh p ≡ (s, p, false)
unfolding ensure
ensure-there key fresh s p h = rw (h) refl

-- Both fields are there.
Settled : Entries → String → String → Type 0
Settled p host buid = Says "HostID" p host × Says "SystemBUID" p buid

module _ {C : Type 0} (crate : PlistCrate C) where
  identify-Settled :
      (host buid h b : String) (w : Bool) (p : Entries) (file : Stored C)
      (settled : Settled p host buid)
      → identify crate h b w p file ≡ ((host, buid), file)
  unfolding identify Settled
  identify-Settled host buid h b w p file (has_host, has_buid) =
      rw (ensure-there "HostID" h host p has_host, ensure-there "SystemBUID" b buid p has_buid) refl

  persisted :
      (q : Entries) (file : Stored C)
      (written : (c : C) × (crate.to_writer_xml q ≡ some c) × (crate.from_bytes c ≡ some q))
      → load crate (persist crate true q file) ≡ some q
  unfolding load persist
  persisted q file (c, prints, parses) = rw (prints, parses) refl

  left_clean : (d e : Bool) → d || e ≡ false → d ≡ false
  left_clean d e h = ground (arith, h)

  right_clean : (d e : Bool) → d || e ≡ false → e ≡ false
  right_clean d e h = ground (arith, h)

  -- What is read is settled, or has been written settled.
  identify-settles :
      (h b : String) (p : Entries) (file : Stored C) (loads : load crate file ≡ some p)
      (writes : (q : Entries)
        → (c : C) × (crate.to_writer_xml q ≡ some c) × (crate.from_bytes c ≡ some q))
      → let r = identify crate h b true p file in
        (q : Entries) × (load crate r.1 ≡ some q) × Settled q r.0.0 r.0.1
  unfolding identify Settled
  identify-settles h b p file loads writes =
      let e₁ = ensure-Ensured "HostID" h p in
      let p₁ = (ensure "HostID" h p).1 in
      let e₂ = ensure-Ensured "SystemBUID" b p₁ in
      let p₂ = (ensure "SystemBUID" b p₁).1 in
      let d₁ = (ensure "HostID" h p).2 in
      let d₂ = (ensure "SystemBUID" b p₁).2 in
      (
        p₂,
        if_rule (λ f. load crate f ≡ some p₂) (d₁ || d₂) {x = persist crate true p₂ file} {y = file}
            (λ _. persisted p₂ file (writes p₂))
            (λ e.
              loads
              ∙ ap some (sym (e₂.clean (right_clean d₁ d₂ e) ∙ e₁.clean (left_clean d₁ d₂ e)))),
        (e₂.keeps "HostID" (ensure "HostID" h p).0 refl e₁.says, e₂.says),
      )

-- The identity that is given out stands in the file.
abbrev Stands : {C : Type 0} → PlistCrate C → Option (String × String) × Stored C → Type 0
Stands crate (none, file) = Unit {0}
Stands crate (some ids, file) = (q : Entries) × (load crate file ≡ some q) × Settled q ids.0 ids.1

given-Stands :
    {C : Type 0} (crate : PlistCrate C) (h b : String) (file : Stored C)
    (writes : (q : Entries)
      → (c : C) × (crate.to_writer_xml q ≡ some c) × (crate.from_bytes c ≡ some q))
    → Stands crate (get_host_identity crate h b true file)
unfolding get_host_identity
given-Stands crate h b file writes =
    let next = λ (p : Entries). identify crate h b true p file in
    case_rule (Stands crate) (load crate file) {x = (none, file)}
      {f = λ p. (some (next p).0, (next p).1)} (λ _. tt)
      (λ p e. identify-settles crate h b p file e writes)

get_host_identity_again :
    {C : Type 0} (crate : PlistCrate C) (ids : String × String) (file : Stored C)
    (stands : Stands crate (some ids, file)) (h b : String) (w : Bool)
    → get_host_identity crate h b w file ≡ (some ids, file)
unfolding get_host_identity
get_host_identity_again crate ids file (q, loads, settled) h b w =
    rw (loads, identify-Settled crate ids.0 ids.1 h b w q file settled) refl

-- An identity that has been given out is given out again, if the file could be written and the XML that
-- the crate writes is read back: whatever the file was, whichever UUIDs would be drawn, and whether it
-- can be written the next time or not; and the file is left as it is.
pub identity-persists :
    {C : Type 0} (crate : PlistCrate C) (h b : String) (file : Stored C)
    (writes : (q : Entries)
      → (c : C) × (crate.to_writer_xml q ≡ some c) × (crate.from_bytes c ≡ some q))
    (ids : String × String) (file' : Stored C)
    (given : get_host_identity crate h b true file ≡ (some ids, file')) (h' b' : String) (w : Bool)
    → get_host_identity crate h' b' w file' ≡ (some ids, file')
identity-persists crate h b file writes ids file' given h' b' w =
    get_host_identity_again crate ids file'
      (subst (Stands crate) given (given-Stands crate h b file writes)) h' b' w
