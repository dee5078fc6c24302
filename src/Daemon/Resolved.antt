-- ===== src/Daemon/Resolved.antt =====
-- src/daemon/mod.rs and src/mdns.rs: the spelling of a UDID, and the address of a service.
use Prim.Native.String.{String}
use netmuxd.Base.{
  ◌≡◌, refl, subst, Bool, true, false, List, [], ◌∷◌, Option, none, some, case_rule, if_rule, ◌⊎◌,
  inl, inr, All,
}
use netmuxd.Devices.Sockaddr.{IpAddr}
use netmuxd.Daemon.Udid.{is_undashed, dashed}
use netmuxd.Daemon.Mdns.{is_ipv4, find_ipv4, first_address, pick_address}

-- The UDID has a record, and is the serial number as it is or with its dash; or neither has one.
abbrev pub IsPaired : (String → Bool) → String → Option String → Type 0
IsPaired has_record raw none =
    (has_record raw ≡ false) × ((is_undashed raw ≡ false) ⊎ (has_record (dashed raw) ≡ false))
IsPaired has_record raw (some udid) =
    (has_record udid ≡ true)
    × ((udid ≡ raw) ⊎ ((is_undashed raw ≡ true) × (udid ≡ dashed raw) × (has_record raw ≡ false)))

-- An IPv4 address of the service, or, if it has none, any.
abbrev pub Prefers : List IpAddr → IpAddr → Type 0
Prefers addresses a = (is_ipv4 a ≡ true) ⊎ All (λ b. is_ipv4 b ≡ false) addresses

-- The address is one of the list.
abbrev pub IsAmong : IpAddr → List IpAddr → Type 0
IsAmong a [] = ⊥
IsAmong a (b ∷ rest) = (a ≡ b) ⊎ IsAmong a rest

abbrev pub IsPicked : List IpAddr → Option IpAddr → Type 0
IsPicked addresses none = addresses ≡ []
IsPicked addresses (some a) = IsAmong a addresses × Prefers addresses a

abbrev Finds : List IpAddr → Option IpAddr → Type 0
Finds addresses none = All (λ b. is_ipv4 b ≡ false) addresses
Finds addresses (some a) = IsAmong a addresses × (is_ipv4 a ≡ true)

later :
    (b : IpAddr) (rest : List IpAddr) (o : Option IpAddr) (miss : is_ipv4 b ≡ false)
    → Finds rest o
    → Finds (b ∷ rest) o
later b rest none miss h = (miss, h)
later b rest (some a) miss h = (inr h.0, h.1)

find_ipv4-Finds : (addresses : List IpAddr) → Finds addresses (find_ipv4 addresses)
unfolding find_ipv4
find_ipv4-Finds [] = tt
find_ipv4-Finds (a ∷ rest) =
    if_rule (Finds (a ∷ rest)) (is_ipv4 a) {x = some a} {y = find_ipv4 rest} (λ e. (inl refl, e))
      (λ e. later a rest (find_ipv4 rest) e (find_ipv4-Finds rest))

first-IsPicked :
    (addresses : List IpAddr) (none_v4 : All (λ b. is_ipv4 b ≡ false) addresses)
    → IsPicked addresses (first_address addresses)
first-IsPicked [] none_v4 = refl
first-IsPicked (a ∷ rest) none_v4 = (inl refl, inr none_v4)

pub pick_address-IsPicked : (addresses : List IpAddr) → IsPicked addresses (pick_address addresses)
unfolding pick_address
pick_address-IsPicked addresses =
    case_rule (IsPicked addresses) (find_ipv4 addresses) {x = first_address addresses}
      {f = λ a. some a}
      (λ e. first-IsPicked addresses (subst (Finds addresses) e (find_ipv4-Finds addresses)))
      (λ a e. let h = subst (Finds addresses) e (find_ipv4-Finds addresses) in (h.0, inl h.1))
