-- ===== src/Apple/Attempts.antt =====
-- src/usb/apple.rs, `open_mux_with_progress`: how often the device is reset and its interface claimed.
use netmuxd.Base.{
  ℕ, zero, suc, ◌+◌, ◌/◌, ◌%◌, ◌≤◌, ◌<◌, ◌≡◌, refl, sym, subst, Bool, true, false, ◌&&◌, List, [],
  ◌∷◌, ◌++◌, length, get_or, Option, none, some, if◌then◌else◌, leb, ltb, ◌==◌, Result, ok, err,
  arith, if_rule, ◌⊎◌, inl, inr,
}
use netmuxd.Apple.Descriptors.{MuxTarget, is_active}
use netmuxd.Apple.Open.{
  OpenMuxError, reset_failed, set_configuration_failed, claim_interface_failed, claim_bulk_in,
  claim_bulk_out, Action, pause, reset, set_configuration, claim, Try, Attempt, claimed, failed,
  fatal, claim_target, after, bounce, switch_and_claim, burst_pause, reset_and_claim, one_attempt,
  go_on,
}

abbrev pub resets : List Action → ℕ
resets [] = 0
resets (pause ∷ acts) = resets acts
resets (reset ∷ acts) = suc (resets acts)
resets (set_configuration v ∷ acts) = resets acts
resets (claim i ∷ acts) = resets acts

abbrev pub claims : List Action → ℕ
claims [] = 0
claims (pause ∷ acts) = claims acts
claims (reset ∷ acts) = claims acts
claims (set_configuration v ∷ acts) = claims acts
claims (claim i ∷ acts) = suc (claims acts)

resets-append : (xs ys : List Action) → resets (xs ++ ys) ≡ resets xs + resets ys
resets-append [] ys = omega arith
resets-append (pause ∷ xs) ys = resets-append xs ys
resets-append (reset ∷ xs) ys = omega (arith, resets-append xs ys)
resets-append (set_configuration v ∷ xs) ys = resets-append xs ys
resets-append (claim i ∷ xs) ys = resets-append xs ys

claims-append : (xs ys : List Action) → claims (xs ++ ys) ≡ claims xs + claims ys
claims-append [] ys = omega arith
claims-append (pause ∷ xs) ys = claims-append xs ys
claims-append (reset ∷ xs) ys = claims-append xs ys
claims-append (set_configuration v ∷ xs) ys = claims-append xs ys
claims-append (claim i ∷ xs) ys = omega (arith, claims-append xs ys)

-- What an attempt at a target has done, with so many resets at most: it claims one interface at most,
-- and if it ends well, then it is that target's.
abbrev pub Spends : ℕ → MuxTarget → List Action × Attempt → Type 0
Spends r t (acts, claimed u) = (resets acts ≤ r) × (claims acts ≤ 1) × (u ≡ t)
Spends r t (acts, failed e) = (resets acts ≤ r) × (claims acts ≤ 1)
Spends r t (acts, fatal e) = (resets acts ≤ r) × (claims acts ≤ 1)

after-Spends :
    (r s : ℕ) (t : MuxTarget) (acts : List Action) (o : List Action × Attempt)
    (few : resets acts + s ≤ r) (quiet : claims acts ≡ 0)
    → Spends s t o
    → Spends r t (after acts o)
after-Spends r s t acts (more, claimed u) few quiet (a, b, c) =
    (omega (arith, resets-append acts more), omega (arith, claims-append acts more), c)
after-Spends r s t acts (more, failed e) few quiet (a, b) =
    (omega (arith, resets-append acts more), omega (arith, claims-append acts more))
after-Spends r s t acts (more, fatal e) few quiet (a, b) =
    (omega (arith, resets-append acts more), omega (arith, claims-append acts more))

claim_target-Spends : (t : MuxTarget) (n : ℕ) (w : Try) → Spends 0 t (claim_target t n w)
unfolding claim_target
claim_target-Spends t n w =
    let acts = claim t.interface_number ∷ [] in
    if_rule (Spends 0 t) w.claims
      {x = (
        acts,
        if w.has_in
            then (if w.has_out then claimed t else fatal (claim_bulk_out t.ep_out))
            else fatal (claim_bulk_in t.ep_in),
      )}
      {y = (acts, failed (claim_interface_failed t.interface_number n))}
      (λ _.
        if_rule (λ a. Spends 0 t (acts, a)) w.has_in
          {x = if w.has_out then claimed t else fatal (claim_bulk_out t.ep_out)}
          {y = fatal (claim_bulk_in t.ep_in)}
          (λ _.
            if_rule (λ a. Spends 0 t (acts, a)) w.has_out {x = claimed t}
              {y = fatal (claim_bulk_out t.ep_out)} (λ _. (omega arith, omega arith, refl))
              (λ _. (omega arith, omega arith)))
          (λ _. (omega arith, omega arith)))
      (λ _. (omega arith, omega arith))

bounce-quiet :
    (no_mux : Option ℕ) (n v : ℕ)
    → (resets (bounce no_mux n ++ set_configuration v ∷ []) ≡ 0)
      × (claims (bounce no_mux n ++ set_configuration v ∷ []) ≡ 0)
bounce-quiet none n v = (refl, refl)
bounce-quiet (some u) zero v = (refl, refl)
bounce-quiet (some u) (suc n) v = (refl, refl)

switch_and_claim-Spends :
    (no_mux : Option ℕ) (t : MuxTarget) (n : ℕ) (w : Try)
    → Spends 0 t (switch_and_claim no_mux t n w)
unfolding switch_and_claim
switch_and_claim-Spends no_mux t n w =
    let acts = bounce no_mux n ++ set_configuration t.config_value ∷ [] in
    let (quiet, none_claimed) = bounce-quiet no_mux n t.config_value in
    let stop : List Action × Attempt = ([], failed (set_configuration_failed t.config_value n)) in
    let rest = if w.switches then claim_target t n w else stop in
    if_rule (Spends 0 t) (is_active w.active t) {x = claim_target t n w} {y = after acts rest}
      (λ _. claim_target-Spends t n w)
      (λ _. after-Spends 0 0 t acts rest (omega (arith, quiet)) none_claimed (
        if_rule (Spends 0 t) w.switches {x = claim_target t n w} {y = stop}
          (λ _. claim_target-Spends t n w) (λ _. (omega arith, omega arith))))

pause-quiet : (n : ℕ) → (resets (burst_pause n) ≡ 0) × (claims (burst_pause n) ≡ 0)
pause-quiet n =
    if_rule (λ acts. (resets acts ≡ 0) × (claims acts ≡ 0)) (ltb 0 n && (n % 10 == 0))
      {x = pause ∷ []} {y = []} (λ _. (refl, refl)) (λ _. (refl, refl))

-- One reset is allowed from the second half of the attempts on.
abbrev pub allowed : Bool → ℕ
allowed true = 1
allowed false = 0

reset_and_claim-Spends :
    (use_reset : Bool) (no_mux : Option ℕ) (t : MuxTarget) (n : ℕ) (w : Try)
    → Spends (allowed use_reset) t (reset_and_claim use_reset no_mux t n w)
unfolding reset_and_claim
reset_and_claim-Spends false no_mux t n w = switch_and_claim-Spends no_mux t n w
reset_and_claim-Spends true no_mux t n w =
    let stop : List Action × Attempt = ([], failed (reset_failed n)) in
    after-Spends 1 0 t (reset ∷ []) (if w.resets then switch_and_claim no_mux t n w else stop)
      (omega arith) refl
      (if_rule (Spends 0 t) w.resets {x = switch_and_claim no_mux t n w} {y = stop}
        (λ _. switch_and_claim-Spends no_mux t n w) (λ _. (omega arith, omega arith)))

-- The target of an attempt.
abbrev pub turn : List MuxTarget → MuxTarget → ℕ → MuxTarget
turn candidates t₀ n = get_or candidates (n % length candidates) t₀

pub one_attempt-Spends :
    (attempts : ℕ) (no_mux : Option ℕ) (candidates : List MuxTarget) (t₀ : MuxTarget) (n : ℕ)
    (w : Try)
    → Spends
        (allowed (leb ((attempts + 1) / 2) n))
        (turn candidates t₀ n)
        (one_attempt attempts no_mux candidates t₀ n w)
unfolding one_attempt
one_attempt-Spends attempts no_mux candidates t₀ n w =
    let b = leb ((attempts + 1) / 2) n in
    let t = turn candidates t₀ n in
    let (quiet, none_claimed) = pause-quiet n in
    after-Spends (allowed b) (allowed b) t (burst_pause n) (reset_and_claim b no_mux t n w)
      (omega (arith, quiet)) none_claimed (reset_and_claim-Spends b no_mux t n w)

-- The target is one of the candidates.
abbrev pub IsCandidate : MuxTarget → List MuxTarget → Type 0
IsCandidate t [] = ⊥
IsCandidate t (u ∷ us) = (t ≡ u) ⊎ IsCandidate t us

-- What a run with so many attempts to go, so many of them with a reset, has done at most.
abbrev pub Ends : ℕ → ℕ → List MuxTarget → List Action × Result OpenMuxError MuxTarget → Type 0
Ends r c candidates (acts, ok t) = (resets acts ≤ r) × (claims acts ≤ c) × IsCandidate t candidates
Ends r c candidates (acts, err e) = (resets acts ≤ r) × (claims acts ≤ c)

pub get_or-IsCandidate :
    (ts : List MuxTarget) (i : ℕ) (t : MuxTarget) (inside : i < length ts)
    → IsCandidate (get_or ts i t) ts
get_or-IsCandidate [] i t inside = absurd (omega (arith, inside))
get_or-IsCandidate (u ∷ us) zero t inside = inl refl
get_or-IsCandidate (u ∷ us) (suc i) t inside =
    inr (get_or-IsCandidate us i t (omega (arith, inside)))

pub go_on-Ends :
    (a r c : ℕ) (t : MuxTarget) (candidates : List MuxTarget) (among : IsCandidate t candidates)
    (next : OpenMuxError → List Action × Result OpenMuxError MuxTarget) (o : List Action × Attempt)
    (now : Spends a t o) (later : (e : OpenMuxError) → Ends r c candidates (next e))
    → Ends (a + r) (suc c) candidates (go_on next o)
go_on-Ends a r c t candidates among next (acts, claimed u) now later = (
  omega (arith, now.0),
  omega (arith, now.1),
  subst (λ v. IsCandidate v candidates) (sym now.2) among,
)
go_on-Ends a r c t candidates among next (acts, fatal e) now later =
    (omega (arith, now.0), omega (arith, now.1))
go_on-Ends a r c t candidates among next (acts, failed e) now later = joined (next e) (later e)
  where
    joined :
        (o : List Action × Result OpenMuxError MuxTarget)
        → Ends r c candidates o
        → Ends (a + r) (suc c) candidates (acts ++ o.0, o.1)
    joined (more, ok t') h = (
      omega (arith, resets-append acts more, h.0, now.0),
      omega (arith, claims-append acts more, h.1, now.1),
      h.2,
    )
    joined (more, err e') h = (
      omega (arith, resets-append acts more, h.0, now.0),
      omega (arith, claims-append acts more, h.1, now.1),
    )
