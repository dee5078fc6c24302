-- ===== src/Apple/Budget.antt =====
-- src/usb/apple.rs, `open_mux_with_progress`: the bounds of a whole run.
use netmuxd.Base.{
  ℕ, zero, suc, ◌+◌, ◌-◌, ◌/◌, ◌%◌, ◌≤◌, max, ◌≡◌, refl, Bool, true, false, List, [], ◌∷◌, length,
  Option, if◌then◌else◌, leb, Result, ok, err, arith, if_rule, leb→le,
}
use native.Mathlib.Nat.{mod-lt}
use netmuxd.Apple.Descriptors.{
  MuxTarget, DeviceConfig, is_apple_mux, collect_mux_candidates, find_no_mux_config,
}
use netmuxd.Apple.Open.{
  OpenMuxError, not_apple_mux, open_failed, no_mux_interface, Action, Try, one_attempt,
  attempt_loop, try_candidates, open_mux_with_progress,
}
use netmuxd.Apple.Attempts.{allowed, turn, one_attempt-Spends, Ends, get_or-IsCandidate, go_on-Ends}

-- The resets that the attempts from `n` on may make.
abbrev budget : ℕ → ℕ → ℕ → ℕ
budget threshold zero n = 0
budget threshold (suc left) n = allowed (leb threshold n) + budget threshold left (n + 1)

-- No more than there are attempts, and none before the threshold.
abbrev IsWithin : ℕ → ℕ → ℕ → ℕ → Type 0
IsWithin threshold left n b = (b ≤ left) × (b ≤ (n + left) - threshold)

one_more :
    (c : Bool) (threshold left n b : ℕ) (e : leb threshold n ≡ c)
    (h : IsWithin threshold left (n + 1) b)
    → IsWithin threshold (suc left) n (allowed c + b)
one_more true threshold left n b e h =
    let low = leb→le threshold n e in (omega (arith, h.0), omega (arith, h.0, low))
one_more false threshold left n b e h = (omega (arith, h.0), omega (arith, h.1))

budget-IsWithin : (threshold left n : ℕ) → IsWithin threshold left n (budget threshold left n)
budget-IsWithin threshold zero n = (omega arith, omega arith)
budget-IsWithin threshold (suc left) n =
    one_more (leb threshold n) threshold left n (budget threshold left (n + 1)) refl
      (budget-IsWithin threshold left (n + 1))

attempt_loop-Ends :
    (attempts : ℕ) (no_mux : Option ℕ) (t₀ : MuxTarget) (ts : List MuxTarget) (tries : ℕ → Try)
    (last : OpenMuxError) (left n : ℕ)
    → Ends
        (budget ((attempts + 1) / 2) left n)
        left
        (t₀ ∷ ts)
        (attempt_loop attempts no_mux (t₀ ∷ ts) t₀ tries last left n)
unfolding attempt_loop
attempt_loop-Ends attempts no_mux t₀ ts tries last zero n = (omega arith, omega arith)
attempt_loop-Ends attempts no_mux t₀ ts tries last (suc left) n =
    let all = t₀ ∷ ts in
    go_on-Ends (allowed (leb ((attempts + 1) / 2) n)) (budget ((attempts + 1) / 2) left (n + 1))
      left (turn all t₀ n) all (get_or-IsCandidate all (n % length all) t₀ (mod-lt n (omega arith)))
      (λ e. attempt_loop attempts no_mux all t₀ tries e left (n + 1))
      (one_attempt attempts no_mux all t₀ n (tries n))
      (one_attempt-Spends attempts no_mux all t₀ n (tries n))
      (λ e. attempt_loop-Ends attempts no_mux t₀ ts tries e left (n + 1))

fewer-Ends :
    (r r' c : ℕ) (ts : List MuxTarget) (o : List Action × Result OpenMuxError MuxTarget)
    (le : r ≤ r')
    → Ends r c ts o
    → Ends r' c ts o
fewer-Ends r r' c ts (acts, ok t) le h = (omega (arith, h.0), h.1, h.2)
fewer-Ends r r' c ts (acts, err e) le h = (omega (arith, h.0), h.1)

try_candidates-Ends :
    (attempts : ℕ) (no_mux : Option ℕ) (ts : List MuxTarget) (tries : ℕ → Try)
    → Ends (attempts / 2) attempts ts (try_candidates attempts no_mux ts tries)
try_candidates-Ends attempts no_mux [] tries = (omega arith, omega arith)
try_candidates-Ends attempts no_mux (t ∷ ts) tries =
    fewer-Ends (budget ((attempts + 1) / 2) attempts 0) (attempts / 2) attempts (t ∷ ts)
      (attempt_loop attempts no_mux (t ∷ ts) t tries no_mux_interface attempts 0)
      (omega (arith, (budget-IsWithin ((attempts + 1) / 2) attempts 0).1))
      (attempt_loop-Ends attempts no_mux t ts tries no_mux_interface attempts 0)

-- Whatever an attempt meets, the loop ends, after as many attempts as the caller allows and one at
-- least: it claims an interface no more often than that, and resets the device in at most half of them;
-- and a mux that is opened is one of the candidates that the descriptors name.
pub open_mux-Ends :
    (vid pid : ℕ) (opens : Bool) (active : Option ℕ) (cs : List DeviceConfig) (max_attempts : ℕ)
    (tries : ℕ → Try)
    → Ends
        (max max_attempts 1 / 2)
        (max max_attempts 1)
        (collect_mux_candidates active cs)
        (open_mux_with_progress vid pid opens active cs max_attempts tries)
unfolding open_mux_with_progress
open_mux-Ends vid pid opens active cs max_attempts tries =
    let ts = collect_mux_candidates active cs in
    let n = max max_attempts 1 in
    let Q = Ends (n / 2) n ts in
    let run = try_candidates n (find_no_mux_config cs ts) ts tries in
    if_rule Q (is_apple_mux vid pid) {x = if opens then run else ([], err open_failed)}
      {y = ([], err (not_apple_mux vid pid))}
      (λ _.
        if_rule Q opens {x = run} {y = ([], err open_failed)}
          (λ _. try_candidates-Ends n (find_no_mux_config cs ts) ts tries)
          (λ _. (omega arith, omega arith)))
      (λ _. (omega arith, omega arith))
