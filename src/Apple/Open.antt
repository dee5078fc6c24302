-- ===== src/Apple/Open.antt =====
-- src/usb/apple.rs, `open_mux_with_progress`: the attempts to claim the mux interface.
use netmuxd.Base.{
  ℕ, zero, suc, ◌+◌, ◌/◌, ◌%◌, max, Bool, ◌&&◌, List, [], ◌∷◌, ◌++◌, length, get_or, Option, none,
  some, if◌then◌else◌, ◌==◌, ltb, leb, Result, ok, err,
}
use netmuxd.Apple.Descriptors.{
  MuxTarget, DeviceConfig, is_active, is_apple_mux, collect_mux_candidates, find_no_mux_config,
}

pub data OpenMuxError : Type 0 where
  not_apple_mux : ℕ → ℕ → OpenMuxError
  open_failed no_mux_interface : OpenMuxError
  reset_failed : ℕ → OpenMuxError
  set_configuration_failed claim_interface_failed : ℕ → ℕ → OpenMuxError
  claim_bulk_in claim_bulk_out : ℕ → OpenMuxError

-- What is asked of the device, in order; `pause` is the sleep of a second between bursts.
pub data Action : Type 0 where
  pause reset : Action
  set_configuration : ℕ → Action
  claim : ℕ → Action

-- What one attempt meets: whether a reset works, the active configuration as it is read, whether the
-- switch to the target's configuration works, and the claims of the interface and of its endpoints.
pub record Try : Type 0 where
  pub resets : Bool
  pub active : Option ℕ
  pub switches : Bool
  pub claims : Bool
  pub has_in : Bool
  pub has_out : Bool

-- An attempt has claimed the target, has failed so that the next one follows, or has failed for good.
pub data Attempt : Type 0 where
  claimed : MuxTarget → Attempt
  failed fatal : OpenMuxError → Attempt

-- DEFAULT_CLAIM_ATTEMPTS, CLAIM_BURST_SIZE
abbrev pub default_claim_attempts : ℕ
default_claim_attempts = 100

abbrev pub claim_burst_size : ℕ
claim_burst_size = 10

-- The claim of the interface, and of its two endpoints.
unfoldable pub claim_target : MuxTarget → ℕ → Try → List Action × Attempt
claim_target t n w =
    if w.claims
    then (
      claim t.interface_number ∷ [],
      if w.has_in
          then (if w.has_out then claimed t else fatal (claim_bulk_out t.ep_out))
          else fatal (claim_bulk_in t.ep_in),
    )
    else (claim t.interface_number ∷ [], failed (claim_interface_failed t.interface_number n))

abbrev pub after : List Action → List Action × Attempt → List Action × Attempt
after acts (more, r) = (acts ++ more, r)

-- The bounce through a configuration without a mux interface, except on the first attempt.
abbrev pub bounce : Option ℕ → ℕ → List Action
bounce none n = []
bounce (some v) zero = []
bounce (some v) (suc n) = set_configuration v ∷ []

unfoldable pub switch_and_claim : Option ℕ → MuxTarget → ℕ → Try → List Action × Attempt
switch_and_claim no_mux t n w =
    if is_active w.active t
    then claim_target t n w
    else after (bounce no_mux n ++ set_configuration t.config_value ∷ []) (
        if w.switches
        then claim_target t n w
        else ([], failed (set_configuration_failed t.config_value n)))

abbrev pub burst_pause : ℕ → List Action
burst_pause n = if (ltb 0 n && (n % claim_burst_size == 0)) then pause ∷ [] else []

unfoldable pub reset_and_claim : Bool → Option ℕ → MuxTarget → ℕ → Try → List Action × Attempt
reset_and_claim use_reset no_mux t n w =
    if use_reset
    then after (reset ∷ [])
        (if w.resets then switch_and_claim no_mux t n w else ([], failed (reset_failed n)))
    else switch_and_claim no_mux t n w

-- Attempt `n` of `attempts`; `div_ceil(2)` of them go without a reset.
unfoldable pub one_attempt :
    ℕ → Option ℕ → List MuxTarget → MuxTarget → ℕ → Try → List Action × Attempt
one_attempt attempts no_mux candidates t₀ n w = after (burst_pause n) (
    reset_and_claim (leb ((attempts + 1) / 2) n) no_mux
      (get_or candidates (n % length candidates) t₀) n w)

abbrev pub go_on :
    (OpenMuxError → List Action × Result OpenMuxError MuxTarget)
    → List Action × Attempt
    → List Action × Result OpenMuxError MuxTarget
go_on next (acts, claimed t) = (acts, ok t)
go_on next (acts, fatal e) = (acts, err e)
go_on next (acts, failed e) = let (more, r) = next e in (acts ++ more, r)

-- The loop, with `left` attempts to go, from attempt `n` on.
unfoldable pub attempt_loop :
    ℕ
    → Option ℕ
    → List MuxTarget
    → MuxTarget
    → (ℕ → Try)
    → OpenMuxError
    → ℕ
    → ℕ
    → List Action × Result OpenMuxError MuxTarget
attempt_loop attempts no_mux candidates t₀ tries last zero n = ([], err last)
attempt_loop attempts no_mux candidates t₀ tries last (suc left) n =
    go_on (λ e. attempt_loop attempts no_mux candidates t₀ tries e left (n + 1))
      (one_attempt attempts no_mux candidates t₀ n (tries n))

abbrev pub try_candidates :
    ℕ → Option ℕ → List MuxTarget → (ℕ → Try) → List Action × Result OpenMuxError MuxTarget
try_candidates attempts no_mux [] tries = ([], err no_mux_interface)
try_candidates attempts no_mux (t ∷ ts) tries =
    attempt_loop attempts no_mux (t ∷ ts) t tries no_mux_interface attempts 0

-- `open_mux_with_progress`, on a device that opens or not.
unfoldable pub open_mux_with_progress :
    ℕ
    → ℕ
    → Bool
    → Option ℕ
    → List DeviceConfig
    → ℕ
    → (ℕ → Try)
    → List Action × Result OpenMuxError MuxTarget
open_mux_with_progress vid pid opens active cs max_attempts tries =
    if is_apple_mux vid pid
    then if opens
      then (let candidates = collect_mux_candidates active cs in
          try_candidates (max max_attempts 1) (find_no_mux_config cs candidates) candidates tries)
      else ([], err open_failed)
    else ([], err (not_apple_mux vid pid))

-- `open_mux`
unfoldable pub open_mux :
    ℕ
    → ℕ
    → Bool
    → Option ℕ
    → List DeviceConfig
    → (ℕ → Try)
    → List Action × Result OpenMuxError MuxTarget
open_mux vid pid opens active cs tries =
    open_mux_with_progress vid pid opens active cs default_claim_attempts tries
