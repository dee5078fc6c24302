-- ===== src/Usb/Boundaries.antt =====
-- src/usb/bulk_io.rs and the writer task of src/usb/mux.rs: the messages that a device, which ends
-- one at each short packet, has got of the frames.
use netmuxd.Base.{
  ℕ, ◌+◌, ◌%◌, ◌<◌, ◌≡◌, ◌≢◌, refl, sym, ap, ◌∙◌, ◌⊎◌, inl, inr, Bool, true, false, not, List, [],
  ◌∷◌, ◌++◌, length, is_empty, All, if◌then◌else◌, ok, err, arith, append_assoc, Bool-cases,
}
use native.Mathlib.Nat.{mod-add-mod}
use netmuxd.Usb.Poll.{
  Poll, pending, ready, PipeResult, usb_out, Outcome, not_yet, done, failed, is_multiple_of,
}
use netmuxd.Usb.BulkWriter.{
  BulkWriter, polled, poll_completion, poll_drain, submit, needs_zlp, send_zlp,
}
use netmuxd.Usb.WriterTask.{Phase, waiting, writing, flushing, ended, WriterTask}

-- The last packet of a transfer is shorter than a full one, or there is none.
abbrev pub is_short : ℕ → List ℕ → Bool
is_short mps t = if is_empty t then true else not (is_multiple_of (length t) mps)

-- The device: the messages that have ended, and the bytes of the one that has not.
abbrev pub observe : ℕ → List (List ℕ) × List ℕ → List ℕ → List (List ℕ) × List ℕ
observe mps (messages, part) t =
    if is_short mps t then (messages ++ (part ++ t) ∷ [], []) else (messages, part ++ t)

abbrev pub observe_all : ℕ → List (List ℕ) × List ℕ → List (List ℕ) → List (List ℕ) × List ℕ
observe_all mps v [] = v
observe_all mps v (t ∷ ts) = observe_all mps (observe mps v t) ts

abbrev pub received : ℕ → BulkWriter → List (List ℕ) × List ℕ
received mps w = observe_all mps ([], []) w.ep.submitted

observe_all-append :
    (mps : ℕ) (v : List (List ℕ) × List ℕ) (ts : List (List ℕ)) (t : List ℕ)
    → observe_all mps v (ts ++ t ∷ []) ≡ observe mps (observe_all mps v ts) t
observe_all-append mps v [] t = refl
observe_all-append mps v (x ∷ ts) t = observe_all-append mps (observe mps v x) ts t

-- What the device has got is the front of what was queued: whole frames, and at most a part of the
-- next one.
abbrev pub IsFront : List (List ℕ) → List (List ℕ) × List ℕ → Type 0
IsFront frames (messages, part) =
    ((later : List (List ℕ)) × (frames ≡ messages ++ later) × (part ≡ []))
    ⊎ ((rest : List ℕ) × (later : List (List ℕ)) × (frames ≡ messages ++ (part ++ rest) ∷ later))

abbrev pub IsUnfinished : ℕ → List (List ℕ) → WriterTask → Type 0
IsUnfinished mps frames t =
    (frames ≡ (received mps t.writer).0 ++ (received mps t.writer).1 ∷ t.queue)
    × (t.writer.bytes_since_flush ≡ length (received mps t.writer).1)
    × (0 < length (received mps t.writer).1)
    × (length (received mps t.writer).1 % mps ≡ 0)
    × (t.writer.zlp_sent ≡ false)

abbrev pub IsFinished : ℕ → List (List ℕ) → WriterTask → Type 0
IsFinished mps frames t =
    (frames ≡ (received mps t.writer).0 ++ t.queue)
    × ((received mps t.writer).1 ≡ [])
    × (needs_zlp t.writer ≡ false)

abbrev pub InPhase : ℕ → List (List ℕ) → WriterTask → Phase → Type 0
InPhase mps frames t waiting =
    (frames ≡ (received mps t.writer).0 ++ t.queue)
    × ((received mps t.writer).1 ≡ [])
    × (t.writer.bytes_since_flush ≡ 0)
InPhase mps frames t (writing rest) =
    (frames ≡ (received mps t.writer).0 ++ ((received mps t.writer).1 ++ rest) ∷ t.queue)
    × (t.writer.bytes_since_flush ≡ length (received mps t.writer).1)
    × (length (received mps t.writer).1 % mps ≡ 0)
    × (0 < length rest)
InPhase mps frames t flushing = IsUnfinished mps frames t ⊎ IsFinished mps frames t
InPhase mps frames t ended = IsFront frames (received mps t.writer)

pub poll_drain-polled :
    (w : BulkWriter)
    → (os : List (Outcome (Unit {0}))) × (b : Bool) × (r : Poll (PipeResult (Unit {0})))
      × (poll_drain w ≡ (polled w os b, r))
unfolding poll_drain poll_completion
poll_drain-polled w = drain (Bool-cases w.in_flight) w.ep.outcomes refl
  where
    drain :
        (w.in_flight ≡ true) ⊎ (w.in_flight ≡ false)
        → (os : List (Outcome (Unit {0}))) → w.ep.outcomes ≡ os
        → (os : List (Outcome (Unit {0}))) × (b : Bool) × (r : Poll (PipeResult (Unit {0})))
          × (poll_drain w ≡ (polled w os b, r))
    drain (inr idle) os e = (w.ep.outcomes, w.in_flight, ready (ok tt), rw idle refl)
    drain (inl busy) [] e = (w.ep.outcomes, w.in_flight, pending, rw (busy, e) refl)
    drain (inl busy) (not_yet ∷ os) e = (os, true, pending, rw (busy, e) refl)
    drain (inl busy) (done _ ∷ os) e = (os, false, ready (ok tt), rw (busy, e) refl)
    drain (inl busy) (failed ∷ os) e = (os, false, ready (err usb_out), rw (busy, e) refl)

pub mod_aligned : (a b mps : ℕ) → a % mps ≡ 0 → (a + b) % mps ≡ b % mps
mod_aligned a b mps h =
    sym (mod-add-mod a mps b) ∙ (ap (λ x. (x + b) % mps) h ∙ ap (λ x. x % mps) nothing)
  where
    nothing : 0 + b ≡ b
    nothing = omega arith

pub observe-short :
    (mps : ℕ) (v : List (List ℕ) × List ℕ) (t : List ℕ)
    → 0 < mps
    → 0 < length t
    → length t % mps ≢ 0
    → observe mps v t ≡ (v.0 ++ (v.1 ++ t) ∷ [], [])
observe-short mps v [] pos some_ h = elim some_ [ ]
observe-short mps v (x ∷ t) pos some_ h = ground arith

pub observe-full :
    (mps : ℕ) (v : List (List ℕ) × List ℕ) (t : List ℕ)
    → 0 < mps
    → 0 < length t
    → length t % mps ≡ 0
    → observe mps v t ≡ (v.0, v.1 ++ t)
observe-full mps v [] pos some_ h = elim some_ [ ]
observe-full mps v (x ∷ t) pos some_ h = ground arith

-- The writer once `t` has been submitted as a part of the data.
abbrev pub written : BulkWriter → List ℕ → ℕ → BulkWriter
written w t n = record (submit w t) {
  bytes_since_flush = w.bytes_since_flush + n;
  zlp_sent = false;
}

pub received-written :
    (mps : ℕ) (w : BulkWriter) (t : List ℕ) (n : ℕ)
    → received mps (written w t n) ≡ observe mps (received mps w) t
received-written mps w t n = observe_all-append mps ([], []) w.ep.submitted t

pub received-send_zlp :
    (mps : ℕ) (w : BulkWriter)
    → received mps (send_zlp w) ≡ ((received mps w).0 ++ ((received mps w).1 ++ []) ∷ [], [])
received-send_zlp mps w = observe_all-append mps ([], []) w.ep.submitted []

-- The state of the task but for where it waits.
pub record Sound (mps : ℕ) (t : WriterTask) : Type 0 where
  pub positive : 0 < mps
  pub packet : t.writer.ep.max_packet_size ≡ mps
  pub room : 0 < t.writer.max_out
  pub aligned : t.writer.max_out % mps ≡ 0
  pub nonempty : All (λ f. 0 < length f) t.queue

pub record Delivers (mps : ℕ) (frames : List (List ℕ)) (t : WriterTask) : Type 0 where
  pub sound : Sound mps t
  pub at_phase : InPhase mps frames t t.phase

pub append_one :
    (xs : List (List ℕ)) (x : List ℕ) (ys : List (List ℕ)) → xs ++ x ∷ ys ≡ (xs ++ x ∷ []) ++ ys
append_one xs x ys = sym (append_assoc xs (x ∷ []) ys)

pub unaligned :
    (w : BulkWriter) (mps : ℕ)
    → 0 < mps
    → w.ep.max_packet_size ≡ mps
    → w.bytes_since_flush % mps ≢ 0
    → needs_zlp w ≡ false
unaligned w mps pos e h = rw e (ground arith)
