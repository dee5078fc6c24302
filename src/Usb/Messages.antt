-- ===== src/Usb/Messages.antt =====
-- src/libusbk/io.rs and src/apple_mux/io.rs: the writes, as the device sees them.
use netmuxd.Base.{
  ℕ, zero, suc, ◌<◌, ◌≡◌, refl, ap, ◌∙◌, false, List, [], ◌∷◌, ◌++◌, length, append-nil, replicate,
  ok, arith,
}
use netmuxd.Usb.Poll.{Poll, pending, ready, PipeResult, Outcome, not_yet, done}
use netmuxd.Usb.Boundaries.{observe, observe_all}
use netmuxd.Usb.PipeWriter.{
  PipeWriter, write_transfers, spawn_write, poll_join, poll_pending, poll_write_pipe,
}

-- A caller that polls again while it is told to wait, so many times at most.
abbrev pub again :
    (PipeWriter → PipeWriter × Poll (PipeResult ℕ))
    → PipeWriter × Poll (PipeResult ℕ)
    → PipeWriter × Poll (PipeResult ℕ)
again next (w, pending) = next w
again next (w, ready r) = (w, ready r)

unfoldable pub write_polls : ℕ → PipeWriter → List ℕ → PipeWriter × Poll (PipeResult ℕ)
write_polls zero w buf = poll_write_pipe w buf
write_polls (suc n) w buf = again (λ w'. write_polls n w' buf) (poll_write_pipe w buf)

-- The writer when the write of `buf` is done.
abbrev written_pipe : PipeWriter → List ℕ → List (Outcome (Unit {0})) → PipeWriter
written_pipe w buf os = record w {
  busy = false;
  in_flight = buf;
  pending_len = 0;
  transfers = w.transfers ++ write_transfers w.max_packet buf;
  outcomes = os;
}

-- The write of `buf` is under way, and its next outcomes are these.
abbrev under_way : PipeWriter → List ℕ → List (Outcome (Unit {0})) → PipeWriter
under_way w buf os = record (spawn_write w buf) { outcomes = os }

wait_for :
    (k : ℕ) (w : PipeWriter) (buf : List ℕ) (os : List (Outcome (Unit {0})))
    → write_polls k (under_way w buf (replicate k not_yet ++ done tt ∷ os)) buf
      ≡ (written_pipe w buf os, ready (ok (length buf)))
unfolding write_polls poll_write_pipe poll_pending poll_join
wait_for zero w buf os = refl
wait_for (suc k) w buf os = wait_for k w buf os

first_poll :
    (w : PipeWriter) (x : ℕ) (buf : List ℕ)
    → w.busy ≡ false
    → poll_write_pipe w (x ∷ buf) ≡ poll_write_pipe (spawn_write w (x ∷ buf)) (x ∷ buf)
unfolding poll_write_pipe
first_poll w x buf idle = ground (arith, idle)

first_of_polls :
    (k : ℕ) (w : PipeWriter) (x : ℕ) (buf : List ℕ)
    → w.busy ≡ false
    → write_polls k w (x ∷ buf) ≡ write_polls k (spawn_write w (x ∷ buf)) (x ∷ buf)
unfolding write_polls
first_of_polls zero w x buf idle = first_poll w x buf idle
first_of_polls (suc k) w x buf idle =
    ap (again (λ w'. write_polls k w' (x ∷ buf))) (first_poll w x buf idle)

observe_all-join :
    (mps : ℕ) (v : List (List ℕ) × List ℕ) (ts us : List (List ℕ))
    → observe_all mps v (ts ++ us) ≡ observe_all mps (observe_all mps v ts) us
observe_all-join mps v [] us = refl
observe_all-join mps v (t ∷ ts) us = observe_all-join mps (observe mps v t) ts us

one_message :
    (mps : ℕ) (messages : List (List ℕ)) (x : ℕ) (buf : List ℕ)
    → 0 < mps
    → observe_all mps (messages, []) (write_transfers mps (x ∷ buf))
      ≡ (messages ++ (x ∷ buf) ∷ [], [])
unfolding write_transfers
one_message mps messages x buf pos = ground (arith, append-nil (x ∷ buf))

-- A write of at least one byte on an idle pipe, polled until its transfer is done, tells the caller
-- that all its bytes are written, leaves the pipe idle, and gives the device exactly one message more,
-- the bytes written, also if they fill their packets.
pub write_polls_lem :
    (w : PipeWriter) (x : ℕ) (buf : List ℕ) (k : ℕ) (os : List (Outcome (Unit {0})))
    (messages : List (List ℕ))
    → 0 < w.max_packet
    → w.busy ≡ false
    → w.outcomes ≡ replicate k not_yet ++ done tt ∷ os
    → observe_all w.max_packet ([], []) w.transfers ≡ (messages, [])
    → (w' : PipeWriter) × (write_polls k w (x ∷ buf) ≡ (w', ready (ok (length (x ∷ buf)))))
      × (w'.busy ≡ false)
      × (w'.outcomes ≡ os)
      × (observe_all w.max_packet ([], []) w'.transfers ≡ (messages ++ (x ∷ buf) ∷ [], []))
write_polls_lem w x buf k os messages pos idle coming before = (
  written_pipe w (x ∷ buf) os,
  first_of_polls k w x buf idle
      ∙ (ap (λ o. write_polls k (record (spawn_write w (x ∷ buf)) { outcomes = o }) (x ∷ buf))
            coming
          ∙ wait_for k w (x ∷ buf) os),
  refl,
  refl,
  observe_all-join w.max_packet ([], []) w.transfers (write_transfers w.max_packet (x ∷ buf))
      ∙ (ap (λ v. observe_all w.max_packet v (write_transfers w.max_packet (x ∷ buf))) before
          ∙ one_message w.max_packet messages x buf pos),
)
