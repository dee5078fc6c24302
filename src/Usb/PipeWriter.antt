-- ===== src/Usb/PipeWriter.antt =====
-- src/libusbk/io.rs and src/apple_mux/io.rs: `AsyncWrite` over blocking writes on another thread.
use netmuxd.Base.{
  ℕ, Bool, true, false, not, ◌&&◌, List, [], ◌∷◌, ◌++◌, length, is_empty, ltb, if◌then◌else◌, ok,
  err,
}
use netmuxd.Usb.Poll.{
  Poll, pending, ready, PipeResult, last_os_error, Outcome, not_yet, done, failed, is_multiple_of,
}

-- `pending` of the source is `busy`, with the bytes that its thread writes. `transfers` are those
-- of the writes that succeeded, oldest first; how much of a failed one the device got is not known.
pub record PipeWriter : Type 0 where
  pub max_packet : ℕ
  pub busy : Bool
  pub in_flight : List ℕ
  pub pending_len : ℕ
  pub transfers : List (List ℕ)
  pub outcomes : List (Outcome (Unit {0}))

abbrev pub new_pipe_writer : ℕ → List (Outcome (Unit {0})) → PipeWriter
new_pipe_writer max_packet outcomes = record {
  max_packet = max_packet;
  busy = false;
  in_flight = [];
  pending_len = 0;
  transfers = [];
  outcomes = outcomes;
}

-- What the thread of `spawn_write` does: the bytes, and a zero-length packet if they fill theirs.
unfoldable pub write_transfers : ℕ → List ℕ → List (List ℕ)
write_transfers max_packet bytes =
    if ltb 0 max_packet && not (is_empty bytes) && is_multiple_of (length bytes) max_packet
    then bytes ∷ [] ∷ []
    else bytes ∷ []

abbrev pub spawn_write : PipeWriter → List ℕ → PipeWriter
spawn_write w buf = record w { pending_len = length buf; in_flight = buf; busy = true }

unfoldable pub poll_join : List (Outcome (Unit {0})) → PipeWriter → PipeWriter × Poll (PipeResult ℕ)
poll_join [] w = (w, pending)
poll_join (not_yet ∷ os) w = (record w { outcomes = os }, pending)
poll_join (done _ ∷ os) w = (
  record w {
    busy = false;
    pending_len = 0;
    transfers = w.transfers ++ write_transfers w.max_packet w.in_flight;
    outcomes = os;
  },
  ready (ok w.pending_len),
)
poll_join (failed ∷ os) w =
    (record w { busy = false; pending_len = 0; outcomes = os }, ready (err last_os_error))

unfoldable pub poll_pending : PipeWriter → PipeWriter × Poll (PipeResult ℕ)
poll_pending w = if w.busy then poll_join w.outcomes w else (w, ready (ok 0))

unfoldable pub poll_write_pipe : PipeWriter → List ℕ → PipeWriter × Poll (PipeResult ℕ)
poll_write_pipe w buf =
    if w.busy
    then poll_pending w
    else if is_empty buf
    then (w, ready (ok 0))
    else poll_pending (spawn_write w buf)

unfoldable pub flushed :
    PipeWriter × Poll (PipeResult ℕ) → PipeWriter × Poll (PipeResult (Unit {0}))
flushed (w, pending) = (w, pending)
flushed (w, ready (ok n)) = (w, ready (ok tt))
flushed (w, ready (err e)) = (w, ready (err e))

unfoldable pub poll_flush_pipe : PipeWriter → PipeWriter × Poll (PipeResult (Unit {0}))
poll_flush_pipe w = flushed (poll_pending w)

-- `AppleMuxWriter` does the same as `LibusbkWriter`, over another driver.
abbrev pub apple_write_transfers : ℕ → List ℕ → List (List ℕ)
apple_write_transfers = write_transfers

abbrev pub apple_poll_pending : PipeWriter → PipeWriter × Poll (PipeResult ℕ)
apple_poll_pending = poll_pending

abbrev pub apple_poll_write : PipeWriter → List ℕ → PipeWriter × Poll (PipeResult ℕ)
apple_poll_write = poll_write_pipe

abbrev pub apple_poll_flush : PipeWriter → PipeWriter × Poll (PipeResult (Unit {0}))
apple_poll_flush = poll_flush_pipe
