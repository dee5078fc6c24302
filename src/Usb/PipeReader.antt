-- ===== src/Usb/PipeReader.antt =====
-- src/libusbk/io.rs and src/apple_mux/io.rs: `AsyncRead` over blocking reads on another thread.
use netmuxd.Base.{
  ℕ, ◌+◌, ◌-◌, min, max, Bool, true, false, List, [], ◌∷◌, ◌++◌, length, is_empty, take, drop, ltb,
  ◌==◌, if◌then◌else◌, ok, err,
}
use netmuxd.Usb.Poll.{
  Poll, pending, ready, PipeResult, last_os_error, Outcome, not_yet, done, failed,
}

-- `pending` of the source is `busy`. `requests` are the buffer sizes of the blocking reads that were
-- started, oldest first, and `outcomes` what the polls to come find of them.
pub record PipeReader : Type 0 where
  pub busy : Bool
  pub leftover : List ℕ
  pub leftover_off : ℕ
  pub requests : List ℕ
  pub outcomes : List (Outcome (List ℕ))

abbrev pub new_pipe_reader : List (Outcome (List ℕ)) → PipeReader
new_pipe_reader outcomes = record {
  busy = false;
  leftover = [];
  leftover_off = 0;
  requests = [];
  outcomes = outcomes;
}

-- READ_CHUNK of src/libusbk/io.rs and of src/apple_mux/io.rs
abbrev pub libusbk_read_chunk : ℕ
libusbk_read_chunk = 16384

abbrev pub apple_read_chunk : ℕ
apple_read_chunk = 0x8000

-- The buffer of a read: libusbK's is of one size, Apple's as large as the caller's up to a limit.
abbrev pub libusbk_buffer : ℕ → ℕ
libusbk_buffer want = libusbk_read_chunk

abbrev pub apple_buffer : ℕ → ℕ
apple_buffer want = min (max want 1) apple_read_chunk

-- `None => me.pending = Some(me.spawn_read(..))`; a read in flight is left alone.
abbrev pub spawn_read : PipeReader → ℕ → PipeReader
spawn_read r size = record r {
  busy = true;
  requests = if r.busy then r.requests else r.requests ++ size ∷ [];
}

unfoldable pub serve_leftover : PipeReader → ℕ → PipeReader × Poll (PipeResult (List ℕ))
serve_leftover r want =
    let n = min (length r.leftover - r.leftover_off) want in
    let bytes = take n (drop r.leftover_off r.leftover) in
    if r.leftover_off + n == length r.leftover
    then (record r { leftover = []; leftover_off = 0 }, ready (ok bytes))
    else (record r { leftover_off = r.leftover_off + n }, ready (ok bytes))

-- The read that is in flight has ended.
abbrev pub joined : PipeReader → List (Outcome (List ℕ)) → PipeReader
joined r os = record r { busy = false; outcomes = os }

-- The rounds of `poll_read` without leftover bytes: a read is started if none is in flight, and the
-- next outcome is looked at.
unfoldable pub pipe_rounds :
    List (Outcome (List ℕ)) → PipeReader → ℕ → ℕ → PipeReader × Poll (PipeResult (List ℕ))
pipe_rounds [] r size want = (record (spawn_read r size) { outcomes = [] }, pending)
pipe_rounds (not_yet ∷ os) r size want = (record (spawn_read r size) { outcomes = os }, pending)
pipe_rounds (failed ∷ os) r size want = (joined (spawn_read r size) os, ready (err last_os_error))
pipe_rounds (done data_ ∷ os) r size want =
    let r' = joined (spawn_read r size) os in
    let again = pipe_rounds os r' size want in
    if is_empty data_
    then again
    else serve_leftover (record r' { leftover = data_; leftover_off = 0 }) want

unfoldable pub poll_pipe : (ℕ → ℕ) → PipeReader → ℕ → PipeReader × Poll (PipeResult (List ℕ))
poll_pipe buffer r want =
    if ltb 0 (length r.leftover - r.leftover_off)
    then serve_leftover r want
    else pipe_rounds r.outcomes r (buffer want) want

-- `poll_read` of `LibusbkReader` and of `AppleMuxReader`
abbrev pub libusbk_poll_read : PipeReader → ℕ → PipeReader × Poll (PipeResult (List ℕ))
libusbk_poll_read = poll_pipe libusbk_buffer

abbrev pub apple_poll_read : PipeReader → ℕ → PipeReader × Poll (PipeResult (List ℕ))
apple_poll_read = poll_pipe apple_buffer
