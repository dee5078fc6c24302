-- ===== src/Usb/WriterTask.antt =====
-- src/usb/mux.rs, the writer task of `run`, over the `BulkWriter` of src/usb/bulk_io.rs.
use netmuxd.Base.{ℕ, zero, suc, List, [], ◌∷◌, is_empty, drop, ◌==◌, if◌then◌else◌, ok, err}
use netmuxd.Usb.Poll.{Poll, pending, ready, PipeResult}
use netmuxd.Usb.BulkWriter.{BulkWriter, poll_write, poll_flush}

-- Where the task waits: for a frame, in `write_all` with the bytes that are left, in `flush`, or no
-- more.
pub data Phase : Type 0 where
  waiting : Phase
  writing : List ℕ → Phase
  flushing : Phase
  ended : Phase

pub record WriterTask : Type 0 where
  pub writer : BulkWriter
  pub queue : List (List ℕ)
  pub phase : Phase

-- `write_all` with nothing left is done.
unfoldable pub write_rest : List ℕ → Phase
write_rest rest = if is_empty rest then flushing else writing rest

unfoldable pub take_frame : WriterTask → List (List ℕ) → WriterTask
take_frame t [] = t
take_frame t (f ∷ fs) = record t { queue = fs; phase = write_rest f }

unfoldable pub after_write : WriterTask → List ℕ → BulkWriter × Poll (PipeResult ℕ) → WriterTask
after_write t rest (w, pending) = record t { writer = w }
after_write t rest (w, ready (ok n)) = record t {
  writer = w;
  phase = if n == 0 then ended else write_rest (drop n rest);
}
after_write t rest (w, ready (err e)) = record t { writer = w; phase = ended }

unfoldable pub after_flush : WriterTask → BulkWriter × Poll (PipeResult (Unit {0})) → WriterTask
after_flush t (w, pending) = record t { writer = w }
after_flush t (w, ready (ok _)) = record t { writer = w; phase = waiting }
after_flush t (w, ready (err e)) = record t { writer = w; phase = ended }

unfoldable pub poll_phase : WriterTask → Phase → WriterTask
poll_phase t waiting = take_frame t t.queue
poll_phase t (writing rest) = after_write t rest (poll_write t.writer rest)
poll_phase t flushing = after_flush t (poll_flush t.writer)
poll_phase t ended = t

-- The task is polled so many times.
unfoldable pub poll_task : ℕ → WriterTask → WriterTask
poll_task zero t = t
poll_task (suc n) t = poll_task n (poll_phase t t.phase)

abbrev pub writer_task : BulkWriter → List (List ℕ) → WriterTask
writer_task w frames = record { writer = w; queue = frames; phase = waiting }
