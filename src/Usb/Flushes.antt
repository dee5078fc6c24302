-- ===== src/Usb/Flushes.antt =====
-- src/usb/bulk_io.rs and the writer task of src/usb/mux.rs: the polls of a write and of a flush.
use netmuxd.Base.{
  ℕ, suc, ◌%◌, ◌<◌, ◌≡◌, refl, sym, ap, ◌∙◌, inl, inr, true, false, List, [], if◌then◌else◌, ok,
  err, arith, append-nil,
}
use netmuxd.Usb.Poll.{Poll, pending, ready, PipeResult}
use netmuxd.Usb.BulkWriter.{
  BulkWriter, polled, after_drain, accept, poll_write, needs_zlp, send_zlp, flush_rounds,
  poll_flush,
}
use netmuxd.Usb.WriterTask.{
  Phase, waiting, writing, flushing, ended, WriterTask, after_write, after_flush,
}
use netmuxd.Usb.Boundaries.{
  received, IsUnfinished, IsFinished, InPhase, Sound, Delivers, poll_drain-polled,
  received-send_zlp, append_one,
}
use netmuxd.Usb.Chunks.{at, write_ready}

after_write-writer :
    (t : WriterTask) (w : BulkWriter) (rest : List ℕ) (x : BulkWriter × Poll (PipeResult ℕ))
    → after_write (record t { writer = w }) rest x ≡ after_write t rest x
unfolding after_write
after_write-writer t w rest (v, pending) = refl
after_write-writer t w rest (v, ready (ok n)) = refl
after_write-writer t w rest (v, ready (err e)) = refl

after_flush-writer :
    (t : WriterTask) (w : BulkWriter) (x : BulkWriter × Poll (PipeResult (Unit {0})))
    → after_flush (record t { writer = w }) x ≡ after_flush t x
unfolding after_flush
after_flush-writer t w (v, pending) = refl
after_flush-writer t w (v, ready (ok n)) = refl
after_flush-writer t w (v, ready (err e)) = refl

pub unchanged :
    {mps : ℕ} (t : WriterTask) (w : BulkWriter) (p : Phase)
    → w.ep.max_packet_size ≡ t.writer.ep.max_packet_size
    → w.max_out ≡ t.writer.max_out
    → Sound mps t
    → Sound mps (record t { writer = w; phase = p })
unchanged t w p packets outs s = record {
  positive = s.positive;
  packet = packets ∙ s.packet;
  room = rw outs s.room;
  aligned = rw outs s.aligned;
  nonempty = s.nonempty;
}

write_drained :
    (mps : ℕ) (frames : List (List ℕ)) (t : WriterTask) (rest : List ℕ)
    (r : Poll (PipeResult (Unit {0})))
    → Sound mps t
    → InPhase mps frames t (writing rest)
    → Delivers mps frames
        (after_write (at t (writing rest)) rest (after_drain (accept rest) (t.writer, r)))
unfolding after_drain after_write
write_drained mps frames t rest (ready (ok _)) s h = write_ready mps frames t rest s h
write_drained mps frames t rest pending s h = record {
  sound = unchanged t t.writer (writing rest) refl refl s;
  at_phase = h;
}
write_drained mps frames t rest (ready (err e)) s h = record {
  sound = unchanged t t.writer ended refl refl s;
  at_phase = inr (rest, t.queue, h.0);
}

pub write_step :
    (mps : ℕ) (frames : List (List ℕ)) (t : WriterTask) (rest : List ℕ)
    → Sound mps t
    → InPhase mps frames t (writing rest)
    → Delivers mps frames (after_write (at t (writing rest)) rest (poll_write t.writer rest))
unfolding poll_write
write_step mps frames t rest s h =
    let (os, b, r, e) = poll_drain-polled t.writer in
    let w = polled t.writer os b in
    rw (e, sym (after_write-writer (at t (writing rest)) w rest (after_drain (accept rest) (w, r))))
      (write_drained mps frames (record t { writer = w }) rest r (unchanged t w t.phase refl refl s)
        h)

abbrev flush_on : ℕ → BulkWriter → BulkWriter × Poll (PipeResult (Unit {0}))
flush_on fuel w =
    if needs_zlp w
    then flush_rounds fuel (send_zlp w)
    else (record w { bytes_since_flush = 0 }, ready (ok tt))

-- A flush that need not end the message.
finished_drained :
    (mps : ℕ) (frames : List (List ℕ)) (fuel : ℕ) (t : WriterTask)
    (r : Poll (PipeResult (Unit {0})))
    → Sound mps t
    → IsFinished mps frames t
    → Delivers mps frames (after_flush (at t flushing) (after_drain (flush_on fuel) (t.writer, r)))
unfolding after_drain after_flush
finished_drained mps frames fuel t (ready (ok _)) s (split, empty, done_) = rw done_ (record {
  sound = unchanged t (record t.writer { bytes_since_flush = 0 }) waiting refl refl s;
  at_phase = (split, empty, refl);
})
finished_drained mps frames fuel t pending s h = record {
  sound = unchanged t t.writer flushing refl refl s;
  at_phase = inr h;
}
finished_drained mps frames fuel t (ready (err e)) s h = record {
  sound = unchanged t t.writer ended refl refl s;
  at_phase = inl (t.queue, h.0, h.1);
}

flush_finished :
    (mps : ℕ) (frames : List (List ℕ)) (fuel : ℕ) (t : WriterTask)
    → Sound mps t
    → IsFinished mps frames t
    → Delivers mps frames (after_flush (at t flushing) (flush_rounds (suc fuel) t.writer))
unfolding flush_rounds
flush_finished mps frames fuel t s h =
    let (os, b, r, e) = poll_drain-polled t.writer in
    let w = polled t.writer os b in
    rw (e, sym (after_flush-writer (at t flushing) w (after_drain (flush_on fuel) (w, r))))
      (finished_drained mps frames fuel (record t { writer = w }) r
        (unchanged t w t.phase refl refl s) h)

needed :
    (w : BulkWriter) (mps : ℕ)
    → 0 < mps
    → w.ep.max_packet_size ≡ mps
    → 0 < w.bytes_since_flush
    → w.bytes_since_flush % mps ≡ 0
    → w.zlp_sent ≡ false
    → needs_zlp w ≡ true
needed w mps pos e more full z = rw (e, z) (ground arith)

-- A zero-length packet ends the message.
ended_by_zlp :
    (mps : ℕ) (frames : List (List ℕ)) (t : WriterTask)
    → IsUnfinished mps frames t
    → IsFinished mps frames (record t { writer = send_zlp t.writer })
ended_by_zlp mps frames t (split, count, more, full, z) =
    rw (received-send_zlp mps t.writer, append-nil (received mps t.writer).1)
      (split ∙ append_one (received mps t.writer).0 (received mps t.writer).1 t.queue, refl, refl)

unfinished_drained :
    (mps : ℕ) (frames : List (List ℕ)) (fuel : ℕ) (t : WriterTask)
    (r : Poll (PipeResult (Unit {0})))
    → Sound mps t
    → IsUnfinished mps frames t
    → Delivers mps frames
        (after_flush (at t flushing) (after_drain (flush_on (suc fuel)) (t.writer, r)))
unfolding after_drain after_flush
unfinished_drained mps frames fuel t (ready (ok _)) s (split, count, more, full, z) =
    rw
      (
        needed t.writer mps s.positive s.packet (omega arith) (ap (λ n. n % mps) count ∙ full) z,
        sym (
            after_flush-writer (at t flushing) (send_zlp t.writer)
              (flush_rounds (suc fuel) (send_zlp t.writer))),
      )
      (flush_finished mps frames fuel (record t { writer = send_zlp t.writer })
        (unchanged t (send_zlp t.writer) t.phase refl refl s)
        (ended_by_zlp mps frames t (split, count, more, full, z)))
unfinished_drained mps frames fuel t pending s h = record {
  sound = unchanged t t.writer flushing refl refl s;
  at_phase = inl h;
}
unfinished_drained mps frames fuel t (ready (err e)) s h = record {
  sound = unchanged t t.writer ended refl refl s;
  at_phase = inr ([], t.queue, rw (append-nil (received mps t.writer).1) h.0);
}

flush_unfinished :
    (mps : ℕ) (frames : List (List ℕ)) (fuel : ℕ) (t : WriterTask)
    → Sound mps t
    → IsUnfinished mps frames t
    → Delivers mps frames (after_flush (at t flushing) (flush_rounds (suc (suc fuel)) t.writer))
unfolding flush_rounds
flush_unfinished mps frames fuel t s h =
    let (os, b, r, e) = poll_drain-polled t.writer in
    let w = polled t.writer os b in
    rw (e, sym (after_flush-writer (at t flushing) w (after_drain (flush_on (suc fuel)) (w, r))))
      (unfinished_drained mps frames fuel (record t { writer = w }) r
        (unchanged t w t.phase refl refl s) h)

pub flush_step :
    (mps : ℕ) (frames : List (List ℕ)) (t : WriterTask)
    → Sound mps t
    → InPhase mps frames t flushing
    → Delivers mps frames (after_flush (at t flushing) (poll_flush t.writer))
unfolding poll_flush
flush_step mps frames t s (inl h) = flush_unfinished mps frames 0 t s h
flush_step mps frames t s (inr h) = flush_finished mps frames 1 t s h
