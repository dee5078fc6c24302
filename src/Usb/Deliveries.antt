-- ===== src/Usb/Deliveries.antt =====
-- src/usb/bulk_io.rs and the writer task of src/usb/mux.rs: the polls of a flush, and whole runs.
use netmuxd.Base.{
  ℕ, zero, suc, ◌%◌, ◌<◌, ◌≡◌, refl, inl, inr, List, [], ◌∷◌, length, All, append-nil,
}
use native.Mathlib.Nat.{zero-mod}
use netmuxd.Usb.BulkWriter.{BulkWriter}
use netmuxd.Usb.WriterTask.{
  Phase, waiting, writing, flushing, ended, WriterTask, take_frame, poll_phase, poll_task,
  writer_task,
}
use netmuxd.Usb.Boundaries.{received, IsFront, InPhase, Sound, Delivers}
use netmuxd.Usb.Chunks.{at, write_rest-more}
use netmuxd.Usb.Flushes.{unchanged, write_step, flush_step}

take_step :
    (mps : ℕ) (frames : List (List ℕ)) (t : WriterTask) (queue : List (List ℕ))
    → Sound mps (record t { queue = queue })
    → InPhase mps frames (record t { queue = queue }) waiting
    → Delivers mps frames (take_frame (record t { queue = queue; phase = waiting }) queue)
unfolding take_frame
take_step mps frames t [] s h = record {
  sound = unchanged (record t { queue = [] }) t.writer waiting refl refl s;
  at_phase = h;
}
take_step mps frames t (f ∷ fs) s (split, empty, zero_) =
    rw (write_rest-more f s.nonempty.0) (record {
      sound = record {
        positive = s.positive;
        packet = s.packet;
        room = s.room;
        aligned = s.aligned;
        nonempty = s.nonempty.1;
      };
      at_phase = rw empty (split, zero_, zero-mod mps, s.nonempty.0);
    })

step-Delivers :
    (mps : ℕ) (frames : List (List ℕ)) (t : WriterTask) (p : Phase)
    → Sound mps t
    → InPhase mps frames t p
    → Delivers mps frames (poll_phase (at t p) p)
unfolding poll_phase
step-Delivers mps frames t waiting s h = take_step mps frames t t.queue s h
step-Delivers mps frames t (writing rest) s h = write_step mps frames t rest s h
step-Delivers mps frames t flushing s h = flush_step mps frames t s h
step-Delivers mps frames t ended s h = record {
  sound = unchanged t t.writer ended refl refl s;
  at_phase = h;
}

poll_task-Delivers :
    (mps : ℕ) (frames : List (List ℕ)) (n : ℕ) (t : WriterTask)
    → Delivers mps frames t
    → Delivers mps frames (poll_task n t)
unfolding poll_task
poll_task-Delivers mps frames zero t h = h
poll_task-Delivers mps frames (suc n) t h =
    poll_task-Delivers mps frames n (poll_phase t t.phase)
      (step-Delivers mps frames t t.phase h.sound h.at_phase)

-- A writer that nothing has been written to yet, over an endpoint whose packets divide the largest
-- transfer.
pub record IsNew (mps : ℕ) (w : BulkWriter) : Type 0 where
  pub positive : 0 < mps
  pub packet : w.ep.max_packet_size ≡ mps
  pub room : 0 < w.max_out
  pub aligned : w.max_out % mps ≡ 0
  pub unused : w.ep.submitted ≡ []
  pub no_bytes : w.bytes_since_flush ≡ 0

start-Delivers :
    (mps : ℕ) (frames : List (List ℕ)) (w : BulkWriter)
    → IsNew mps w
    → All (λ f. 0 < length f) frames
    → Delivers mps frames (writer_task w frames)
start-Delivers mps frames w i h = record {
  sound = record {
    positive = i.positive;
    packet = i.packet;
    room = i.room;
    aligned = i.aligned;
    nonempty = h;
  };
  at_phase = rw i.unused (refl, refl, i.no_bytes);
}

Delivers-IsFront :
    (mps : ℕ) (frames : List (List ℕ)) (t : WriterTask) (p : Phase)
    → InPhase mps frames t p
    → IsFront frames (received mps t.writer)
Delivers-IsFront mps frames t waiting h = inl (t.queue, h.0, h.1)
Delivers-IsFront mps frames t (writing rest) h = inr (rest, t.queue, h.0)
Delivers-IsFront mps frames t flushing (inl h) =
    inr ([], t.queue, rw (append-nil (received mps t.writer).1) h.0)
Delivers-IsFront mps frames t flushing (inr h) = inl (t.queue, h.0, h.1)
Delivers-IsFront mps frames t ended h = h

-- However often the writer task is polled, and whatever becomes of its transfers: a device that ends
-- a message at each short packet has got the first frames of the queue, each as one message, and at
-- most a part of the next one.
pub poll_task-IsFront :
    (mps : ℕ) (w : BulkWriter) (frames : List (List ℕ)) (n : ℕ)
    → IsNew mps w
    → All (λ f. 0 < length f) frames
    → IsFront frames (received mps (poll_task n (writer_task w frames)).writer)
poll_task-IsFront mps w frames n i h =
    let t = poll_task n (writer_task w frames) in
    Delivers-IsFront mps frames t t.phase
      (poll_task-Delivers mps frames n (writer_task w frames)
        (start-Delivers mps frames w i h)).at_phase
