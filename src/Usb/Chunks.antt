-- ===== src/Usb/Chunks.antt =====
-- src/usb/bulk_io.rs and the writer task of src/usb/mux.rs: what a poll of a write does to the messages.
use netmuxd.Base.{
  ℕ, ◌+◌, ◌%◌, ◌≤◌, ◌<◌, ◌≡◌, ◌≢◌, refl, sym, ap, ◌∙◌, inl, inr, min, false, List, [], ◌∷◌, ◌++◌,
  length, take, drop, ◌==◌, ok, arith, append_assoc, take-append-drop, length-append, length-take,
  length-drop, Bool-cases, ==_iff, leb, leb→le, leb→gt, drop-length, take-length,
}
use netmuxd.Usb.Poll.{ready}
use netmuxd.Usb.BulkWriter.{BulkWriter, accept}
use netmuxd.Usb.WriterTask.{Phase, writing, flushing, WriterTask, write_rest, after_write}
use netmuxd.Usb.Boundaries.{
  Delivers, received, InPhase, mod_aligned, observe-short, observe-full, written, received-written,
  Sound, append_one, unaligned,
}

last_chunk :
    (mps : ℕ) (frames : List (List ℕ)) (t : WriterTask) (rest : List ℕ)
    → Sound mps t
    → InPhase mps frames t (writing rest)
    → InPhase mps frames (record t { writer = written t.writer rest (length rest) }) flushing
last_chunk mps frames t rest s (split, count, full, more) =
    elim (Bool-cases (length rest % mps == 0)) [
      | inl e ↦
          let z : length rest % mps ≡ 0 = (==_iff (length rest % mps) 0).0 e in
          let view =
            received-written mps t.writer rest (length rest)
            ∙ observe-full mps (received mps t.writer) rest s.positive more z in
          inl (
            rw view (
              split,
              omega (arith, grown),
              omega (arith, grown),
              ap (λ n. n % mps) grown ∙ (sum ∙ z),
              refl,
            ))
      | inr e ↦
          let z : length rest % mps ≢ 0 = λ h. ground (arith, e, h) in
          let view =
            received-written mps t.writer rest (length rest)
            ∙ observe-short mps (received mps t.writer) rest s.positive more z in
          inr (
            rw view (
              split
                  ∙ append_one (received mps t.writer).0 ((received mps t.writer).1 ++ rest)
                      t.queue,
              refl,
              unaligned
                  (record t.writer {
                    bytes_since_flush = t.writer.bytes_since_flush + length rest;
                    zlp_sent = false;
                  })
                  mps s.positive s.packet
                  (λ h. z (sym sum ∙ (ap (λ n. (n + length rest) % mps) (sym count) ∙ h))),
            ))
    ]
  where
    grown :
        length ((received mps t.writer).1 ++ rest) ≡ length (received mps t.writer).1 + length rest
    grown = length-append (received mps t.writer).1 rest

    sum : (length (received mps t.writer).1 + length rest) % mps ≡ length rest % mps
    sum = mod_aligned (length (received mps t.writer).1) (length rest) mps full

next_chunk :
    (mps : ℕ) (frames : List (List ℕ)) (t : WriterTask) (rest : List ℕ) (n : ℕ)
    → Sound mps t
    → InPhase mps frames t (writing rest)
    → n % mps ≡ 0
    → 0 < n
    → n < length rest
    → InPhase mps frames
        (record t { writer = written t.writer (take n rest) n })
        (writing (drop n rest))
next_chunk mps frames t rest n s (split, count, full, more) z pos low =
    let size : length (take n rest) ≡ n = omega (arith, length-take n rest) in
    let view =
      received-written mps t.writer (take n rest) n
      ∙ observe-full mps (received mps t.writer) (take n rest) s.positive (omega arith)
          (ap (λ k. k % mps) size ∙ z) in
    let grown : length ((received mps t.writer).1 ++ take n rest)
        ≡ length (received mps t.writer).1 + n =
      omega (arith, length-append (received mps t.writer).1 (take n rest)) in
    rw view (
      split
          ∙ ap (λ x. (received mps t.writer).0 ++ x ∷ t.queue)
              (ap (◌++◌ (received mps t.writer).1) (sym (take-append-drop n rest))
                ∙ sym (append_assoc (received mps t.writer).1 (take n rest) (drop n rest))),
      omega (arith, grown),
      ap (λ k. k % mps) grown ∙ (mod_aligned (length (received mps t.writer).1) n mps full ∙ z),
      omega (arith, length-drop n rest),
    )

accept-last :
    (w : BulkWriter) (rest : List ℕ)
    → 0 < length rest
    → length rest ≤ w.max_out
    → accept rest w ≡ (written w rest (length rest), ready (ok (length rest)))
unfolding accept
accept-last w [] more le = elim more [ ]
accept-last w (x ∷ rest) more le =
    let n : min (length (x ∷ rest)) w.max_out ≡ length (x ∷ rest) = omega arith in
    rw (n, take-length (x ∷ rest)) refl

accept-next :
    (w : BulkWriter) (rest : List ℕ)
    → 0 < length rest
    → w.max_out < length rest
    → accept rest w ≡ (written w (take w.max_out rest) w.max_out, ready (ok w.max_out))
unfolding accept
accept-next w [] more lt = elim more [ ]
accept-next w (x ∷ rest) more lt =
    let n : min (length (x ∷ rest)) w.max_out ≡ w.max_out = omega arith in rw n refl

write_rest-empty : (rest : List ℕ) (n : ℕ) → n ≡ length rest → write_rest (drop n rest) ≡ flushing
unfolding write_rest
write_rest-empty rest n h = rw (h, drop-length rest) refl

pub write_rest-more : (rest : List ℕ) → 0 < length rest → write_rest rest ≡ writing rest
unfolding write_rest
write_rest-more [] h = elim h [ ]
write_rest-more (x ∷ rest) h = refl

after_write-ok :
    (t : WriterTask) (rest : List ℕ) (w : BulkWriter) (n : ℕ)
    → 0 < n
    → after_write t rest (w, ready (ok n))
      ≡ record t { writer = w; phase = write_rest (drop n rest) }
unfolding after_write
after_write-ok t rest w n h = ground arith

abbrev pub at : WriterTask → Phase → WriterTask
at t p = record t { phase = p }

pub write_ready :
    (mps : ℕ) (frames : List (List ℕ)) (t : WriterTask) (rest : List ℕ)
    → Sound mps t
    → InPhase mps frames t (writing rest)
    → Delivers mps frames (after_write (at t (writing rest)) rest (accept rest t.writer))
write_ready mps frames t rest s h = elim (Bool-cases (leb (length rest) t.writer.max_out)) [
  | inl e ↦
      let le = leb→le (length rest) t.writer.max_out e in
      rw
        (
          accept-last t.writer rest h.3 le,
          after_write-ok (at t (writing rest)) rest (written t.writer rest (length rest))
              (length rest) h.3,
          write_rest-empty rest (length rest) refl,
        )
        (record {
          sound = record {
            positive = s.positive;
            packet = s.packet;
            room = s.room;
            aligned = s.aligned;
            nonempty = s.nonempty;
          };
          at_phase = last_chunk mps frames t rest s h;
        })
  | inr e ↦
      let lt = leb→gt (length rest) t.writer.max_out e in
      rw
        (
          accept-next t.writer rest h.3 lt,
          after_write-ok (at t (writing rest)) rest
              (written t.writer (take t.writer.max_out rest) t.writer.max_out) t.writer.max_out
              s.room,
          write_rest-more (drop t.writer.max_out rest)
              (omega (arith, length-drop t.writer.max_out rest)),
        )
        (record {
          sound = record {
            positive = s.positive;
            packet = s.packet;
            room = s.room;
            aligned = s.aligned;
            nonempty = s.nonempty;
          };
          at_phase = next_chunk mps frames t rest t.writer.max_out s h s.aligned s.room lt;
        })
]
