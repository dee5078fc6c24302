-- ===== src/Mux/Sent.antt =====
-- src/usb/mux.rs: what the mux task has put on the wire, over any run of it.
use netmuxd.Base.{
  ℕ, suc, ◌+◌, ◌%◌, ◌≤◌, ◌≡◌, refl, sym, ap, ◌∙◌, Bool, true, false, List, [], ◌∷◌, ◌++◌, length,
  arith, All, All-append, flatten, append_assoc, length-append,
}
use netmuxd.Base.Bytes.{u16_mod, u16_at, u16_be, u32_be}
use netmuxd.Mux.Wire.{
  Wire, MuxState, Proto, send_raw, send_frame, mux_header, reset_sequence, advance_sequence,
  usb_mtu, unexpected_eof,
}
use netmuxd.Mux.Frames.{read_frames}
use netmuxd.Mux.Framing.{IsFrame, total_size, frame_of, frame_of-IsFrame, read_frames-flatten}
use netmuxd.Mux.Connection.{Connection, send_tcp, tcp_header}
use netmuxd.Mux.Loop.{Event, Task, running, note_sequence, run_loop, start_mux}
use netmuxd.Mux.Handshake.{started, handshake}
use netmuxd.Mux.Startup.{version_frame, setup_frame, wire_after, handshake_iff}
use mathlib.Core.Bool.{false≢true}
use netmuxd.Mux.Steps.{task_mux}
use netmuxd.Mux.Rounds.{run_loop-P}

-- A send is refused with nothing done, or fails at the writer task, or adds one frame.
send_raw_rule :
    (Q : Wire → Type 0) (w : Wire) (p : Proto) (header payload : List ℕ) (b : Bool)
    → Q w
    → (w.writer_open ≡ false → Q (record w { state = advance_sequence (reset_sequence w.state b) }))
    → (w.writer_open ≡ true
        → total_size w header payload ≤ usb_mtu
        → Q (record w {
          state = advance_sequence (reset_sequence w.state b);
          sent = w.sent ++ frame_of w p header payload b ∷ [];
        }))
    → Q (send_raw w p header payload b).0
unfolding send_raw send_frame
send_raw_rule Q w p header payload b refused gone sent = grind arith

pub length-tcp_header : (c : Connection) (flags : ℕ) → length (tcp_header c flags) ≡ 20
unfolding tcp_header
length-tcp_header c flags = refl

pub advance_version : (s : MuxState) → (advance_sequence s).version ≡ s.version
unfolding advance_sequence
advance_version s = ground arith

-- The wire after the handshake: v2 framing, and nothing sent but frames.
pub record IsFramed (w : Wire) : Type 0 where
  pub is_v2 : w.state.version ≡ 2
  pub frames : All IsFrame w.sent

send_tcp-IsFramed :
    (w : Wire) (c : Connection) (flags : ℕ) (payload : List ℕ)
    → IsFramed w
    → IsFramed (send_tcp w c flags payload).0
unfolding send_tcp reset_sequence
send_tcp-IsFramed w c flags payload h =
    send_raw_rule IsFramed w Proto.tcp (tcp_header c flags) payload false h
      (λ _. record { is_v2 = advance_version w.state ∙ h.is_v2; frames = h.frames })
      λ _ fits. record {
        is_v2 = advance_version w.state ∙ h.is_v2;
        frames = All-append IsFrame w.sent _ h.frames (
          frame_of-IsFrame w Proto.tcp (tcp_header c flags) payload false
              (ground (arith, h.is_v2, length-tcp_header c flags)) fits,
          tt,
        );
      }

note_sequence-version : (s : MuxState) (pkt : List ℕ) → (note_sequence s pkt).version ≡ s.version
unfolding note_sequence
note_sequence-version s pkt = ground arith

run_loop-IsFramed :
    (t : Task) (es : List Event)
    → IsFramed (task_mux t).wire
    → IsFramed (task_mux (run_loop t es)).wire
run_loop-IsFramed =
    run_loop-P IsFramed send_tcp-IsFramed
      (λ w pkt h. record { is_v2 = note_sequence-version w.state pkt ∙ h.is_v2; frames = h.frames })
      (λ w h. record { is_v2 = h.is_v2; frames = h.frames })

wire_after-IsFramed : (w : Wire) → w.sent ≡ [] → IsFramed (wire_after w)
wire_after-IsFramed w e = rw e (record { is_v2 = refl; frames = omega arith })

-- From the handshake on, whatever the events: the bytes sent, read by the same reader, give back
-- the frames that were sent, in order, up to the end of the stream.
pub read_frames-run_loop :
    (w w' : Wire) (bytes rest : List ℕ) (es : List Event)
    → w.writer_open ≡ true
    → w.sent ≡ []
    → handshake w bytes ≡ started w' rest
    → read_frames
        (length (flatten (task_mux (run_loop (running (start_mux w')) es)).wire.sent))
        (flatten (task_mux (run_loop (running (start_mux w')) es)).wire.sent)
      ≡ ((task_mux (run_loop (running (start_mux w')) es)).wire.sent, unexpected_eof)
read_frames-run_loop w w' bytes rest es alive empty h =
    let (pkt, e, good, after) = (handshake_iff w bytes w' rest alive).0 h in
    let framed : IsFramed w' = rw after (wire_after-IsFramed w empty) in
    read_frames-flatten _ _ (run_loop-IsFramed (running (start_mux w')) es framed).frames
      (omega arith)

-- The frames carry the numbers n, n + 1, … modulo 2^16.
abbrev pub Numbered : ℕ → List (List ℕ) → Type 0
Numbered n [] = Unit {0}
Numbered n (f ∷ fs) = (u16_at 12 f ≡ n % u16_mod) × Numbered (suc n) fs

Numbered-append :
    (n : ℕ) (fs : List (List ℕ)) (f : List ℕ)
    → Numbered n fs
    → u16_at 12 f ≡ (n + length fs) % u16_mod
    → Numbered n (fs ++ f ∷ [])
Numbered-append n [] f h e = (e ∙ omega arith, tt)
Numbered-append n (g ∷ fs) f h e =
    (h.0, Numbered-append (suc n) fs f h.1 (e ∙ ap (λ k. k % u16_mod) (omega arith)))

-- A writer task that has ended takes no more frames, and the numbers after it do not matter.
pub record IsNumbered (pre : List (List ℕ)) (base : ℕ) (w : Wire) : Type 0 where
  pub is_v2 : w.state.version ≡ 2
  pub later : List (List ℕ)
  pub split : w.sent ≡ pre ++ later
  pub numbered : Numbered base later
  pub next : w.writer_open ≡ true → w.state.tx_seq ≡ (base + length later) % u16_mod

header_number :
    (s : MuxState) (p : Proto) (t n : ℕ) (rest : List ℕ)
    → s.version ≡ 2
    → s.tx_seq ≡ n % u16_mod
    → u16_at 12 (mux_header s p t ++ rest) ≡ n % u16_mod
unfolding mux_header u16_be u32_be
header_number s p t n rest v e = ground arith

advance_lem :
    (s : MuxState) (n : ℕ)
    → s.version ≡ 2
    → s.tx_seq ≡ n % u16_mod
    → (advance_sequence s).tx_seq ≡ suc n % u16_mod
unfolding advance_sequence
advance_lem s n v e = ground arith

send_tcp-IsNumbered :
    (pre : List (List ℕ)) (base : ℕ) (w : Wire) (c : Connection) (flags : ℕ) (payload : List ℕ)
    → IsNumbered pre base w
    → IsNumbered pre base (send_tcp w c flags payload).0
unfolding send_tcp reset_sequence
send_tcp-IsNumbered pre base w c flags payload h =
    send_raw_rule (IsNumbered pre base) w Proto.tcp (tcp_header c flags) payload false h
      (λ gone. record {
        is_v2 = advance_version w.state ∙ h.is_v2;
        later = h.later;
        split = h.split;
        numbered = h.numbered;
        next = λ alive. absurd (false≢true (sym gone ∙ alive));
      })
      λ alive fits.
        let frame = frame_of w Proto.tcp (tcp_header c flags) payload false in
        record {
          is_v2 = advance_version w.state ∙ h.is_v2;
          later = h.later ++ frame ∷ [];
          split = ap (λ l. l ++ frame ∷ []) h.split ∙ append_assoc pre h.later (frame ∷ []);
          numbered =
              Numbered-append base h.later frame h.numbered (
                header_number w.state Proto.tcp _ (base + length h.later) _ h.is_v2 (h.next alive));
          next = λ _.
              advance_lem w.state (base + length h.later) h.is_v2 (h.next alive)
              ∙ ap (λ k. k % u16_mod) (omega (arith, length-append h.later (frame ∷ [])));
        }

note_sequence-tx : (s : MuxState) (pkt : List ℕ) → (note_sequence s pkt).tx_seq ≡ s.tx_seq
unfolding note_sequence
note_sequence-tx s pkt = ground arith

run_loop-IsNumbered :
    (pre : List (List ℕ)) (base : ℕ) (t : Task) (es : List Event)
    → IsNumbered pre base (task_mux t).wire
    → IsNumbered pre base (task_mux (run_loop t es)).wire
run_loop-IsNumbered pre base =
    run_loop-P (IsNumbered pre base) (send_tcp-IsNumbered pre base)
      (λ w pkt h. record {
        is_v2 = note_sequence-version w.state pkt ∙ h.is_v2;
        later = h.later;
        split = h.split;
        numbered = h.numbered;
        next = λ alive. note_sequence-tx w.state pkt ∙ h.next alive;
      })
      (λ w h. record {
        is_v2 = h.is_v2;
        later = h.later;
        split = h.split;
        numbered = h.numbered;
        next = λ alive. absurd (false≢true alive);
      })

wire_after-IsNumbered :
    (w : Wire) → w.sent ≡ [] → IsNumbered (version_frame ∷ setup_frame ∷ []) 1 (wire_after w)
wire_after-IsNumbered w e = record {
  is_v2 = refl;
  later = [];
  split = ap (λ l. l ++ (version_frame ∷ setup_frame ∷ [])) e;
  numbered = tt;
  next = λ _. refl;
}

-- After the VERSION frame, every frame that is sent in any run carries the number after that of
-- the frame before it, modulo 2^16, and SETUP has number 0.
pub run_loop-Numbered :
    (w w' : Wire) (bytes rest : List ℕ) (es : List Event)
    → w.writer_open ≡ true
    → w.sent ≡ []
    → handshake w bytes ≡ started w' rest
    → (fs : List (List ℕ)) × ((task_mux (run_loop (running (start_mux w')) es)).wire.sent
        ≡ version_frame ∷ setup_frame ∷ fs)
      × Numbered 0 (setup_frame ∷ fs)
run_loop-Numbered w w' bytes rest es alive empty h =
    let after = ((handshake_iff w bytes w' rest alive).0 h).3 in
    let start : IsNumbered (version_frame ∷ setup_frame ∷ []) 1 w' =
      rw after (wire_after-IsNumbered w empty) in
    let end = run_loop-IsNumbered _ 1 (running (start_mux w')) es start in
    (end.later, end.split, (refl, end.numbered))
