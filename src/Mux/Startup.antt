-- ===== src/Mux/Startup.antt =====
-- src/usb/mux.rs: when the handshake succeeds, and what it leaves behind.
use netmuxd.Base.{
  ℕ, ◌≤◌, ◌≡◌, sym, ap, ◌∙◌, true, List, [], ◌∷◌, ◌++◌, length, drop, ok, err, arith, append_assoc,
  ◌↔◌, inl, inr, Result-cases,
}
use netmuxd.Base.Bytes.{u32_at, u16_be, u32_be}
use netmuxd.Mux.Wire.{
  Wire, MuxState, send_raw, send_frame, mux_header, reset_sequence, advance_sequence, default_state,
  send_version, IoError,
}
use netmuxd.Mux.Frames.{parse_header, read_frame}
use netmuxd.Mux.Framing.{read_frame_inv}
use netmuxd.Mux.Handshake.{
  started, handshake, after_version, take_answer, send_setup, after_setup, check_version,
}

-- VERSION 2.0 in v1 framing, and SETUP in v2 framing with number 0.
abbrev pub version_frame : List ℕ
version_frame = 0 ∷ 0 ∷ 0 ∷ 0 ∷ 0 ∷ 0 ∷ 0 ∷ 20 ∷ 0 ∷ 0 ∷ 0 ∷ 2 ∷ 0 ∷ 0 ∷ 0 ∷ 0 ∷ 0 ∷ 0 ∷ 0 ∷ 0 ∷ []

abbrev pub setup_frame : List ℕ
setup_frame =
    0 ∷ 0 ∷ 0 ∷ 2 ∷ 0 ∷ 0 ∷ 0 ∷ 17 ∷ 0xfe ∷ 0xed ∷ 0xfa ∷ 0xce ∷ 0 ∷ 0 ∷ 0xff ∷ 0xff ∷ 7 ∷ []

-- The device's answer: a VERSION packet whose payload has the length of one and says 2.
abbrev pub IsVersionTwo : List ℕ → Type 0
IsVersionTwo pkt = (u32_at 0 pkt ≡ 0) × (12 ≤ length (drop 8 pkt)) × (u32_at 0 (drop 8 pkt) ≡ 2)

abbrev pub wire_after : Wire → Wire
wire_after w = record w {
  state = record { version = 2; tx_seq = 1; rx_seq = 0xffff };
  sent = w.sent ++ (version_frame ∷ setup_frame ∷ []);
}

send_version_lem :
    (w : Wire)
    → w.writer_open ≡ true
    → send_version (record w { state = default_state }) 2 0
      ≡ (record w { state = default_state; sent = w.sent ++ version_frame ∷ [] }, ok tt)
unfolding send_version send_raw send_frame reset_sequence advance_sequence mux_header u32_be
send_version_lem w alive = ground arith

check_version_lem :
    (pkt : List ℕ)
    → 8 ≤ length pkt
    → IsVersionTwo pkt
    → check_version pkt default_state ≡ ok (record default_state { version = 2 })
unfolding check_version parse_header
check_version_lem pkt low (p, l, two) = ground arith

check_version_inv :
    (pkt : List ℕ) (s : MuxState)
    → check_version pkt default_state ≡ ok s
    → IsVersionTwo pkt × (s ≡ record default_state { version = 2 })
unfolding check_version parse_header
check_version_inv pkt s h = ground arith

send_setup_lem :
    (w : Wire) (rest : List ℕ)
    → w.writer_open ≡ true
    → send_setup
        (record w { state = default_state; sent = w.sent ++ version_frame ∷ [] })
        rest
        (ok (record default_state { version = 2 }))
      ≡ started (wire_after w) rest
unfolding send_setup after_setup send_raw send_frame reset_sequence advance_sequence mux_header
    u32_be u16_be
send_setup_lem w rest alive =
    ground (arith, append_assoc w.sent (version_frame ∷ []) (setup_frame ∷ []))

take_answer_lem :
    (w : Wire) (pkt rest : List ℕ)
    → w.writer_open ≡ true
    → 8 ≤ length pkt
    → IsVersionTwo pkt
    → take_answer
        (record w { state = default_state; sent = w.sent ++ version_frame ∷ [] })
        (ok (pkt, rest))
      ≡ started (wire_after w) rest
unfolding take_answer
take_answer_lem w pkt rest alive low good =
    rw (check_version_lem pkt low good) (send_setup_lem w rest alive)

take_answer_inv :
    (w : Wire) (pkt rest : List ℕ) (w' : Wire) (rest' : List ℕ)
    → w.writer_open ≡ true
    → 8 ≤ length pkt
    → take_answer
        (record w { state = default_state; sent = w.sent ++ version_frame ∷ [] })
        (ok (pkt, rest))
      ≡ started w' rest'
    → IsVersionTwo pkt × (w' ≡ wire_after w) × (rest' ≡ rest)
unfolding take_answer send_setup
take_answer_inv w pkt rest w' rest' alive low h =
    elim (Result-cases (check_version pkt default_state)) [
      | inl (s, e) ↦
          let good = (check_version_inv pkt s e).0 in
          (
            good,
            ground (arith, take_answer_lem w pkt rest alive low good, h),
            ground (arith, take_answer_lem w pkt rest alive low good, h),
          )
      | inr (x, e) ↦ absurd (ground arith)
    ]

abbrev version_sent : Wire → Wire
version_sent w = record w { state = default_state; sent = w.sent ++ version_frame ∷ [] }

answer_sound :
    (w : Wire) (bytes : List ℕ) (w' : Wire) (rest : List ℕ)
    → w.writer_open ≡ true
    → take_answer (version_sent w) (read_frame bytes) ≡ started w' rest
    → (pkt : List ℕ) × (read_frame bytes ≡ ok (pkt, rest)) × IsVersionTwo pkt × (w' ≡ wire_after w)
unfolding take_answer
answer_sound w bytes w' rest alive h = elim (Result-cases (read_frame bytes)) [
  | inl ((pkt, rest'), e) ↦
      let frame = read_frame_inv bytes pkt rest' e in
      let facts = take_answer_inv w pkt rest' w' rest alive (omega (arith, frame.1)) (rw e at h) in
      (pkt, e ∙ ap (λ r. ok (pkt, r)) (sym facts.2), facts.0, facts.1)
  | inr (x, e) ↦ absurd (not_started x (rw e at h))
]
  where
    not_started : (x : IoError) → ¬ (take_answer (version_sent w) (err x) ≡ started w' rest)
    not_started x h = ground arith

answer_complete :
    (w : Wire) (bytes : List ℕ) (w' : Wire) (rest pkt : List ℕ)
    → w.writer_open ≡ true
    → read_frame bytes ≡ ok (pkt, rest)
    → IsVersionTwo pkt
    → w' ≡ wire_after w
    → take_answer (version_sent w) (read_frame bytes) ≡ started w' rest
answer_complete w bytes w' rest pkt alive e good after =
    let frame = read_frame_inv bytes pkt rest e in
    rw (e, after) (take_answer_lem w pkt rest alive (omega (arith, frame.1)) good)

-- The loop begins exactly when the writer task runs and the device's first frame is a VERSION
-- packet of major version 2; both sides have then sent what the protocol asks for, and the numbers
-- begin anew.
pub handshake_iff :
    (w : Wire) (bytes : List ℕ) (w' : Wire) (rest : List ℕ)
    → w.writer_open ≡ true
    → (handshake w bytes ≡ started w' rest) ↔ (
        (pkt : List ℕ) × (read_frame bytes ≡ ok (pkt, rest))
        × IsVersionTwo pkt
        × (w' ≡ wire_after w))
unfolding handshake after_version
handshake_iff w bytes w' rest alive = rw (send_version_lem w alive) (
  answer_sound w bytes w' rest alive,
  λ (pkt, e, good, after). answer_complete w bytes w' rest pkt alive e good after,
)
