-- ===== src/Mux/Framing.antt =====
-- src/usb/mux.rs: segments, frames and streams of frames, sent and read.
use netmuxd.Base.{
  ℕ, zero, suc, ◌+◌, ◌-◌, ◌/◌, ◌≤◌, ◌<◌, ◌≡◌, refl, sym, ap, ◌∙◌, Bool, true, List, [], ◌∷◌, ◌++◌,
  length, take, drop, ok, arith, All, flatten, length-append, append_assoc, take-append,
  drop-append, take-append_le, drop-append_le, get_or-take, get_or-append, length-drop, length-take,
  take-append-drop, Result-cases, inl, inr,
}
use netmuxd.Base.Bytes.{u16_mod, u32_mod, u32_at}
use netmuxd.Mux.Wire.{
  Wire, MuxState, Proto, proto_code, send_raw, mux_header, mux_header_size, reset_sequence, usb_mtu,
  v1_header_size, v2_header_size, advance_sequence, send_frame, unexpected_eof,
}
use netmuxd.Mux.Frames.{read_frames, parse_tcp, parse_header, read_frame, read_exact, read_body}
use netmuxd.Mux.Connection.{Connection, tcp_header, receive_window}

-- The fields that a segment carries fit their widths.
pub record InRange (c : Connection) : Type 0 where
  pub sport_fits : c.sport < u16_mod
  pub dport_fits : c.dport < u16_mod
  pub tx_seq_fits : c.tx_seq < u32_mod
  pub tx_ack_fits : c.tx_ack < u32_mod

-- A segment's header is read back as the connection's ports and numbers, the flags, and the free
-- space of the receive window in units of 256 bytes.
pub parse_tcp-tcp_header :
    (c : Connection) (flags : ℕ)
    → InRange c
    → parse_tcp (tcp_header c flags)
      ≡ ok (record {
        src_port = c.sport;
        dst_port = c.dport;
        seq = c.tx_seq;
        ack = c.tx_ack;
        flags = flags;
        window = receive_window c / 256;
      })
unfolding parse_tcp tcp_header
parse_tcp-tcp_header c flags r = ground arith

-- A frame whose length field is its length, within the limits that the reader sets.
abbrev pub IsFrame : List ℕ → Type 0
IsFrame f = (u32_at 4 f ≡ length f) × (v2_header_size ≤ length f) × (length f ≤ usb_mtu)

u32_at-take : (f rest : List ℕ) → 8 ≤ length f → u32_at 4 (take 8 (f ++ rest)) ≡ u32_at 4 f
u32_at-take f rest h = rw (take-append_le 8 f rest h) (
    ground
      (arith, get_or-take 8 4 f 0, get_or-take 8 5 f 0, get_or-take 8 6 f 0, get_or-take 8 7 f 0))

read_exact-append :
    (n : ℕ) (f rest : List ℕ) → length f ≡ n → read_exact n (f ++ rest) ≡ ok (f, rest)
unfolding read_exact
read_exact-append n f rest h =
    rw (take-append n f rest h, drop-append n f rest h) (ground (arith, length-append f rest))

-- A frame at the front of a stream is read whole, and nothing behind it.
pub read_frame-IsFrame : (f rest : List ℕ) → IsFrame f → read_frame (f ++ rest) ≡ ok (f, rest)
unfolding read_frame read_exact read_body
read_frame-IsFrame f rest (len, low, high) = ground (
  arith,
  length-append f rest,
  u32_at-take f rest,
  take-append_le 8 f rest,
  drop-append_le 8 f rest,
  read_exact-append (length f - 8) (drop 8 f) rest,
  length-drop 8 f,
  take-append-drop 8 f,
)

read_exact_inv :
    (n : ℕ) (bytes : List ℕ) (r : List ℕ × List ℕ)
    → read_exact n bytes ≡ ok r
    → (bytes ≡ r.0 ++ r.1) × (length r.0 ≡ n)
unfolding read_exact
read_exact_inv n bytes r h = ground (arith, take-append-drop n bytes, length-take n bytes)

u32_at-append : (head more : List ℕ) → length head ≡ 8 → u32_at 4 (head ++ more) ≡ u32_at 4 head
u32_at-append head more h = ground (
  arith,
  get_or-append 4 head more 0,
  get_or-append 5 head more 0,
  get_or-append 6 head more 0,
  get_or-append 7 head more 0,
)

read_body_inv :
    (head bytes f rest : List ℕ)
    → length head ≡ 8
    → read_body (head, bytes) ≡ ok (f, rest)
    → (head ++ bytes ≡ f ++ rest) × IsFrame f
unfolding read_body
read_body_inv head bytes f rest l h =
    elim (Result-cases (read_exact (u32_at 4 head - v1_header_size) bytes)) [
      | inl (r, e) ↦
          let parts = read_exact_inv (u32_at 4 head - v1_header_size) bytes r e in
          (
            ground (arith, parts, append_assoc head r.0 r.1),
            ground (arith, u32_at-append head r.0 l, length-append head r.0, parts),
          )
      | inr (e, failed) ↦ absurd (ground arith)
    ]

-- What the reader returns is a frame from the front of the stream: no byte is lost or made up, and
-- the length field is the truth.
pub read_frame_inv :
    (bytes f rest : List ℕ) → read_frame bytes ≡ ok (f, rest) → (bytes ≡ f ++ rest) × IsFrame f
unfolding read_frame
read_frame_inv bytes f rest h = elim (Result-cases (read_exact v1_header_size bytes)) [
  | inl ((head, more), e) ↦
      let parts = read_exact_inv v1_header_size bytes (head, more) e in
      let whole = read_body_inv head more f rest parts.1 (ground arith) in
      (parts.0 ∙ whole.0, whole.1)
  | inr (e, failed) ↦ absurd (ground arith)
]

abbrev pub total_size : Wire → List ℕ → List ℕ → ℕ
total_size w header payload = mux_header_size w.state.version + length header + length payload

abbrev pub frame_of : Wire → Proto → List ℕ → List ℕ → Bool → List ℕ
frame_of w proto header payload reset_seq =
    mux_header (reset_sequence w.state reset_seq) proto (total_size w header payload)
    ++ (header ++ payload)

reset_version : (s : MuxState) (b : Bool) → (reset_sequence s b).version ≡ s.version
unfolding reset_sequence
reset_version s b = ground arith

pub length-mux_header :
    (s : MuxState) (p : Proto) (t : ℕ) → length (mux_header s p t) ≡ mux_header_size s.version
unfolding mux_header
length-mux_header s p t = ground arith

pub length-reset_header :
    (s : MuxState) (b : Bool) (p : Proto) (t : ℕ)
    → length (mux_header (reset_sequence s b) p t) ≡ mux_header_size s.version
length-reset_header s b p t =
    length-mux_header (reset_sequence s b) p t ∙ ap mux_header_size (reset_version s b)

pub mux_header_fields :
    (s : MuxState) (p : Proto) (t : ℕ) (rest : List ℕ)
    → t ≤ usb_mtu
    → (u32_at 4 (mux_header s p t ++ rest) ≡ t)
      × (u32_at 0 (mux_header s p t ++ rest) ≡ proto_code p)
unfolding mux_header
mux_header_fields s Proto.version t rest h = ground arith
mux_header_fields s Proto.control t rest h = ground arith
mux_header_fields s Proto.setup t rest h = ground arith
mux_header_fields s Proto.tcp t rest h = ground arith

pub length-frame_of :
    (w : Wire) (p : Proto) (header payload : List ℕ) (b : Bool)
    → length (frame_of w p header payload b) ≡ total_size w header payload
length-frame_of w p header payload b = omega (
  arith,
  length-append (mux_header (reset_sequence w.state b) p (total_size w header payload))
      (header ++ payload),
  length-append header payload,
  length-reset_header w.state b p (total_size w header payload),
)

pub frame_of-IsFrame :
    (w : Wire) (p : Proto) (header payload : List ℕ) (b : Bool)
    → v2_header_size ≤ total_size w header payload
    → total_size w header payload ≤ usb_mtu
    → IsFrame (frame_of w p header payload b)
frame_of-IsFrame w p header payload b low high =
    let len = length-frame_of w p header payload b in
    let fields =
      mux_header_fields (reset_sequence w.state b) p (total_size w header payload)
        (header ++ payload) high in
    (fields.0 ∙ sym len, omega arith, omega arith)

parse_header-frame_of :
    (w : Wire) (p : Proto) (header payload : List ℕ) (b : Bool)
    → total_size w header payload ≤ usb_mtu
    → parse_header (frame_of w p header payload b) w.state.version ≡ ok (proto_code p)
unfolding parse_header
parse_header-frame_of w p header payload b high =
    let fields =
      mux_header_fields (reset_sequence w.state b) p (total_size w header payload)
        (header ++ payload) high in
    rw (length-frame_of w p header payload b, fields.1) (ground (arith))

-- What `send_raw` hands to the writer task.
pub send_raw_sends :
    (w : Wire) (p : Proto) (header payload : List ℕ) (b : Bool)
    → w.writer_open ≡ true
    → total_size w header payload ≤ usb_mtu
    → send_raw w p header payload b ≡ (
      record w {
        state = advance_sequence (reset_sequence w.state b);
        sent = w.sent ++ frame_of w p header payload b ∷ [];
      },
      ok tt,
    )
unfolding send_raw send_frame
send_raw_sends w p header payload b alive high = ground arith

-- A packet that fits a transfer, over a writer task that runs, adds one frame to what was sent. The
-- reader of the other end takes exactly that frame from the front of a stream, and finds in it the
-- protocol number and, behind the header, the bytes given.
pub read_frame-send_raw :
    (w : Wire) (p : Proto) (header payload : List ℕ) (reset_seq : Bool) (rest : List ℕ)
    → w.writer_open ≡ true
    → v2_header_size ≤ mux_header_size w.state.version + length header + length payload
    → mux_header_size w.state.version + length header + length payload ≤ usb_mtu
    → (frame : List ℕ) × ((send_raw w p header payload reset_seq).0.sent ≡ w.sent ++ frame ∷ [])
      × ((send_raw w p header payload reset_seq).1 ≡ ok tt)
      × (read_frame (frame ++ rest) ≡ ok (frame, rest))
      × (parse_header frame w.state.version ≡ ok (proto_code p))
      × (drop (mux_header_size w.state.version) frame ≡ header ++ payload)
read_frame-send_raw w p header payload b rest alive low high = (
  frame_of w p header payload b,
  ap (λ r. r.0.sent) (send_raw_sends w p header payload b alive high),
  ap (λ r. r.1) (send_raw_sends w p header payload b alive high),
  read_frame-IsFrame (frame_of w p header payload b) rest
      (frame_of-IsFrame w p header payload b low high),
  parse_header-frame_of w p header payload b high,
  drop-append (mux_header_size w.state.version) _ (header ++ payload)
      (length-reset_header w.state b p (total_size w header payload)),
)

length-IsFrame : (f rest : List ℕ) → IsFrame f → suc (length rest) ≤ length (f ++ rest)
length-IsFrame f rest h = omega (arith, length-append f rest)

-- A stream of frames is read back whole: the same frames in the same order, and then its end.
pub read_frames-flatten :
    (fuel : ℕ) (fs : List (List ℕ))
    → All IsFrame fs
    → length (flatten fs) ≤ fuel
    → read_frames fuel (flatten fs) ≡ (fs, unexpected_eof)
unfolding read_frames read_frame read_exact
read_frames-flatten zero [] h le = refl
read_frames-flatten zero (f ∷ fs) h le = absurd (omega (arith, length-IsFrame f (flatten fs) h.0))
read_frames-flatten (suc fuel) [] h le = refl
read_frames-flatten (suc fuel) (f ∷ fs) h le =
    rw (read_frame-IsFrame f (flatten fs) h.0, read_frames)
      (ap (λ r. (f ∷ r.0, r.1))
        (read_frames-flatten fuel fs h.1 (omega (arith, length-IsFrame f (flatten fs) h.0))))
