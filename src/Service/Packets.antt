-- ===== src/Service/Packets.antt =====
-- src/main.rs and src/upstream.rs: which packets the two readers take, and what they leave.
use netmuxd.Base.{
  ℕ, ◌-◌, ◌≤◌, ◌≡◌, refl, sym, ap, ◌∙◌, ◌↔◌, List, [], ◌++◌, length, take, drop, ok, err, arith,
  length-append, append_assoc, take-append, drop-append, get_or-take, length-drop, length-take,
  take-append-drop, Result-cases, inl, inr, get_or-append,
}
use netmuxd.Base.Bytes.{u32_le_at}
use netmuxd.Service.Frames.{
  unexpected_eof, packet_header_size, max_packet_size, read_bytes, read_rest, upstream_body,
  upstream_frame, client_body, client_packet,
}

-- A packet whose size field is its length.
abbrev pub IsPacket : List ℕ → Type 0
IsPacket f = (u32_le_at 0 f ≡ length f) × (packet_header_size ≤ length f)

read_bytes_inv :
    (n : ℕ) (bytes : List ℕ) (r : List ℕ × List ℕ)
    → read_bytes n bytes ≡ ok r
    → (bytes ≡ r.0 ++ r.1) × (length r.0 ≡ n)
unfolding read_bytes
read_bytes_inv n bytes r h = ground (arith, take-append-drop n bytes, length-take n bytes)

read_bytes-append :
    (n : ℕ) (f rest : List ℕ) → length f ≡ n → read_bytes n (f ++ rest) ≡ ok (f, rest)
unfolding read_bytes
read_bytes-append n f rest h =
    rw (take-append n f rest h, drop-append n f rest h) (ground (arith, length-append f rest))

size-append :
    (head more : List ℕ) → length head ≡ 16 → u32_le_at 0 (head ++ more) ≡ u32_le_at 0 head
size-append head more h = ground (
  arith,
  get_or-append 0 head more 0,
  get_or-append 1 head more 0,
  get_or-append 2 head more 0,
  get_or-append 3 head more 0,
)

-- The header and the body of a packet, as the readers see them.
size-take : (f : List ℕ) → 16 ≤ length f → u32_le_at 0 (take 16 f) ≡ u32_le_at 0 f
size-take f h =
    ground (
      arith,
      get_or-take 16 0 f 0,
      get_or-take 16 1 f 0,
      get_or-take 16 2 f 0,
      get_or-take 16 3 f 0,
    )

header_read :
    (f rest : List ℕ)
    → 16 ≤ length f
    → read_bytes 16 (f ++ rest) ≡ ok (take 16 f, drop 16 f ++ rest)
header_read f rest h =
    ap (read_bytes 16) (
      ap (λ l. l ++ rest) (sym (take-append-drop 16 f)) ∙ append_assoc (take 16 f) (drop 16 f) rest)
    ∙ read_bytes-append 16 (take 16 f) (drop 16 f ++ rest) (omega (arith, length-take 16 f))

rest_read :
    (f rest : List ℕ)
    → 16 ≤ length f
    → read_rest (take 16 f) (length f) (drop 16 f ++ rest) ≡ ok (f, rest)
unfolding read_rest
rest_read f rest h =
    rw
      (read_bytes-append (length f - 16) (drop 16 f) rest (length-drop 16 f), take-append-drop 16 f)
      refl

pub upstream_frame-IsPacket :
    (f rest : List ℕ) → IsPacket f → upstream_frame (f ++ rest) ≡ ok (f, rest)
unfolding upstream_frame upstream_body
upstream_frame-IsPacket f rest (len, low) =
    rw (header_read f rest low) (ground (arith, size-take f low, rest_read f rest low))

pub client_packet-IsPacket :
    (f rest : List ℕ)
    → IsPacket f
    → length f ≤ max_packet_size
    → client_packet (f ++ rest) ≡ ok (f, rest)
unfolding client_packet client_body
client_packet-IsPacket f rest (len, low) high =
    rw (header_read f rest low) (ground (arith, size-take f low, rest_read f rest low))

read_rest_inv :
    (head bytes f rest : List ℕ)
    → length head ≡ 16
    → 16 ≤ u32_le_at 0 head
    → read_rest head (u32_le_at 0 head) bytes ≡ ok (f, rest)
    → (head ++ bytes ≡ f ++ rest) × IsPacket f
unfolding read_rest
read_rest_inv head bytes f rest l low h =
    elim (Result-cases (read_bytes (u32_le_at 0 head - 16) bytes)) [
      | inl (r, e) ↦
          let parts = read_bytes_inv (u32_le_at 0 head - 16) bytes r e in
          (
            ground (arith, parts, append_assoc head r.0 r.1),
            ground (arith, size-append head r.0 l, length-append head r.0, parts),
          )
      | inr (e, failed) ↦ absurd (ground arith)
    ]

upstream_frame_inv :
    (bytes f rest : List ℕ) → upstream_frame bytes ≡ ok (f, rest) → (bytes ≡ f ++ rest) × IsPacket f
unfolding upstream_frame upstream_body
upstream_frame_inv bytes f rest h = elim (Result-cases (read_bytes 16 bytes)) [
  | inl ((head, more), e) ↦
      let parts = read_bytes_inv 16 bytes (head, more) e in
      let whole = read_rest_inv head more f rest parts.1 (ground arith) (ground arith) in
      (parts.0 ∙ whole.0, whole.1)
  | inr (e, failed) ↦ absurd (ground arith)
]

pub client_packet_inv :
    (bytes f rest : List ℕ)
    → client_packet bytes ≡ ok (f, rest)
    → (bytes ≡ f ++ rest) × IsPacket f × (length f ≤ max_packet_size)
unfolding client_packet client_body
client_packet_inv bytes f rest h = elim (Result-cases (read_bytes 16 bytes)) [
  | inl ((head, more), e) ↦
      let parts = read_bytes_inv 16 bytes (head, more) e in
      let whole = read_rest_inv head more f rest parts.1 (ground arith) (ground arith) in
      let same = size-append head more parts.1 in
      (
        parts.0 ∙ whole.0,
        whole.1,
        ground (
          arith,
          size-append head more parts.1,
          ap (u32_le_at 0) whole.0,
          get_or-append 0 f rest 0,
          get_or-append 1 f rest 0,
          get_or-append 2 f rest 0,
          get_or-append 3 f rest 0,
        ),
      )
  | inr (e, failed) ↦ absurd (ground arith)
]

-- A session takes a packet off its stream exactly if the packet stands at the front, is as long as
-- its size field says, and has 16 bytes at least and 16 MiB at most; the rest of the stream is left.
pub client_packet_iff :
    (bytes f rest : List ℕ)
    → (client_packet bytes ≡ ok (f, rest))
      ↔ ((bytes ≡ f ++ rest) × IsPacket f × (length f ≤ max_packet_size))
client_packet_iff bytes f rest = (
  client_packet_inv bytes f rest,
  λ (split, packet, high). ap client_packet split ∙ client_packet-IsPacket f rest packet high,
)

-- The reader of upstream frames takes the same packets, but of any length.
pub upstream_frame_iff :
    (bytes f rest : List ℕ)
    → (upstream_frame bytes ≡ ok (f, rest)) ↔ ((bytes ≡ f ++ rest) × IsPacket f)
upstream_frame_iff bytes f rest = (
  upstream_frame_inv bytes f rest,
  λ (split, packet). ap upstream_frame split ∙ upstream_frame-IsPacket f rest packet,
)

abbrev pub IsClientPacket : List ℕ → Type 0
IsClientPacket f = IsPacket f × (length f ≤ max_packet_size)

pub no_frame : upstream_frame [] ≡ err unexpected_eof
unfolding upstream_frame read_bytes
no_frame = refl
