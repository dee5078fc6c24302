-- ===== src/Mux/Frames.antt =====
-- src/usb/mux.rs: reading frames from the device and taking their headers apart.
use netmuxd.Base.{
  ℕ, zero, suc, ◌-◌, not, ◌&&◌, List, [], ◌∷◌, ◌++◌, length, take, drop, get_or, ltb, leb,
  if◌then◌else◌, ok, err, ◌>>=◌,
}
use netmuxd.Base.Bytes.{u16_at, u32_at}
use netmuxd.Mux.Wire.{
  Io, IoError, mux_header_too_short, tcp_header_too_short, unexpected_eof, implausible_length,
  mux_header_size, v1_header_size, v2_header_size, tcp_header_size, usb_mtu,
}

-- The protocol number; the magic of a v2 header is not looked at.
unfoldable pub parse_header : List ℕ → ℕ → Io ℕ
parse_header pkt version =
    if ltb (length pkt) (mux_header_size version)
    then err mux_header_too_short
    else ok (u32_at 0 pkt)

pub record ParsedTcp : Type 0 where
  pub src_port : ℕ
  pub dst_port : ℕ
  pub seq : ℕ
  pub ack : ℕ
  pub flags : ℕ
  pub window : ℕ

unfoldable pub parse_tcp : List ℕ → Io ParsedTcp
parse_tcp buf =
    if ltb (length buf) tcp_header_size
    then err tcp_header_too_short
    else ok (record {
      src_port = u16_at 0 buf;
      dst_port = u16_at 2 buf;
      seq = u32_at 4 buf;
      ack = u32_at 8 buf;
      flags = get_or buf 13 0;
      window = u16_at 14 buf;
    })

-- `read_exact` on a stream that holds `bytes` and then ends.
unfoldable pub read_exact : ℕ → List ℕ → Io (List ℕ × List ℕ)
read_exact n bytes =
    if ltb (length bytes) n then err unexpected_eof else ok (take n bytes, drop n bytes)

unfoldable pub read_body : List ℕ × List ℕ → Io (List ℕ × List ℕ)
read_body (head8, rest) =
    let length = u32_at 4 head8 in
    if not (leb v2_header_size length && leb length usb_mtu)
    then err (implausible_length length)
    else read_exact (length - v1_header_size) rest >>= λ r. ok (head8 ++ r.0, r.1)

-- The frame and the bytes behind it.
unfoldable pub read_frame : List ℕ → Io (List ℕ × List ℕ)
read_frame bytes = read_exact v1_header_size bytes >>= read_body

-- The reader task: frames until a read fails. Each takes a byte at least, so that as much fuel as
-- there are bytes is enough: with none of either, the read fails at the end of the stream.
unfoldable pub read_frames : ℕ → List ℕ → List (List ℕ) × IoError
read_frames zero bytes = ([], unexpected_eof)
read_frames (suc fuel) bytes = elim (read_frame bytes) [
  | ok r ↦ let (later, end) = read_frames fuel r.1 in (r.0 ∷ later, end)
  | err e ↦ ([], e)
]
