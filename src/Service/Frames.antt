-- ===== src/Service/Frames.antt =====
-- src/main.rs, `handle_stream`, and src/upstream.rs, `read_frame`: usbmuxd packets off a stream.
use netmuxd.Base.{
  ℕ, ◌-◌, ◌&&◌, not, List, ◌++◌, length, take, drop, ltb, leb, if◌then◌else◌, Result, ok, err,
  ◌>>=◌,
}
use netmuxd.Base.Bytes.{u32_le_at}

pub data FrameError : Type 0 where
  unexpected_eof frame_too_small : FrameError
  bogus_size : ℕ → FrameError

abbrev pub packet_header_size : ℕ
packet_header_size = 16

-- 16 * 1024 * 1024
abbrev pub max_packet_size : ℕ
max_packet_size = 16777216

-- `read_exact` on a stream that holds `bytes` and then ends.
unfoldable pub read_bytes : ℕ → List ℕ → Result FrameError (List ℕ × List ℕ)
read_bytes n bytes =
    if ltb (length bytes) n then err unexpected_eof else ok (take n bytes, drop n bytes)

-- The body behind a header that has been read.
unfoldable pub read_rest : List ℕ → ℕ → List ℕ → Result FrameError (List ℕ × List ℕ)
read_rest header size bytes =
    read_bytes (size - packet_header_size) bytes >>= λ r. ok (header ++ r.0, r.1)

-- `upstream::read_frame`: a size has no upper limit here.
unfoldable pub upstream_body : List ℕ × List ℕ → Result FrameError (List ℕ × List ℕ)
upstream_body (header, rest) =
    if ltb (u32_le_at 0 header) packet_header_size
    then err frame_too_small
    else read_rest header (u32_le_at 0 header) rest

unfoldable pub upstream_frame : List ℕ → Result FrameError (List ℕ × List ℕ)
upstream_frame bytes = read_bytes packet_header_size bytes >>= upstream_body

-- The packets of a client: any failure ends the session.
unfoldable pub client_body : List ℕ × List ℕ → Result FrameError (List ℕ × List ℕ)
client_body (header, rest) =
    if not (leb packet_header_size (u32_le_at 0 header) && leb (u32_le_at 0 header) max_packet_size)
    then err (bogus_size (u32_le_at 0 header))
    else read_rest header (u32_le_at 0 header) rest

unfoldable pub client_packet : List ℕ → Result FrameError (List ℕ × List ℕ)
client_packet bytes = read_bytes packet_header_size bytes >>= client_body
