-- ===== src/Mux/Wire.antt =====
-- src/usb/mux.rs: the frame header, the per-device sequence numbers, and what is put on the wire.
use netmuxd.Base.{
  ℕ, ◌+◌, ◌%◌, Bool, false, ◌&&◌, List, [], ◌∷◌, ◌++◌, length, ltb, leb, if◌then◌else◌, Result, ok,
  err,
}
use netmuxd.Base.Bytes.{u16_be, u32_be, u16_mod}

abbrev pub v1_header_size : ℕ
v1_header_size = 8

abbrev pub v2_header_size : ℕ
v2_header_size = 16

abbrev pub mux_magic : ℕ
mux_magic = 0xfeedface

abbrev pub tcp_header_size : ℕ
tcp_header_size = 20

-- 3 * 16384
abbrev pub usb_mtu : ℕ
usb_mtu = 49152

-- USB_MTU - V2_HEADER_SIZE - TCP_HEADER_SIZE
abbrev pub max_payload : ℕ
max_payload = 49116

abbrev pub mux_header_size : ℕ → ℕ
mux_header_size version = if ltb version 2 then v1_header_size else v2_header_size

pub data Proto : Type 0 where
  version control setup tcp : Proto

-- `proto as u32`
abbrev pub proto_code : Proto → ℕ
proto_code version = 0
proto_code control = 1
proto_code setup = 2
proto_code tcp = 6

-- The failures that the mux code reports, and the answers that a `connect` may get.
pub data IoError : Type 0 where
  packet_too_large : ℕ → IoError
  writer_task_gone : IoError
  mux_header_too_short : IoError
  tcp_packet_too_short : IoError
  tcp_header_too_short : IoError
  unexpected_eof : IoError
  implausible_length : ℕ → IoError
  expected_version : ℕ → IoError
  version_payload_too_short : IoError
  unsupported_version : ℕ → ℕ → IoError
  device_refused : ℕ → List ℕ → IoError
  closed_connection : IoError
  dropped_reply : IoError

abbrev pub Io {ℓ} : Type ℓ → Type ℓ
Io A = Result IoError A

pub record MuxState : Type 0 where
  pub version : ℕ
  pub tx_seq : ℕ
  pub rx_seq : ℕ

-- `MuxState::default()`
abbrev pub default_state : MuxState
default_state = record { version = 0; tx_seq = 0; rx_seq = 0 }

-- The state with the channel to the writer task: the frames sent into it, oldest first, and
-- whether the task still holds the receiving end.
pub record Wire : Type 0 where
  pub state : MuxState
  pub writer_open : Bool
  pub sent : List (List ℕ)

unfoldable pub reset_sequence : MuxState → Bool → MuxState
reset_sequence s reset_seq =
    if reset_seq && leb 2 s.version then record s { tx_seq = 0; rx_seq = 0xffff } else s

unfoldable pub mux_header : MuxState → Proto → ℕ → List ℕ
unfolding u16_be u32_be
mux_header s proto total =
    if leb 2 s.version
    then u32_be (proto_code proto)
      ++ u32_be total
      ++ u32_be mux_magic
      ++ u16_be s.tx_seq
      ++ u16_be s.rx_seq
    else u32_be (proto_code proto) ++ u32_be total

unfoldable pub advance_sequence : MuxState → MuxState
advance_sequence s = if leb 2 s.version then record s { tx_seq = (s.tx_seq + 1) % u16_mod } else s

unfoldable pub send_frame : Wire → List ℕ → Wire × Io (Unit {0})
send_frame w frame =
    if w.writer_open
    then (record w { sent = w.sent ++ frame ∷ [] }, ok tt)
    else (w, err writer_task_gone)

unfoldable pub send_raw : Wire → Proto → List ℕ → List ℕ → Bool → Wire × Io (Unit {0})
send_raw w proto header payload reset_seq =
    let total = mux_header_size w.state.version + length header + length payload in
    let s = reset_sequence w.state reset_seq in
    if ltb usb_mtu total
    then (w, err (packet_too_large total))
    else send_frame (record w { state = advance_sequence s })
        (mux_header s proto total ++ (header ++ payload))

-- The payload is twelve bytes: the two numbers and four zeros.
unfoldable pub send_version : Wire → ℕ → ℕ → Wire × Io (Unit {0})
send_version w major minor =
    send_raw w version (u32_be major ++ u32_be minor ++ 0 ∷ 0 ∷ 0 ∷ 0 ∷ []) [] false
