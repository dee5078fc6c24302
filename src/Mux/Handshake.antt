-- ===== src/Mux/Handshake.antt =====
-- src/usb/mux.rs, `run` up to the loop: VERSION 2.0 out, the device's answer in, SETUP out.
use netmuxd.Base.{
  ℕ, true, List, [], ◌∷◌, length, drop, ltb, ◌==◌, if◌then◌else◌, ok, err, ◌>>=◌, not,
}
use netmuxd.Base.Bytes.{u32_at}
use netmuxd.Mux.Wire.{
  Io, IoError, MuxState, Wire, proto_code, default_state, send_version, send_raw, setup, version,
  mux_header_size, expected_version, version_payload_too_short, unsupported_version,
}
use netmuxd.Mux.Frames.{parse_header, read_frame}

-- The answer is still in v1 framing; a good one makes the state a v2 one.
unfoldable pub check_version : List ℕ → MuxState → Io MuxState
check_version pkt s =
    let payload = drop (mux_header_size s.version) pkt in
    parse_header pkt s.version >>= (λ protocol.
      if not (protocol == proto_code version)
      then err (expected_version protocol)
      else if ltb (length payload) 12
      then err version_payload_too_short
      else if not (u32_at 0 payload == 2)
      then err (unsupported_version (u32_at 0 payload) (u32_at 4 payload))
      else ok (record s { version = 2 }))

-- The task ends with an error, or the loop begins; the bytes behind the answer are left to the
-- reader task.
pub data Startup : Type 0 where
  startup_failed : Wire → IoError → Startup
  started : Wire → List ℕ → Startup

unfoldable pub after_setup : List ℕ → Wire × Io (Unit {0}) → Startup
after_setup rest (w, ok _) = started w rest
after_setup rest (w, err e) = startup_failed w e

unfoldable pub send_setup : Wire → List ℕ → Io MuxState → Startup
send_setup w rest (ok s) =
    after_setup rest (send_raw (record w { state = s }) setup [] (0x07 ∷ []) true)
send_setup w rest (err e) = startup_failed w e

unfoldable pub take_answer : Wire → Io (List ℕ × List ℕ) → Startup
take_answer w (ok (pkt, rest)) = send_setup w rest (check_version pkt w.state)
take_answer w (err e) = startup_failed w e

unfoldable pub after_version : List ℕ → Wire × Io (Unit {0}) → Startup
after_version bytes (w, ok _) = take_answer w (read_frame bytes)
after_version bytes (w, err e) = startup_failed w e

-- `bytes` is what the device sends.
unfoldable pub handshake : Wire → List ℕ → Startup
handshake w bytes = after_version bytes (send_version (record w { state = default_state }) 2 0)
