-- ===== src/Mux/Incoming.antt =====
-- src/usb/mux.rs: what a packet from the device does to its connection.
use netmuxd.Base.{
  ℕ, ◌+◌, ◌*◌, ◌%◌, min, bit_and, Bool, true, false, ◌&&◌, List, [], ◌∷◌, ◌++◌, Option, some, none,
  length, is_empty, take, drop, ltb, ◌==◌, case_option, if◌then◌else◌, ok, err, not,
}
use netmuxd.Base.Bytes.{u32_mod}
use netmuxd.Base.Dict.{get, insert, remove}
use netmuxd.Mux.Wire.{
  Io, Wire, proto_code, tcp, mux_header_size, tcp_header_size, tcp_packet_too_short, device_refused,
  closed_connection,
}
use netmuxd.Mux.Frames.{ParsedTcp, parse_header, parse_tcp}
use netmuxd.Mux.Connection.{
  Connection, ConnState, connecting, connected, dead, syn_ack, ack, rst, send_tcp, flush_pending,
  tx_drained,
}

-- The locals of `run`. `replies` are the answers given to the calls of `connect`, and `delivered`
-- the chunks handed to the forwarder tasks, both oldest first.
pub record Mux : Type 0 where
  pub wire : Wire
  pub connections : List (ℕ × Connection)
  pub next_sport : ℕ
  pub replies : List (ℕ × Io (Unit {0}))
  pub delivered : List (ℕ × List ℕ)

-- The write through a `&mut Connection` into the map.
unfoldable pub put : Mux → ℕ → Connection → Mux
put m k c = record m { connections = insert k c m.connections }

-- `if let Some(reply) = conn.connect_reply.take() { reply.send(..) }`
unfoldable pub reply : Mux → Option ℕ → Io (Unit {0}) → Mux
reply m none r = m
reply m (some id) r = record m { replies = m.replies ++ (id, r) ∷ [] }

unfoldable pub teardown : Mux → ℕ → Mux
teardown m k = case_option (get k m.connections) m λ c.
    reply (record m { connections = remove k m.connections }) c.connect_reply
      (err closed_connection)

-- `let _ = send_tcp(..)`: a failure is not looked at.
unfoldable pub send_ignored : Mux → Connection → ℕ → Mux
send_ignored m c flags = record m { wire = (send_tcp m.wire c flags []).0 }

-- `send_tcp(..)?` before `next`; a failure ends the handler.
unfoldable pub after_send :
    Mux → ℕ → Connection → (Mux → Mux × Io (Unit {0})) → Wire × Io (Unit {0}) → Mux × Io (Unit {0})
after_send m k c next (w, ok _) = next (record m { wire = w })
after_send m k c next (w, err e) = (put (record m { wire = w }) k c, err e)

unfoldable pub send_or_fail :
    Mux → ℕ → Connection → ℕ → (Mux → Mux × Io (Unit {0})) → Mux × Io (Unit {0})
send_or_fail m k c flags next = after_send m k c next (send_tcp m.wire c flags [])

abbrev pub has_rst : ℕ → Bool
has_rst flags = not (bit_and flags rst == 0)

-- The connection that a stray segment is answered from.
abbrev pub anonymous : ParsedTcp → Connection
anonymous th = record {
  sport = th.dst_port;
  dport = th.src_port;
  state = dead;
  tx_seq = 0;
  tx_ack = th.seq;
  rx_seq = 0;
  rx_ack = 0;
  rx_win = 0;
  connect_reply = none;
  rx_tx = none;
  rx_buffered = 0;
  pending_tx = [];
  client_closed = false;
  tx_pause = false;
  tx_resume = false;
}

unfoldable pub handle_stray : Mux → ParsedTcp → Mux
handle_stray m th = if has_rst th.flags then m else send_ignored m (anonymous th) rst

-- SYN/ACK: the pump and forwarder tasks start, and the caller gets its stream.
unfoldable pub establish : Mux → ℕ → Connection → Mux
establish m k c =
    put (reply m c.connect_reply (ok tt)) k
      (record c { state = connected; rx_tx = some true; connect_reply = none })

unfoldable pub handle_connecting : Mux → ℕ → Connection → ParsedTcp → List ℕ → Mux × Io (Unit {0})
handle_connecting m k c th payload =
    let c' = record c { tx_seq = (c.tx_seq + 1) % u32_mod; tx_ack = (c.tx_ack + 1) % u32_mod } in
    if th.flags == syn_ack then send_or_fail m k c' ack (λ m'. (establish m' k c', ok tt)) else (
      teardown
          (put (reply m c.connect_reply (err (device_refused th.flags payload))) k
            (record c { connect_reply = none }))
          k,
      ok tt,
    )

-- `conn.rx_tx.as_ref().is_some_and(|tx| tx.send(..).is_ok())`
abbrev pub can_deliver : Option Bool → Bool
can_deliver none = false
can_deliver (some is_open) = is_open

-- The last step of a segment: the close that waited for the flush.
unfoldable pub finish_close : Mux → ℕ → Connection → Mux × Io (Unit {0})
finish_close m k c =
    if c.client_closed && tx_drained c
    then send_or_fail m k c rst (λ m'. (teardown (put m' k c) k, ok tt))
    else (put m k c, ok tt)

unfoldable pub after_flush : Mux → ℕ → Wire × Connection × Io (Unit {0}) → Mux × Io (Unit {0})
after_flush m k (w, c, ok _) = finish_close (record m { wire = w }) k c
after_flush m k (w, c, err e) = (put (record m { wire = w }) k c, err e)

unfoldable pub flush_and_close : Mux → ℕ → Connection → Mux × Io (Unit {0})
flush_and_close m k c = after_flush m k (flush_pending m.wire c)

-- `u32::saturating_add` and `u32::wrapping_add` of the payload's length.
abbrev pub receive : Connection → List ℕ → Connection
receive c payload = record c {
  rx_buffered = min (c.rx_buffered + length payload % u32_mod) 4294967295;
  tx_ack = (c.tx_ack + length payload % u32_mod) % u32_mod;
}

unfoldable pub handle_payload : Mux → ℕ → Connection → List ℕ → Mux × Io (Unit {0})
handle_payload m k c payload =
    let delivered = record m { delivered = m.delivered ++ (k, payload) ∷ [] } in
    if is_empty payload
    then flush_and_close m k c
    else if can_deliver c.rx_tx
    then send_or_fail delivered k (receive c payload) ack
        (λ m'. flush_and_close m' k (receive c payload))
    else (teardown (put (send_ignored m c rst) k c) k, ok tt)

unfoldable pub handle_connected : Mux → ℕ → Connection → ParsedTcp → List ℕ → Mux × Io (Unit {0})
handle_connected m k c th payload =
    if has_rst th.flags
    then (teardown (put m k c) k, ok tt)
    else if not (th.flags == ack)
    then (teardown (put m k c) k, ok tt)
    else handle_payload m k c payload

-- The acknowledgement and the window of the device, kept from every segment.
abbrev pub note_header : Connection → ParsedTcp → Connection
note_header c th = record c { rx_seq = th.seq; rx_ack = th.ack; rx_win = th.window * 256 }

unfoldable pub dispatch_state :
    ConnState → Mux → ℕ → Connection → ParsedTcp → List ℕ → Mux × Io (Unit {0})
dispatch_state connecting m k c th payload = handle_connecting m k c th payload
dispatch_state connected m k c th payload = handle_connected m k c th payload
dispatch_state dead m k c th payload = (put m k c, ok tt)

unfoldable pub handle_segment : Mux → ParsedTcp → List ℕ → Mux × Io (Unit {0})
handle_segment m th payload =
    case_option (get th.dst_port m.connections) (handle_stray m th, ok tt)
      λ c. dispatch_state c.state m th.dst_port (note_header c th) th payload

unfoldable pub handle_tcp : Mux → List ℕ → Mux × Io (Unit {0})
handle_tcp m pkt =
    let size = mux_header_size m.wire.state.version in
    if ltb (length pkt) (size + tcp_header_size)
    then (m, err tcp_packet_too_short)
    else elim (parse_tcp (take tcp_header_size (drop size pkt))) [
      | ok th ↦ handle_segment m th (drop (size + tcp_header_size) pkt)
      | err e ↦ (m, err e)
    ]

-- Control messages, late version messages and unknown protocols are logged only.
unfoldable pub handle_incoming : Mux → List ℕ → Mux × Io (Unit {0})
handle_incoming m pkt = elim (parse_header pkt m.wire.state.version) [
  | ok protocol ↦ if protocol == proto_code tcp then handle_tcp m pkt else (m, ok tt)
  | err e ↦ (m, err e)
]
