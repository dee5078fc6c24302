-- ===== src/Tests/MuxRuns.antt =====
-- The mux task of src/usb/mux.rs on concrete inputs.
use netmuxd.Base.{
  ℕ, ◌≤◌, ◌≡◌, ◌↔◌, refl, true, List, [], ◌∷◌, ◌++◌, none, ok, arith, length, drop, flatten,
}
use netmuxd.Base.Dict.{get, insert, remove}
use netmuxd.Base.Bytes.{u16_be, u32_be}
use netmuxd.Mux.Wire.{
  Wire, Proto, default_state, send_raw, send_frame, mux_header, reset_sequence, advance_sequence,
  unexpected_eof, send_version,
}
use netmuxd.Mux.Frames.{parse_tcp, parse_header, read_exact, read_body, read_frame, read_frames}
use netmuxd.Mux.Connection.{
  Connection, connected, tcp_header, send_tcp, after_chunk, flush_round, after_round, flush_loop,
  resume_pump, finish_flush, flush_pending,
}
use netmuxd.Mux.Incoming.{
  put, reply, teardown, send_ignored, after_send, send_or_fail, establish, handle_connecting,
  dispatch_state, handle_segment, handle_tcp, handle_incoming,
}
use netmuxd.Mux.Loop.{
  Event, connect, shutdown, packet, Task, running, exited, start_mux, insert_connection, after_syn,
  open_connection, close_one, close_each, close_all, step, run_loop, note_sequence, handle_packet,
  new_connection,
}
use netmuxd.Mux.Handshake.{
  started, handshake, check_version, after_setup, send_setup, take_answer, after_version,
}
use netmuxd.Mux.Framing.{IsFrame, parse_tcp-tcp_header, read_frame-send_raw, read_frame_inv}
use netmuxd.Mux.Startup.{version_frame, setup_frame, wire_after, IsVersionTwo, handshake_iff}
use netmuxd.Mux.Sent.{Numbered, read_frames-run_loop, run_loop-Numbered}
use netmuxd.Mux.Flow.{Flushed, flush_pending_lem}
use netmuxd.Mux.Answers.{answered}
use netmuxd.Mux.Once.{received, answered-le-received, answered-exited}
use netmuxd.Mux.Steps.{task_mux}

abbrev new_wire : Wire
new_wire = record { state = default_state; writer_open = true; sent = [] }

abbrev v2_wire : Wire
v2_wire = wire_after new_wire

-- A connection of port 1 to port 62078, connected, with three bytes waiting and a window of two.
abbrev waiting_connection : Connection
waiting_connection = record (new_connection 1 62078 7) {
  state = connected;
  connect_reply = none;
  tx_seq = 1;
  rx_ack = 1;
  rx_win = 2;
  pending_tx = 10 ∷ 20 ∷ 30 ∷ [];
}

-- The names that a run computes with.
mux_code : Unit {0}
unfolding get insert remove u16_be u32_be send_raw send_frame mux_header reset_sequence
    advance_sequence send_version parse_tcp parse_header read_exact read_body read_frame read_frames
    tcp_header send_tcp after_chunk flush_round after_round flush_loop resume_pump finish_flush
    flush_pending put reply teardown send_ignored after_send send_or_fail establish
    handle_connecting dispatch_state handle_segment handle_tcp handle_incoming insert_connection
    after_syn open_connection close_one close_each close_all step run_loop note_sequence
    handle_packet handshake check_version after_setup send_setup take_answer after_version received
mux_code = tt

answer_read : read_frame version_frame ≡ ok (version_frame, [])
unfolding mux_code
answer_read = refl

handshake_run : handshake new_wire version_frame ≡ started v2_wire []
handshake_run =
    (handshake_iff new_wire version_frame v2_wire [] refl).1
      (version_frame, answer_read, omega arith, refl)

handshake_iff_example : (handshake new_wire version_frame ≡ started v2_wire []) ↔ (
    (pkt : List ℕ) × (read_frame version_frame ≡ ok (pkt, []))
    × IsVersionTwo pkt
    × (v2_wire ≡ wire_after new_wire))
handshake_iff_example = handshake_iff new_wire version_frame v2_wire [] refl

-- Two calls; the device takes the first and the task is told to stop.
abbrev syn_ack_packet : List ℕ
syn_ack_packet =
    0 ∷ 0 ∷ 0 ∷ 6 ∷ 0 ∷ 0 ∷ 0 ∷ 36 ∷ 0 ∷ 0 ∷ 0 ∷ 0 ∷ 0 ∷ 0 ∷ 0 ∷ 1 ∷ 0xf2 ∷ 0x7e ∷ 0 ∷ 1 ∷ 0 ∷ 0 ∷ 0
    ∷ 0 ∷ 0 ∷ 0 ∷ 0 ∷ 1 ∷ 80 ∷ 0x12 ∷ 2 ∷ 0 ∷ 0 ∷ 0 ∷ 0 ∷ 0 ∷ []

abbrev events : List Event
events = connect 7 62078 ∷ connect 8 80 ∷ packet syn_ack_packet ∷ shutdown ∷ []

abbrev final : Task
final = run_loop (running (start_mux v2_wire)) events

first_call_answered : answered 7 (task_mux final).replies ≡ 1
unfolding mux_code
first_call_answered = refl

final_exited : final ≡ exited (task_mux final)
unfolding mux_code
final_exited = refl

answered-exited_example :
    ((task_mux final).connections ≡ [])
    × (answered 8 (task_mux final).replies ≡ received 8 (running (start_mux v2_wire)) events)
answered-exited_example = answered-exited 8 v2_wire events (task_mux final) final_exited

answered-le-received_example :
    answered 7 (task_mux final).replies ≤ received 7 (running (start_mux v2_wire)) events
answered-le-received_example = answered-le-received 7 v2_wire events

read_frames-run_loop_example :
    read_frames (length (flatten (task_mux final).wire.sent)) (flatten (task_mux final).wire.sent)
    ≡ ((task_mux final).wire.sent, unexpected_eof)
read_frames-run_loop_example =
    read_frames-run_loop new_wire v2_wire version_frame [] events refl refl handshake_run

run_loop-Numbered_example :
    (fs : List (List ℕ)) × ((task_mux final).wire.sent ≡ version_frame ∷ setup_frame ∷ fs)
    × Numbered 0 (setup_frame ∷ fs)
run_loop-Numbered_example =
    run_loop-Numbered new_wire v2_wire version_frame [] events refl refl handshake_run

parse_tcp-tcp_header_example :
    parse_tcp (tcp_header waiting_connection 0x10)
    ≡ ok (record { src_port = 1; dst_port = 62078; seq = 1; ack = 0; flags = 0x10; window = 512 })
parse_tcp-tcp_header_example = parse_tcp-tcp_header waiting_connection 0x10 (omega arith)

read_frame-send_raw_example :
    (frame : List ℕ) × ((send_raw v2_wire Proto.setup [] (7 ∷ []) true).0.sent
      ≡ v2_wire.sent ++ frame ∷ [])
    × ((send_raw v2_wire Proto.setup [] (7 ∷ []) true).1 ≡ ok tt)
    × (read_frame (frame ++ (1 ∷ 2 ∷ [])) ≡ ok (frame, 1 ∷ 2 ∷ []))
    × (parse_header frame 2 ≡ ok 2)
    × (drop 16 frame ≡ 7 ∷ [])
read_frame-send_raw_example =
    read_frame-send_raw v2_wire Proto.setup [] (7 ∷ []) true (1 ∷ 2 ∷ []) refl (omega arith)
      (omega arith)

read_frame_inv_example : (version_frame ≡ version_frame ++ []) × IsFrame version_frame
read_frame_inv_example = read_frame_inv version_frame version_frame [] answer_read

flush_pending_lem_example :
    (w' : Wire) × (c' : Connection) × (flush_pending v2_wire waiting_connection
      ≡ (w', resume_pump c', ok tt))
    × Flushed v2_wire waiting_connection w' c'
flush_pending_lem_example = flush_pending_lem v2_wire waiting_connection (record {
  alive = refl;
  is_v2 = refl;
  tx_seq_fits = omega arith;
  rx_ack_fits = omega arith;
  rx_win_fits = omega arith;
})
