-- ===== src/Mux/Loop.antt =====
-- src/usb/mux.rs, `run`: the handshake, the event loop and the end of the mux task.
use netmuxd.Base.{
  ℕ, ◌+◌, ◌-◌, ◌%◌, max, Bool, true, false, ◌&&◌, List, [], ◌∷◌, ◌++◌, Option, some, none, length,
  ltb, leb, case_option, if◌then◌else◌, ok, err,
}
use netmuxd.Base.Bytes.{u16_at, u16_mod}
use netmuxd.Base.Dict.{get, keys}
use netmuxd.Mux.Wire.{Io, MuxState, Wire, v2_header_size, max_payload, dropped_reply}
use netmuxd.Mux.Connection.{
  Connection, ConnState, connecting, connected, dead, syn, ack, rst, send_tcp, flush_pending,
  tx_drained, receive_window, tx_high_water,
}
use netmuxd.Mux.Incoming.{Mux, put, reply, teardown, send_ignored, handle_incoming}

-- What the loop waits for, and what the tasks around it may do in between: the writer task or a
-- forwarder task ends.
pub data Event : Type 0 where
  connect : ℕ → ℕ → Event
  shutdown : Event
  user_data : ℕ → List ℕ → Event
  user_closed : ℕ → Event
  drained : ℕ → ℕ → Event
  packet : List ℕ → Event
  reader_failed : Event
  writer_ended : Event
  forwarder_ended : ℕ → Event

abbrev pub new_connection : ℕ → ℕ → ℕ → Connection
new_connection sport port id = record {
  sport = sport;
  dport = port;
  state = connecting;
  tx_seq = 0;
  tx_ack = 0;
  rx_seq = 0;
  rx_ack = 0;
  rx_win = 0;
  connect_reply = some id;
  rx_tx = none;
  rx_buffered = 0;
  pending_tx = [];
  client_closed = false;
  tx_pause = false;
  tx_resume = false;
}

-- `connections.insert(sport, conn)`: a connection that the key still holds is dropped, and with it
-- the sender of its answer, which the caller sees as a failure of its own.
unfoldable pub insert_connection : Mux → ℕ → Connection → Mux
insert_connection m k c =
    case_option (get k m.connections) (put m k c)
      λ old. put (reply m old.connect_reply (err dropped_reply)) k c

unfoldable pub after_syn : Mux → ℕ → Connection → ℕ → Wire × Io (Unit {0}) → Mux
after_syn m k c id (w, ok _) = insert_connection (record m { wire = w }) k c
after_syn m k c id (w, err e) = reply (record m { wire = w }) (some id) (err e)

-- `Command::Connect`: `id` names the call, `port` the port on the device.
unfoldable pub open_connection : Mux → ℕ → ℕ → Mux
open_connection m id port =
    let c = new_connection m.next_sport port id in
    after_syn (record m { next_sport = max ((m.next_sport + 1) % u16_mod) 1 }) m.next_sport c id
      (send_tcp m.wire c syn [])

-- The pump is told to pause once more than the high mark is waiting.
unfoldable pub pause_pump : Connection → Connection
pause_pump c = if ltb tx_high_water (length c.pending_tx) then record c { tx_pause = true } else c

unfoldable pub after_push : Mux → ℕ → Wire × Connection × Io (Unit {0}) → Mux
after_push m k (w, c, ok _) = put (record m { wire = w }) k (pause_pump c)
after_push m k (w, c, err e) = teardown (put (record m { wire = w }) k c) k

unfoldable pub push_data : Mux → ℕ → Connection → List ℕ → Mux
push_data m k c bytes =
    after_push m k (flush_pending m.wire (record c { pending_tx = c.pending_tx ++ bytes }))

unfoldable pub reset_and_teardown : Mux → ℕ → Connection → Mux
reset_and_teardown m k c = teardown (put (send_ignored m c rst) k c) k

unfoldable pub after_close : Mux → ℕ → Wire × Connection × Io (Unit {0}) → Mux
after_close m k (w, c, ok _) =
    if tx_drained c
    then reset_and_teardown (record m { wire = w }) k c
    else put (record m { wire = w }) k c
after_close m k (w, c, err e) = reset_and_teardown (record m { wire = w }) k c

unfoldable pub close_user : Mux → ℕ → Connection → Mux
close_user m k c = after_close m k (flush_pending m.wire (record c { client_closed = true }))

abbrev pub is_connected : ConnState → Bool
is_connected connected = true
is_connected connecting = false
is_connected dead = false

-- `rx_data.recv()`: bytes of an unknown or unconnected port are dropped.
unfoldable pub with_connected : Mux → ℕ → (Connection → Mux) → Mux
with_connected m k next =
    case_option (get k m.connections) m λ c. if is_connected c.state then next c else m

-- `drain_rx.recv()`: a window that was too small for a full payload and no longer is, is told to
-- the device.
unfoldable pub note_drained : Mux → ℕ → Connection → ℕ → Mux
note_drained m k c n =
    let c' = record c { rx_buffered = c.rx_buffered - n } in
    if is_connected c.state
      && ltb (receive_window c) max_payload
      && leb max_payload (receive_window c')
    then send_ignored (put m k c') c' ack
    else put m k c'

unfoldable pub handle_drained : Mux → ℕ → ℕ → Mux
handle_drained m k n = case_option (get k m.connections) m λ c. note_drained m k c n

-- The device's sequence number is kept before the packet is looked at. A packet that the handler
-- refuses is logged, and the loop goes on.
unfoldable pub note_sequence : MuxState → List ℕ → MuxState
note_sequence s pkt =
    if leb 2 s.version && leb v2_header_size (length pkt)
    then record s { rx_seq = u16_at 14 pkt }
    else s

unfoldable pub handle_packet : Mux → List ℕ → Mux
handle_packet m pkt =
    (handle_incoming
      (record m { wire = record (m.wire) { state = note_sequence m.wire.state pkt } }) pkt).0

unfoldable pub close_channel : Option Bool → Option Bool
close_channel none = none
close_channel (some is_open) = some false

unfoldable pub end_forwarder : Mux → ℕ → Mux
end_forwarder m k =
    case_option (get k m.connections) m λ c. put m k (record c { rx_tx = close_channel c.rx_tx })

-- The best-effort RST of every connection that is left.
unfoldable pub close_one : Mux → ℕ → Mux
close_one m k =
    case_option (get k m.connections) (teardown m k) λ c. teardown (send_ignored m c rst) k

unfoldable pub close_each : Mux → List ℕ → Mux
close_each m [] = m
close_each m (k ∷ ks) = close_each (close_one m k) ks

unfoldable pub close_all : Mux → Mux
close_all m = close_each m (keys m.connections)

pub data Task : Type 0 where
  running : Mux → Task
  exited : Mux → Task

unfoldable pub step : Mux → Event → Task
step m (connect id port) = running (open_connection m id port)
step m shutdown = exited (close_all m)
step m (user_data k bytes) = running (with_connected m k (λ c. push_data m k c bytes))
step m (user_closed k) = running (with_connected m k (λ c. close_user m k c))
step m (drained k n) = running (handle_drained m k n)
step m (packet pkt) = running (handle_packet m pkt)
step m reader_failed = exited (close_all m)
step m writer_ended = running (record m { wire = record (m.wire) { writer_open = false } })
step m (forwarder_ended k) = running (end_forwarder m k)

-- The events after the end are never received.
unfoldable pub run_loop : Task → List Event → Task
run_loop t [] = t
run_loop (exited m) (e ∷ es) = exited m
run_loop (running m) (e ∷ es) = run_loop (step m e) es

-- What `run` holds when the loop begins.
abbrev pub start_mux : Wire → Mux
start_mux w = record { wire = w; connections = []; next_sport = 1; replies = []; delivered = [] }
