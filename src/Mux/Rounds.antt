-- ===== src/Mux/Rounds.antt =====
-- src/usb/mux.rs: what every send keeps, the loop of the mux task keeps.
use netmuxd.Base.{ℕ, false, List, [], ◌∷◌, some, ok, err, arith}
use netmuxd.Mux.Wire.{Wire, Io}
use netmuxd.Mux.Connection.{Connection, send_tcp}
use netmuxd.Mux.Incoming.{Mux, put}
use netmuxd.Mux.Loop.{
  Event, connect, shutdown, user_data, user_closed, drained, packet, reader_failed, writer_ended,
  forwarder_ended, Task, running, exited, insert_connection, after_syn, open_connection, after_push,
  push_data, reset_and_teardown, after_close, close_user, with_connected, note_drained,
  handle_drained, note_sequence, handle_packet, end_forwarder, close_one, close_each, close_all,
  step, run_loop,
}
use netmuxd.Mux.Steps.{
  task_mux, flush_pending-P, send_ignored-P, teardown-P, reply-P, handle_incoming-P,
}

module _ (P : Wire → Type 0)
    (sends : (w : Wire) (c : Connection) (flags : ℕ) (payload : List ℕ)
      → P w
      → P (send_tcp w c flags payload).0)
    (notes : (w : Wire) (pkt : List ℕ) → P w → P (record w { state = note_sequence w.state pkt }))
    (closes : (w : Wire) → P w → P (record w { writer_open = false })) where
  insert_connection-P :
      (m : Mux) (k : ℕ) (c : Connection) → P m.wire → P (insert_connection m k c).wire
  unfolding insert_connection put
  insert_connection-P m k c p = grind (arith, (reply-P P sends notes closes))

  after_syn-P :
      (m : Mux) (k : ℕ) (c : Connection) (id : ℕ) (r : Wire × Io (Unit {0}))
      → P r.0
      → P (after_syn m k c id r).wire
  unfolding after_syn
  after_syn-P m k c id (w, ok _) p = insert_connection-P (record m { wire = w }) k c p
  after_syn-P m k c id (w, err e) p =
      (reply-P P sends notes closes) (record m { wire = w }) (some id) (err e) p

  open_connection-P : (m : Mux) (id port : ℕ) → P m.wire → P (open_connection m id port).wire
  unfolding open_connection
  open_connection-P m id port p = after_syn-P _ _ _ id _ (sends m.wire _ _ [] p)

  after_push-P :
      (m : Mux) (k : ℕ) (r : Wire × Connection × Io (Unit {0})) → P r.0 → P (after_push m k r).wire
  unfolding after_push put
  after_push-P m k (w, c, ok _) p = p
  after_push-P m k (w, c, err e) p = (teardown-P P sends notes closes) _ k p

  push_data-P :
      (m : Mux) (k : ℕ) (c : Connection) (bytes : List ℕ)
      → P m.wire
      → P (push_data m k c bytes).wire
  unfolding push_data
  push_data-P m k c bytes p = after_push-P m k _ ((flush_pending-P P sends notes closes) m.wire _ p)

  reset_and_teardown-P :
      (m : Mux) (k : ℕ) (c : Connection) → P m.wire → P (reset_and_teardown m k c).wire
  unfolding reset_and_teardown put
  reset_and_teardown-P m k c p =
      (teardown-P P sends notes closes) _ k ((send_ignored-P P sends notes closes) m c _ p)

  after_close-P :
      (m : Mux) (k : ℕ) (r : Wire × Connection × Io (Unit {0})) → P r.0 → P (after_close m k r).wire
  unfolding after_close put
  after_close-P m k (w, c, ok _) p = grind (arith, reset_and_teardown-P)
  after_close-P m k (w, c, err e) p = reset_and_teardown-P _ k c p

  close_user-P : (m : Mux) (k : ℕ) (c : Connection) → P m.wire → P (close_user m k c).wire
  unfolding close_user
  close_user-P m k c p = after_close-P m k _ ((flush_pending-P P sends notes closes) m.wire _ p)

  with_connected-P :
      (m : Mux) (k : ℕ) (next : Connection → Mux)
      → P m.wire
      → ((c : Connection) → P (next c).wire)
      → P (with_connected m k next).wire
  unfolding with_connected
  with_connected-P m k next p later = grind (arith, later)

  handle_drained-P : (m : Mux) (k n : ℕ) → P m.wire → P (handle_drained m k n).wire
  unfolding handle_drained note_drained put
  handle_drained-P m k n p = grind (arith, (send_ignored-P P sends notes closes))

  handle_packet-P : (m : Mux) (pkt : List ℕ) → P m.wire → P (handle_packet m pkt).wire
  unfolding handle_packet
  handle_packet-P m pkt p = (handle_incoming-P P sends notes closes) _ pkt (notes m.wire pkt p)

  end_forwarder-P : (m : Mux) (k : ℕ) → P m.wire → P (end_forwarder m k).wire
  unfolding end_forwarder put
  end_forwarder-P m k p = ground arith

  close_one-P : (m : Mux) (k : ℕ) → P m.wire → P (close_one m k).wire
  unfolding close_one
  close_one-P m k p =
      grind (arith, (teardown-P P sends notes closes), (send_ignored-P P sends notes closes))

  close_each-P : (m : Mux) (ks : List ℕ) → P m.wire → P (close_each m ks).wire
  unfolding close_each
  close_each-P m [] p = p
  close_each-P m (k ∷ ks) p = close_each-P (close_one m k) ks (close_one-P m k p)

  close_all-P : (m : Mux) → P m.wire → P (close_all m).wire
  unfolding close_all
  close_all-P m p = close_each-P m _ p

  pub step-P : (m : Mux) (e : Event) → P m.wire → P (task_mux (step m e)).wire
  unfolding step
  step-P m (connect id port) p = open_connection-P m id port p
  step-P m shutdown p = close_all-P m p
  step-P m (user_data k bytes) p = with_connected-P m k _ p (λ c. push_data-P m k c bytes p)
  step-P m (user_closed k) p = with_connected-P m k _ p (λ c. close_user-P m k c p)
  step-P m (drained k n) p = handle_drained-P m k n p
  step-P m (packet pkt) p = handle_packet-P m pkt p
  step-P m reader_failed p = close_all-P m p
  step-P m writer_ended p = closes m.wire p
  step-P m (forwarder_ended k) p = end_forwarder-P m k p

  pub run_loop-P :
      (t : Task) (es : List Event) → P (task_mux t).wire → P (task_mux (run_loop t es)).wire
  unfolding run_loop
  run_loop-P t [] p = p
  run_loop-P (exited m) (e ∷ es) p = p
  run_loop-P (running m) (e ∷ es) p = run_loop-P (step m e) es (step-P m e p)
