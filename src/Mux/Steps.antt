-- ===== src/Mux/Steps.antt =====
-- src/usb/mux.rs: what every send keeps, every step of the mux task keeps. The section's parameter
-- is a property of the wire.
use netmuxd.Base.{
  ℕ, zero, suc, false, List, [], Option, some, none, ok, err, ◌≡◌, refl, sym, subst, arith,
  case_rule, length,
}
use netmuxd.Base.Dict.{get}
use netmuxd.Mux.Wire.{Wire, Io}
use netmuxd.Mux.Frames.{ParsedTcp}
use netmuxd.Mux.Connection.{
  Connection, ConnState, connecting, connected, dead, Round, done, failed, more, send_tcp,
  after_chunk, after_round, flush_round, flush_loop, finish_flush, flush_pending,
}
use netmuxd.Mux.Incoming.{
  Mux, put, reply, teardown, send_ignored, after_send, send_or_fail, handle_stray, establish,
  handle_connecting, finish_close, after_flush, flush_and_close, handle_payload, handle_connected,
  dispatch_state, handle_segment, handle_tcp, handle_incoming,
}
use netmuxd.Mux.Loop.{Task, running, exited, note_sequence}

pub wire-reply : (m : Mux) (o : Option ℕ) (r : Io (Unit {0})) → (reply m o r).wire ≡ m.wire
unfolding reply
wire-reply m none r = refl
wire-reply m (some id) r = refl

pub wire-teardown : (m : Mux) (k : ℕ) → (teardown m k).wire ≡ m.wire
unfolding teardown
wire-teardown m k =
    case_rule (λ (n : Mux). n.wire ≡ m.wire) (get k m.connections) (λ _. refl)
      (λ c _. wire-reply _ c.connect_reply _)

abbrev pub task_mux : Task → Mux
task_mux (running m) = m
task_mux (exited m) = m

module _ (P : Wire → Type 0)
    (sends : (w : Wire) (c : Connection) (flags : ℕ) (payload : List ℕ)
      → P w
      → P (send_tcp w c flags payload).0)
    (notes : (w : Wire) (pkt : List ℕ) → P w → P (record w { state = note_sequence w.state pkt }))
    (closes : (w : Wire) → P w → P (record w { writer_open = false })) where
  RoundP : Round → Type 0
  RoundP done = Unit
  RoundP (failed w c e) = P w
  RoundP (more w c) = P w

  after_chunk-P :
      (c : Connection) (n : ℕ) (r : Wire × Io (Unit {0})) → P r.0 → RoundP (after_chunk c n r)
  unfolding after_chunk RoundP
  after_chunk-P c n (w, ok _) p = p
  after_chunk-P c n (w, err e) p = p

  flush_round-P : (w : Wire) (c : Connection) → P w → RoundP (flush_round w c)
  unfolding flush_round RoundP
  flush_round-P w c p = grind (arith, sends, after_chunk-P)

  after_round-P :
      (w : Wire) (c : Connection) (next : Wire → Connection → Wire × Connection × Io (Unit {0}))
      (r : Round)
      → P w
      → ((w' : Wire) (c' : Connection) → P w' → P (next w' c').0)
      → RoundP r
      → P (after_round w c next r).0
  unfolding after_round RoundP
  after_round-P w c next done p later h = p
  after_round-P w c next (failed w' c' e) p later h = h
  after_round-P w c next (more w' c') p later h = later w' c' h

  flush_loop-P : (fuel : ℕ) (w : Wire) (c : Connection) → P w → P (flush_loop fuel w c).0
  unfolding flush_loop
  flush_loop-P zero w c p = p
  flush_loop-P (suc fuel) w c p =
      after_round-P w c (flush_loop fuel) (flush_round w c) p (flush_loop-P fuel)
        (flush_round-P w c p)

  finish_flush-P : (r : Wire × Connection × Io (Unit {0})) → P r.0 → P (finish_flush r).0
  unfolding finish_flush
  finish_flush-P (w, c, ok _) p = p
  finish_flush-P (w, c, err e) p = p

  pub flush_pending-P : (w : Wire) (c : Connection) → P w → P (flush_pending w c).0
  unfolding flush_pending
  flush_pending-P w c p =
      finish_flush-P (flush_loop (length c.pending_tx) w c)
        (flush_loop-P (length c.pending_tx) w c p)

  pub send_ignored-P :
      (m : Mux) (c : Connection) (flags : ℕ) → P m.wire → P (send_ignored m c flags).wire
  unfolding send_ignored
  send_ignored-P m c flags p = sends _ c flags [] p

  pub teardown-P : (m : Mux) (k : ℕ) → P m.wire → P (teardown m k).wire
  teardown-P m k p = subst P (sym (wire-teardown m k)) p

  pub reply-P : (m : Mux) (o : Option ℕ) (r : Io (Unit {0})) → P m.wire → P (reply m o r).wire
  reply-P m o r p = subst P (sym (wire-reply m o r)) p

  after_send-P :
      (m : Mux) (k : ℕ) (c : Connection) (next : Mux → Mux × Io (Unit {0}))
      (r : Wire × Io (Unit {0}))
      → P r.0
      → ((m' : Mux) → P m'.wire → P (next m').0.wire)
      → P (after_send m k c next r).0.wire
  unfolding after_send put
  after_send-P m k c next (w, ok _) p later = later _ p
  after_send-P m k c next (w, err e) p later = p

  send_or_fail-P :
      (m : Mux) (k : ℕ) (c : Connection) (flags : ℕ) (next : Mux → Mux × Io (Unit {0}))
      → P m.wire
      → ((m' : Mux) → P m'.wire → P (next m').0.wire)
      → P (send_or_fail m k c flags next).0.wire
  unfolding send_or_fail
  send_or_fail-P m k c flags next p later =
      after_send-P m k c next _ (sends m.wire c flags [] p) later

  abbrev pub Q : Mux × Io (Unit {0}) → Type 0
  Q r = P r.0.wire

  establish-P : (m : Mux) (k : ℕ) (c : Connection) → P m.wire → P (establish m k c).wire
  unfolding establish put
  establish-P m k c p = reply-P m c.connect_reply (ok tt) p

  handle_connecting-P :
      (m : Mux) (k : ℕ) (c : Connection) (th : ParsedTcp) (payload : List ℕ)
      → P m.wire
      → Q (handle_connecting m k c th payload)
  unfolding handle_connecting put
  handle_connecting-P m k c th payload p =
      grind (arith, send_or_fail-P, establish-P, teardown-P, reply-P)

  finish_close-P : (m : Mux) (k : ℕ) (c : Connection) → P m.wire → Q (finish_close m k c)
  unfolding finish_close put
  finish_close-P m k c p = grind (arith, send_or_fail-P, teardown-P)

  after_flush-P :
      (m : Mux) (k : ℕ) (r : Wire × Connection × Io (Unit {0})) → P r.0 → Q (after_flush m k r)
  unfolding after_flush put
  after_flush-P m k (w, c, ok _) p = finish_close-P _ k c p
  after_flush-P m k (w, c, err e) p = p

  flush_and_close-P : (m : Mux) (k : ℕ) (c : Connection) → P m.wire → Q (flush_and_close m k c)
  unfolding flush_and_close
  flush_and_close-P m k c p =
      after_flush-P m k (flush_pending m.wire c) (flush_pending-P m.wire c p)

  handle_payload-P :
      (m : Mux) (k : ℕ) (c : Connection) (payload : List ℕ)
      → P m.wire
      → Q (handle_payload m k c payload)
  unfolding handle_payload put
  handle_payload-P m k c payload p =
      grind (arith, flush_and_close-P, send_or_fail-P, teardown-P, send_ignored-P)

  handle_connected-P :
      (m : Mux) (k : ℕ) (c : Connection) (th : ParsedTcp) (payload : List ℕ)
      → P m.wire
      → Q (handle_connected m k c th payload)
  unfolding handle_connected put
  handle_connected-P m k c th payload p = grind (arith, teardown-P, handle_payload-P)

  dispatch_state-P :
      (s : ConnState) (m : Mux) (k : ℕ) (c : Connection) (th : ParsedTcp) (payload : List ℕ)
      → P m.wire
      → Q (dispatch_state s m k c th payload)
  unfolding dispatch_state put
  dispatch_state-P connecting m k c th payload p = handle_connecting-P m k c th payload p
  dispatch_state-P connected m k c th payload p = handle_connected-P m k c th payload p
  dispatch_state-P dead m k c th payload p = p

  handle_stray-P : (m : Mux) (th : ParsedTcp) → P m.wire → P (handle_stray m th).wire
  unfolding handle_stray
  handle_stray-P m th p = grind (arith, send_ignored-P)

  handle_segment-P :
      (m : Mux) (th : ParsedTcp) (payload : List ℕ) → P m.wire → Q (handle_segment m th payload)
  unfolding handle_segment
  handle_segment-P m th payload p = grind (arith, handle_stray-P, dispatch_state-P)

  handle_tcp-P : (m : Mux) (pkt : List ℕ) → P m.wire → Q (handle_tcp m pkt)
  unfolding handle_tcp
  handle_tcp-P m pkt p = grind (arith, handle_segment-P)

  pub handle_incoming-P : (m : Mux) (pkt : List ℕ) → P m.wire → Q (handle_incoming m pkt)
  unfolding handle_incoming
  handle_incoming-P m pkt p = grind (arith, handle_tcp-P)
