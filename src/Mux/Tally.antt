-- ===== src/Mux/Tally.antt =====
-- src/usb/mux.rs: the events of the mux task and the calls of `connect`: the tally over the handlers.
use netmuxd.Base.{
  ℕ, ◌≡◌, refl, sym, ap, ◌∙◌, List, [], ◌∷◌, ◌++◌, some, none, ok, err, arith, case_option, inl,
  inr, Option-cases,
}
use netmuxd.Base.Dict.{get}
use netmuxd.Mux.Wire.{Wire, Io}
use netmuxd.Mux.Frames.{ParsedTcp}
use netmuxd.Mux.Connection.{
  Connection, ConnState, connecting, connected, dead, ack, rst, flush_pending,
}
use netmuxd.Mux.Incoming.{
  Mux, put, teardown, send_ignored, send_or_fail, handle_stray, receive, after_flush,
  flush_and_close, handle_payload, handle_connected, dispatch_state, handle_segment, handle_tcp,
  handle_incoming, note_header,
}
use netmuxd.Mux.Answers.{reply_at}
use netmuxd.Mux.Ledger.{
  Conserves, flush_pending-reply, put-Conserves, Conserves-refl, put-teardown-Conserves, rewire,
  send_or_fail-Conserves, handle_connecting-Conserves, finish_close-Conserves,
}

module _ (id : ℕ) where
  after_flush-Conserves :
      (m : Mux) (k : ℕ) (r : Wire × Connection × Io (Unit {0}))
      → reply_at k m.connections ≡ r.1.connect_reply
      → Conserves id m (after_flush m k r).0
  unfolding after_flush
  after_flush-Conserves m k (w, c, ok _) e =
      rewire id m (record m { wire = w }) _ refl refl (finish_close-Conserves id _ k c e)
  after_flush-Conserves m k (w, c, err x) e =
      rewire id m (record m { wire = w }) _ refl refl (put-Conserves id _ k c e)

  pub flush_and_close-Conserves :
      (m : Mux) (k : ℕ) (c : Connection)
      → reply_at k m.connections ≡ c.connect_reply
      → Conserves id m (flush_and_close m k c).0
  unfolding flush_and_close
  flush_and_close-Conserves m k c e =
      after_flush-Conserves m k (flush_pending m.wire c) (e ∙ sym (flush_pending-reply m.wire c))

  pub drop_connection :
      (m : Mux) (k : ℕ) (c : Connection)
      → reply_at k m.connections ≡ c.connect_reply
      → Conserves id m (teardown (put (send_ignored m c rst) k c) k)
  unfolding send_ignored
  drop_connection m k c e = rewire id m _ _ refl refl (put-teardown-Conserves id _ k c e)

  deliver-Conserves :
      (m : Mux) (k : ℕ) (c : Connection) (payload : List ℕ)
      → reply_at k m.connections ≡ c.connect_reply
      → Conserves id m
          (send_or_fail
            (record m { delivered = m.delivered ++ (k, payload) ∷ [] })
            k
            (receive c payload)
            ack
            (λ m'. flush_and_close m' k (receive c payload))).0
  deliver-Conserves m k c payload e = rewire id m _ _ refl refl (
      send_or_fail-Conserves id _ k (receive c payload) ack _ e
        (λ w. rewire id _ _ _ refl refl (flush_and_close-Conserves _ k (receive c payload) e)))

  handle_payload-Conserves :
      (m : Mux) (k : ℕ) (c : Connection) (payload : List ℕ)
      → reply_at k m.connections ≡ c.connect_reply
      → Conserves id m (handle_payload m k c payload).0
  unfolding handle_payload
  handle_payload-Conserves m k c payload e = grind (
    arith,
    flush_and_close-Conserves m k c e,
    deliver-Conserves m k c payload e,
    drop_connection m k c e,
  )

  handle_connected-Conserves :
      (m : Mux) (k : ℕ) (c : Connection) (th : ParsedTcp) (payload : List ℕ)
      → reply_at k m.connections ≡ c.connect_reply
      → Conserves id m (handle_connected m k c th payload).0
  unfolding handle_connected
  handle_connected-Conserves m k c th payload e =
      grind (arith, put-teardown-Conserves id m k c e, handle_payload-Conserves m k c payload e)

  dispatch_state-Conserves :
      (s : ConnState) (m : Mux) (k : ℕ) (c : Connection) (th : ParsedTcp) (payload : List ℕ)
      → reply_at k m.connections ≡ c.connect_reply
      → Conserves id m (dispatch_state s m k c th payload).0
  unfolding dispatch_state
  dispatch_state-Conserves connecting m k c th payload e =
      handle_connecting-Conserves id m k c th payload e
  dispatch_state-Conserves connected m k c th payload e =
      handle_connected-Conserves m k c th payload e
  dispatch_state-Conserves dead m k c th payload e = put-Conserves id m k c e

  handle_stray-Conserves : (m : Mux) (th : ParsedTcp) → Conserves id m (handle_stray m th)
  unfolding handle_stray send_ignored
  handle_stray-Conserves m th = record { unique = λ u. ground arith; tallied = λ u. ground arith }

  pub reply_at-some :
      (m : Mux) (k : ℕ) (c : Connection)
      → get k m.connections ≡ some c
      → reply_at k m.connections ≡ c.connect_reply
  reply_at-some m k c e = ap (λ o. case_option o none (λ (d : Connection). d.connect_reply)) e

  handle_segment-Conserves :
      (m : Mux) (th : ParsedTcp) (payload : List ℕ) → Conserves id m (handle_segment m th payload).0
  unfolding handle_segment
  handle_segment-Conserves m th payload = elim (Option-cases (get th.dst_port m.connections)) [
    | inl e ↦ rw (e, handle_segment) (handle_stray-Conserves m th)
    | inr (c, e) ↦
        rw (e, handle_segment)
          (dispatch_state-Conserves c.state m th.dst_port (note_header c th) th payload
            (reply_at-some m th.dst_port c e))
  ]

  handle_tcp-Conserves : (m : Mux) (pkt : List ℕ) → Conserves id m (handle_tcp m pkt).0
  unfolding handle_tcp
  handle_tcp-Conserves m pkt = grind (arith, Conserves-refl id m, handle_segment-Conserves)

  pub handle_incoming-Conserves :
      (m : Mux) (pkt : List ℕ) → Conserves id m (handle_incoming m pkt).0
  unfolding handle_incoming
  handle_incoming-Conserves m pkt = grind (arith, Conserves-refl id m, handle_tcp-Conserves m pkt)
