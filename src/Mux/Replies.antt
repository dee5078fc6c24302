-- ===== src/Mux/Replies.antt =====
-- src/usb/mux.rs: the tally of a call of `connect` over a step of the mux task.
use netmuxd.Base.{
  ℕ, ◌+◌, ◌-◌, ◌≡◌, refl, sym, ap, ◌∙◌, List, [], ◌∷◌, some, none, ok, err, arith, ◌==◌,
  case_option, if◌then◌else◌, inl, inr, Option-cases,
}
use netmuxd.Base.Dict.{get, insert, keys}
use netmuxd.Mux.Wire.{Wire, Io, dropped_reply}
use netmuxd.Mux.Connection.{Connection, syn, send_tcp}
use netmuxd.Mux.Incoming.{Mux, put, send_ignored}
use netmuxd.Mux.Loop.{
  Event, connect, shutdown, user_data, user_closed, drained, packet, reader_failed, writer_ended,
  forwarder_ended, insert_connection, after_syn, open_connection, after_push, push_data, pause_pump,
  reset_and_teardown, after_close, close_user, with_connected, note_drained, handle_drained,
  handle_packet, end_forwarder, close_one, close_each, close_all, step, new_connection,
}
use netmuxd.Mux.Answers.{
  pending, waiting, tally, reply_at, IsUnique, insert-IsUnique, waiting-remove, tally-reply,
  connections-reply,
}
use netmuxd.Mux.Ledger.{
  Conserves, flush_pending-reply, teardown-Conserves, put-Conserves, Conserves-refl,
  Conserves-trans, put-teardown-Conserves, rewire,
}
use netmuxd.Mux.Steps.{task_mux}
use netmuxd.Mux.Tally.{handle_incoming-Conserves, drop_connection, reply_at-some}

-- Ports stay keys once, and the call's tally grows by `n`.
pub record Adds (id n : ℕ) (m m' : Mux) : Type 0 where
  pub unique : IsUnique m.connections → IsUnique m'.connections
  pub tallied : IsUnique m.connections → tally id m' ≡ tally id m + n

-- The calls of `connect` that an event brings, as far as they have the number.
abbrev pub calls : ℕ → Event → ℕ
calls id (connect j port) = if j == id then 1 else 0
calls id shutdown = 0
calls id (user_data k bytes) = 0
calls id (user_closed k) = 0
calls id (drained k n) = 0
calls id (packet pkt) = 0
calls id reader_failed = 0
calls id writer_ended = 0
calls id (forwarder_ended k) = 0

module _ (id : ℕ) where
  none_added : (m m' : Mux) → Conserves id m m' → Adds id 0 m m'
  none_added m m' p = record { unique = p.unique; tallied = λ u. p.tallied u ∙ omega arith }

  insert_connection-Adds :
      (m : Mux) (k : ℕ) (c : Connection)
      → Adds id (pending id c.connect_reply) m (insert_connection m k c)
  unfolding insert_connection put insert
  insert_connection-Adds m k c = elim (Option-cases (get k m.connections)) [
    | inl e ↦
        rw (e, insert_connection)
          (record {
            unique = insert-IsUnique k c m.connections;
            tallied = λ u. omega (
              arith,
              waiting-remove id k m.connections u,
              ap (λ o. pending id (case_option o none (λ (d : Connection). d.connect_reply))) e,
            );
          })
    | inr (old, e) ↦
        let same = connections-reply m old.connect_reply (err dropped_reply) in
        rw (e, insert_connection)
          (record {
            unique = λ u. rw same (insert-IsUnique k c m.connections u);
            tallied = λ u. rw same (
                omega (
                  arith,
                  tally-reply id m old.connect_reply (err dropped_reply),
                  ap (waiting id) same,
                  waiting-remove id k m.connections u,
                  ap (pending id) (reply_at-some id m k old e),
                ));
          })
  ]

  after_syn-Adds :
      (m : Mux) (k : ℕ) (c : Connection) (j : ℕ) (r : Wire × Io (Unit {0}))
      → c.connect_reply ≡ some j
      → Adds id (pending id (some j)) m (after_syn m k c j r)
  unfolding after_syn
  after_syn-Adds m k c j (w, ok _) e =
      let p = insert_connection-Adds (record m { wire = w }) k c in
      record { unique = p.unique; tallied = λ u. p.tallied u ∙ omega (arith, ap (pending id) e) }
  after_syn-Adds m k c j (w, err x) e =
      let same = connections-reply (record m { wire = w }) (some j) (err x) in
      record {
        unique = λ u. rw same u;
        tallied = λ u. tally-reply id (record m { wire = w }) (some j) (err x);
      }

  open_connection-Adds :
      (m : Mux) (j port : ℕ) → Adds id (pending id (some j)) m (open_connection m j port)
  unfolding open_connection
  open_connection-Adds m j port =
      let p =
        after_syn-Adds _ m.next_sport (new_connection m.next_sport port j) j
          (send_tcp m.wire (new_connection m.next_sport port j) syn []) refl in
      record { unique = p.unique; tallied = p.tallied }

  pause_pump-reply : (c : Connection) → (pause_pump c).connect_reply ≡ c.connect_reply
  unfolding pause_pump
  pause_pump-reply c = ground arith

  after_push-Conserves :
      (m : Mux) (k : ℕ) (r : Wire × Connection × Io (Unit {0}))
      → reply_at k m.connections ≡ r.1.connect_reply
      → Conserves id m (after_push m k r)
  unfolding after_push
  after_push-Conserves m k (w, c, ok _) e =
      rewire id m (record m { wire = w }) _ refl refl
        (put-Conserves id _ k (pause_pump c) (e ∙ sym (pause_pump-reply c)))
  after_push-Conserves m k (w, c, err x) e =
      rewire id m (record m { wire = w }) _ refl refl (put-teardown-Conserves id _ k c e)

  after_close-Conserves :
      (m : Mux) (k : ℕ) (r : Wire × Connection × Io (Unit {0}))
      → reply_at k m.connections ≡ r.1.connect_reply
      → Conserves id m (after_close m k r)
  unfolding after_close reset_and_teardown
  after_close-Conserves m k (w, c, ok _) e =
      let n = record m { wire = w } in
      let gone = drop_connection id n k c e in
      let stays = put-Conserves id n k c e in rewire id m n _ refl refl (grind (arith, gone, stays))
  after_close-Conserves m k (w, c, err x) e =
      rewire id m (record m { wire = w }) _ refl refl (drop_connection id _ k c e)

  with_connected-Conserves :
      (m : Mux) (k : ℕ) (next : Connection → Mux)
      → ((c : Connection) → reply_at k m.connections ≡ c.connect_reply → Conserves id m (next c))
      → Conserves id m (with_connected m k next)
  unfolding with_connected
  with_connected-Conserves m k next later = elim (Option-cases (get k m.connections)) [
    | inl e ↦ rw (e, with_connected) (Conserves-refl id m)
    | inr (c, e) ↦
        let p = later c (reply_at-some id m k c e) in
        rw (e, with_connected) (grind (arith, p, Conserves-refl id m))
  ]

  note_drained-Conserves :
      (m : Mux) (k : ℕ) (c : Connection) (n : ℕ)
      → reply_at k m.connections ≡ c.connect_reply
      → Conserves id m (note_drained m k c n)
  unfolding note_drained send_ignored
  note_drained-Conserves m k c n e =
      let p = put-Conserves id m k (record c { rx_buffered = c.rx_buffered - n }) e in
      record {
        unique = λ u. ground (arith, p.unique u);
        tallied = λ u. ground (arith, p.tallied u);
      }

  handle_drained-Conserves : (m : Mux) (k n : ℕ) → Conserves id m (handle_drained m k n)
  unfolding handle_drained
  handle_drained-Conserves m k n = elim (Option-cases (get k m.connections)) [
    | inl e ↦ rw (e, handle_drained) (Conserves-refl id m)
    | inr (c, e) ↦
        rw (e, handle_drained) (note_drained-Conserves m k c n (reply_at-some id m k c e))
  ]

  end_forwarder-Conserves : (m : Mux) (k : ℕ) → Conserves id m (end_forwarder m k)
  unfolding end_forwarder
  end_forwarder-Conserves m k = elim (Option-cases (get k m.connections)) [
    | inl e ↦ rw (e, end_forwarder) (Conserves-refl id m)
    | inr (c, e) ↦ rw (e, end_forwarder) (put-Conserves id m k _ (reply_at-some id m k c e))
  ]

  close_one-Conserves : (m : Mux) (k : ℕ) → Conserves id m (close_one m k)
  unfolding close_one send_ignored
  close_one-Conserves m k = elim (Option-cases (get k m.connections)) [
    | inl e ↦ rw (e, close_one) (teardown-Conserves id m k)
    | inr (c, e) ↦ rw (e, close_one) (rewire id m _ _ refl refl (teardown-Conserves id _ k))
  ]

  close_each-Conserves : (m : Mux) (ks : List ℕ) → Conserves id m (close_each m ks)
  unfolding close_each
  close_each-Conserves m [] = Conserves-refl id m
  close_each-Conserves m (k ∷ ks) =
      Conserves-trans id m (close_one m k) _ (close_one-Conserves m k)
        (close_each-Conserves (close_one m k) ks)

  pub close_all-Conserves : (m : Mux) → Conserves id m (close_all m)
  unfolding close_all
  close_all-Conserves m = close_each-Conserves m (keys m.connections)

  pub step-Adds : (m : Mux) (e : Event) → Adds id (calls id e) m (task_mux (step m e))
  unfolding step push_data close_user handle_packet
  step-Adds m (connect j port) = open_connection-Adds m j port
  step-Adds m shutdown = none_added m _ (close_all-Conserves m)
  step-Adds m (user_data k bytes) = none_added m _ (
      with_connected-Conserves m k _
        (λ c e. after_push-Conserves m k _ (e ∙ sym (flush_pending-reply m.wire _))))
  step-Adds m (user_closed k) = none_added m _ (
      with_connected-Conserves m k _
        (λ c e. after_close-Conserves m k _ (e ∙ sym (flush_pending-reply m.wire _))))
  step-Adds m (drained k n) = none_added m _ (handle_drained-Conserves m k n)
  step-Adds m (packet pkt) =
      none_added m _ (rewire id m _ _ refl refl (handle_incoming-Conserves id _ pkt))
  step-Adds m reader_failed = none_added m _ (close_all-Conserves m)
  step-Adds m writer_ended = none_added m _ (rewire id m _ _ refl refl (Conserves-refl id _))
  step-Adds m (forwarder_ended k) = none_added m _ (end_forwarder-Conserves m k)
