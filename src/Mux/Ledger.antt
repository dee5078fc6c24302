-- ===== src/Mux/Ledger.antt =====
-- src/usb/mux.rs: the tally of a call of `connect` over the parts of a step.
use netmuxd.Base.{
  ℕ, zero, suc, ◌≡◌, refl, ap, ◌∙◌, ◌&&◌, List, [], Option, none, ok, err, arith, ◌==◌, case_option,
  Bool-cases, inl, inr, Option-cases, length,
}
use netmuxd.Base.Dict.{get, insert, remove}
use netmuxd.Mux.Wire.{Wire, Io, closed_connection}
use netmuxd.Mux.Frames.{ParsedTcp}
use netmuxd.Mux.Connection.{
  Connection, syn_ack, ack, rst, tx_drained, Round, done, failed, more, send_tcp, after_chunk,
  flush_round, after_round, flush_loop, resume_pump, finish_flush, flush_pending,
}
use netmuxd.Mux.Incoming.{
  Mux, put, reply, teardown, after_send, send_or_fail, establish, handle_connecting, finish_close,
}
use netmuxd.Mux.Answers.{
  pending, waiting, tally, reply_at, IsUnique, remove-IsUnique, insert-IsUnique, waiting-remove,
  tally-reply, connections-reply,
}

-- A flush leaves the waiting call alone, whether it succeeds or fails.
RoundReply : Option ℕ → Round → Type 0
RoundReply o done = Unit
RoundReply o (failed w c e) = c.connect_reply ≡ o
RoundReply o (more w c) = c.connect_reply ≡ o

after_chunk-reply :
    (c : Connection) (n : ℕ) (r : Wire × Io (Unit {0}))
    → RoundReply c.connect_reply (after_chunk c n r)
unfolding after_chunk RoundReply
after_chunk-reply c n (w, ok _) = refl
after_chunk-reply c n (w, err e) = refl

flush_round-reply : (w : Wire) (c : Connection) → RoundReply c.connect_reply (flush_round w c)
unfolding flush_round RoundReply
flush_round-reply w c = grind (arith, after_chunk-reply)

after_round-reply :
    (w : Wire) (c : Connection) (next : Wire → Connection → Wire × Connection × Io (Unit {0}))
    (r : Round)
    → ((w' : Wire) (c' : Connection) → (next w' c').1.connect_reply ≡ c'.connect_reply)
    → RoundReply c.connect_reply r
    → (after_round w c next r).1.connect_reply ≡ c.connect_reply
unfolding after_round RoundReply
after_round-reply w c next done later h = refl
after_round-reply w c next (failed w' c' e) later h = h
after_round-reply w c next (more w' c') later h = later w' c' ∙ h

flush_loop-reply :
    (fuel : ℕ) (w : Wire) (c : Connection) → (flush_loop fuel w c).1.connect_reply ≡ c.connect_reply
unfolding flush_loop
flush_loop-reply zero w c = refl
flush_loop-reply (suc fuel) w c =
    after_round-reply w c (flush_loop fuel) (flush_round w c) (flush_loop-reply fuel)
      (flush_round-reply w c)

resume_pump-reply : (c : Connection) → (resume_pump c).connect_reply ≡ c.connect_reply
unfolding resume_pump
resume_pump-reply c = ground arith

finish_flush-reply :
    (r : Wire × Connection × Io (Unit {0})) → (finish_flush r).1.connect_reply ≡ r.1.connect_reply
unfolding finish_flush
finish_flush-reply (w, c, ok _) = resume_pump-reply c
finish_flush-reply (w, c, err e) = refl

pub flush_pending-reply :
    (w : Wire) (c : Connection) → (flush_pending w c).1.connect_reply ≡ c.connect_reply
unfolding flush_pending
flush_pending-reply w c = finish_flush-reply _ ∙ flush_loop-reply (length c.pending_tx) w c

-- Ports stay keys once, and the call's tally stays what it was.
pub record Conserves (id : ℕ) (m m' : Mux) : Type 0 where
  pub unique : IsUnique m.connections → IsUnique m'.connections
  pub tallied : IsUnique m.connections → tally id m' ≡ tally id m

module _ (id : ℕ) where
  pub teardown-Conserves : (m : Mux) (k : ℕ) → Conserves id m (teardown m k)
  unfolding teardown
  teardown-Conserves m k = elim (Option-cases (get k m.connections)) [
    | inl e ↦ rw (e, teardown) (record { unique = λ u. u; tallied = λ u. refl })
    | inr (c, e) ↦
        let m' = record m { connections = remove k m.connections } in
        let same = connections-reply m' c.connect_reply (err closed_connection) in
        rw (e, teardown)
          (record {
            unique = λ u. rw same (remove-IsUnique k m.connections u);
            tallied = λ u. omega (
              arith,
              tally-reply id m' c.connect_reply (err closed_connection),
              waiting-remove id k m.connections u,
              ap (λ o. pending id (case_option o none (λ c. c.connect_reply))) e,
            );
          })
  ]

  pub put-Conserves :
      (m : Mux) (k : ℕ) (c : Connection)
      → reply_at k m.connections ≡ c.connect_reply
      → Conserves id m (put m k c)
  unfolding put insert
  put-Conserves m k c e = record {
    unique = insert-IsUnique k c m.connections;
    tallied = λ u. omega (arith, waiting-remove id k m.connections u, ap (pending id) e);
  }

  pub Conserves-refl : (m : Mux) → Conserves id m m
  Conserves-refl m = record { unique = λ u. u; tallied = λ u. refl }

  pub Conserves-trans : (a b c : Mux) → Conserves id a b → Conserves id b c → Conserves id a c
  Conserves-trans a b c p q = record {
    unique = λ u. q.unique (p.unique u);
    tallied = λ u. q.tallied (p.unique u) ∙ p.tallied u;
  }

  -- The waiting call is answered, and the connection no longer holds it.
  pub settle-Conserves :
      (m : Mux) (k : ℕ) (c : Connection) (o : Option ℕ) (r : Io (Unit {0}))
      → reply_at k m.connections ≡ o
      → c.connect_reply ≡ none
      → Conserves id m (put (reply m o r) k c)
  unfolding put insert
  settle-Conserves m k c o r e empty =
      let same = connections-reply m o r in
      record {
        unique = λ u. rw same (insert-IsUnique k c m.connections u);
        tallied = λ u. rw same (
            omega (
              arith,
              tally-reply id m o r,
              ap (waiting id) same,
              waiting-remove id k m.connections u,
              ap (pending id) e,
              ap (pending id) empty,
            ));
      }

  pub put-teardown-Conserves :
      (m : Mux) (k : ℕ) (c : Connection)
      → reply_at k m.connections ≡ c.connect_reply
      → Conserves id m (teardown (put m k c) k)
  put-teardown-Conserves m k c e =
      Conserves-trans m (put m k c) _ (put-Conserves m k c e) (teardown-Conserves (put m k c) k)

  after_send-Conserves :
      (m : Mux) (k : ℕ) (c : Connection) (next : Mux → Mux × Io (Unit {0}))
      (r : Wire × Io (Unit {0}))
      → reply_at k m.connections ≡ c.connect_reply
      → ((w : Wire) → Conserves id m (next (record m { wire = w })).0)
      → Conserves id m (after_send m k c next r).0
  unfolding after_send
  after_send-Conserves m k c next (w, ok _) e later = later w
  after_send-Conserves m k c next (w, err x) e later =
      let p = put-Conserves (record m { wire = w }) k c e in
      record { unique = p.unique; tallied = p.tallied }

  pub send_or_fail-Conserves :
      (m : Mux) (k : ℕ) (c : Connection) (flags : ℕ) (next : Mux → Mux × Io (Unit {0}))
      → reply_at k m.connections ≡ c.connect_reply
      → ((w : Wire) → Conserves id m (next (record m { wire = w })).0)
      → Conserves id m (send_or_fail m k c flags next).0
  unfolding send_or_fail
  send_or_fail-Conserves m k c flags next e later =
      after_send-Conserves m k c next (send_tcp m.wire c flags []) e later

  -- What a wire or a delivery holds does not count.
  pub rewire :
      (m m' n : Mux)
      → m'.connections ≡ m.connections
      → m'.replies ≡ m.replies
      → Conserves id m' n
      → Conserves id m n
  rewire m m' n c r p = record {
    unique = λ u. p.unique (rw c u);
    tallied = λ u. p.tallied (rw c u) ∙ ground (arith, c, r);
  }

  establish-Conserves :
      (m : Mux) (k : ℕ) (c : Connection)
      → reply_at k m.connections ≡ c.connect_reply
      → Conserves id m (establish m k c)
  unfolding establish
  establish-Conserves m k c e = settle-Conserves m k _ c.connect_reply (ok tt) e refl

  pub handle_connecting-Conserves :
      (m : Mux) (k : ℕ) (c : Connection) (th : ParsedTcp) (payload : List ℕ)
      → reply_at k m.connections ≡ c.connect_reply
      → Conserves id m (handle_connecting m k c th payload).0
  unfolding handle_connecting
  handle_connecting-Conserves m k c th payload e = elim (Bool-cases (th.flags == syn_ack)) [
    | inl yes_ ↦
        rw (yes_, handle_connecting)
          (send_or_fail-Conserves m k _ ack _ e
            (λ w. rewire m (record m { wire = w }) _ refl refl (establish-Conserves _ k _ e)))
    | inr other ↦
        rw (other, handle_connecting)
          (Conserves-trans m _ _ (settle-Conserves m k _ c.connect_reply _ e refl)
            (teardown-Conserves _ k))
  ]

  pub finish_close-Conserves :
      (m : Mux) (k : ℕ) (c : Connection)
      → reply_at k m.connections ≡ c.connect_reply
      → Conserves id m (finish_close m k c).0
  unfolding finish_close
  finish_close-Conserves m k c e = elim (Bool-cases (c.client_closed && tx_drained c)) [
    | inl now ↦
        rw (now, finish_close)
          (send_or_fail-Conserves m k c rst _ e
            (λ w. rewire m (record m { wire = w }) _ refl refl (put-teardown-Conserves _ k c e)))
    | inr later ↦ rw (later, finish_close) (put-Conserves m k c e)
  ]
