-- ===== src/Mux/Once.antt =====
-- src/usb/mux.rs: the answers that the callers of `connect` get over a whole run of the mux task.
use netmuxd.Base.{
  ℕ, ◌+◌, ◌≤◌, ◌≡◌, refl, sym, ap, ◌∙◌, List, [], ◌∷◌, arith, Option-cases, inl, inr, err,
}
use netmuxd.Base.Dict.{get, remove, remove_each, remove_each-keys, keys}
use netmuxd.Mux.Wire.{Wire, closed_connection}
use netmuxd.Mux.Connection.{rst}
use netmuxd.Mux.Incoming.{Mux, teardown, send_ignored}
use netmuxd.Mux.Loop.{
  Event, connect, shutdown, Task, running, exited, close_one, close_each, close_all, step, run_loop,
  start_mux, reader_failed, user_data, user_closed, drained, packet, writer_ended, forwarder_ended,
}
use netmuxd.Mux.Answers.{waiting, answered, tally, IsUnique, connections-reply, remove-none}
use netmuxd.Mux.Replies.{calls, step-Adds}
use netmuxd.Mux.Steps.{task_mux}

connections-teardown : (m : Mux) (k : ℕ) → (teardown m k).connections ≡ remove k m.connections
unfolding teardown
connections-teardown m k = elim (Option-cases (get k m.connections)) [
  | inl e ↦ rw (e, teardown) (sym (remove-none k m.connections e))
  | inr (c, e) ↦ rw (e, teardown) (connections-reply _ c.connect_reply (err closed_connection))
]

connections-close_one : (m : Mux) (k : ℕ) → (close_one m k).connections ≡ remove k m.connections
unfolding close_one send_ignored
connections-close_one m k = elim (Option-cases (get k m.connections)) [
  | inl e ↦ rw (e, close_one) (connections-teardown m k)
  | inr (c, e) ↦ rw (e, close_one) (connections-teardown (send_ignored m c rst) k)
]

connections-close_each :
    (m : Mux) (ks : List ℕ) → (close_each m ks).connections ≡ remove_each ks m.connections
unfolding close_each remove_each
connections-close_each m [] = refl
connections-close_each m (k ∷ ks) =
    connections-close_each (close_one m k) ks ∙ ap (remove_each ks) (connections-close_one m k)

connections-close_all : (m : Mux) → (close_all m).connections ≡ []
unfolding close_all
connections-close_all m =
    connections-close_each m (keys m.connections) ∙ remove_each-keys m.connections

-- The calls with this number among the events that the task receives before it ends.
unfoldable pub received : ℕ → Task → List Event → ℕ
received id t [] = 0
received id (exited m) (e ∷ es) = 0
received id (running m) (e ∷ es) = calls id e + received id (step m e) es

run_loop-tally :
    (id : ℕ) (t : Task) (es : List Event)
    → IsUnique (task_mux t).connections
    → tally id (task_mux (run_loop t es)) ≡ tally id (task_mux t) + received id t es
unfolding run_loop received
run_loop-tally id t [] u = omega arith
run_loop-tally id (exited m) (e ∷ es) u = omega arith
run_loop-tally id (running m) (e ∷ es) u =
    let one = step-Adds id m e in
    omega (arith, run_loop-tally id (step m e) es (one.unique u), one.tallied u)

-- A task that has ended holds no connection.
abbrev Closed : Task → Type 0
Closed (running m) = Unit {0}
Closed (exited m) = m.connections ≡ []

step-Closed : (m : Mux) (e : Event) → Closed (step m e)
unfolding step
step-Closed m (connect id port) = tt
step-Closed m shutdown = connections-close_all m
step-Closed m (user_data k bytes) = tt
step-Closed m (user_closed k) = tt
step-Closed m (drained k n) = tt
step-Closed m (packet pkt) = tt
step-Closed m reader_failed = connections-close_all m
step-Closed m writer_ended = tt
step-Closed m (forwarder_ended k) = tt

run_loop-Closed : (t : Task) (es : List Event) → Closed t → Closed (run_loop t es)
unfolding run_loop
run_loop-Closed t [] h = h
run_loop-Closed (exited m) (e ∷ es) h = h
run_loop-Closed (running m) (e ∷ es) h = run_loop-Closed (step m e) es (step-Closed m e)

-- At any time in a run, a call has been answered at most as often as it was made.
pub answered-le-received :
    (id : ℕ) (w : Wire) (es : List Event)
    → answered id (task_mux (run_loop (running (start_mux w)) es)).replies
      ≤ received id (running (start_mux w)) es
answered-le-received id w es = omega (arith, run_loop-tally id (running (start_mux w)) es tt)

-- When the task has ended, no connection is left, and each call of `connect` that it received has
-- been answered exactly as often as it was made: once, if its number is its own.
pub answered-exited :
    (id : ℕ) (w : Wire) (es : List Event) (m : Mux)
    → run_loop (running (start_mux w)) es ≡ exited m
    → (m.connections ≡ []) × (answered id m.replies ≡ received id (running (start_mux w)) es)
answered-exited id w es m h =
    let closed : m.connections ≡ [] = rw h at (run_loop-Closed (running (start_mux w)) es tt) in
    let total : tally id m ≡ 0 + received id (running (start_mux w)) es =
      rw h at (run_loop-tally id (running (start_mux w)) es tt) in
    (closed, omega (arith, total, ap (waiting id) closed))
