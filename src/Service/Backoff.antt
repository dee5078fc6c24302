-- ===== src/Service/Backoff.antt =====
-- src/main.rs, `upstream_listen_pump`: how long the task sleeps between two connections, and what it
-- relays.
use netmuxd.Base.{
  ℕ, zero, suc, ◌+◌, ◌*◌, ◌^◌, min, ◌≤◌, ◌≡◌, refl, ◌∙◌, ap, Bool, true, false, List, [], ◌∷◌, ◌++◌,
  some, case_option, length, arith, All, All-append, replicate, case_rule, append_assoc, append-nil,
  flatten, map, length-append,
}
use native.Mathlib.Numerals.{unary_clauses}
use netmuxd.Service.Packets.{IsPacket, upstream_frame-IsPacket, no_frame}
use netmuxd.Service.Host.{Dial, refused, replies}
use netmuxd.Service.Pump.{
  initial_backoff, max_backoff, Pump, new_pump, behind_result, open_upstream_listen,
  upstream_frames, relay, sleep, relay_stream, sleep_if, attempt, pump_next, upstream_listen_pump,
}

abbrev pub InBounds : ℕ → Type 0
InBounds t = (initial_backoff ≤ t) × (t ≤ max_backoff)

pub record IsPaced (p : Pump) : Type 0 where
  pub next : InBounds p.backoff
  pub times : All InBounds p.slept

abbrev pub IsPacedFlow : Pump × Bool → Type 0
IsPacedFlow (p, more) = IsPaced p

sleep-IsPaced : (p : Pump) → IsPaced p → IsPaced (sleep p)
unfolding sleep
sleep-IsPaced p h = record {
  next = (omega (arith, h.next.0), omega arith);
  times = All-append InBounds p.slept (p.backoff ∷ []) h.times (h.next, tt);
}

sleep_if-IsPaced : (r : Pump × Bool) → IsPacedFlow r → IsPacedFlow (sleep_if r)
sleep_if-IsPaced (p, true) h = sleep-IsPaced p h
sleep_if-IsPaced (p, false) h = h

attempt-IsPaced : (p : Pump) (d : Dial) → IsPaced p → IsPacedFlow (attempt p d)
unfolding attempt relay_stream
attempt-IsPaced p d h =
    sleep_if-IsPaced (case_option (open_upstream_listen d) (p, true) (relay_stream p)) (
      case_rule IsPacedFlow (open_upstream_listen d) {x = (p, true)} {f = relay_stream p} (λ _. h)
        (λ bytes _. record { next = (omega arith, omega arith); times = h.times }))

pump_next-IsPaced :
    (ds : List Dial) (r : Pump × Bool)
    → IsPacedFlow r
    → ((p : Pump) → IsPaced p → IsPaced (upstream_listen_pump p ds))
    → IsPaced (pump_next (λ p. upstream_listen_pump p ds) r)
unfolding pump_next
pump_next-IsPaced ds (p, true) h f = f p h
pump_next-IsPaced ds (p, false) h f = h

-- However the connections to the upstream muxer turn out, each pause between two of them is 250
-- milliseconds at least and 5 seconds at most, and so is the next one.
pub pump-IsPaced : (p : Pump) (ds : List Dial) (h : IsPaced p) → IsPaced (upstream_listen_pump p ds)
unfolding upstream_listen_pump
pump-IsPaced p [] h = h
pump-IsPaced p (d ∷ ds) h =
    pump_next-IsPaced ds (attempt p d) (attempt-IsPaced p d h) (λ p' h'. pump-IsPaced p' ds h')

-- The pauses of connections that all fail.
abbrev pub doubling : ℕ → ℕ → List ℕ
doubling k zero = []
doubling k (suc n) = min (initial_backoff * 2 ^ k) max_backoff ∷ doubling (suc k) n

refused-doubling :
    (n k : ℕ) (p : Pump) (at : p.backoff ≡ min (initial_backoff * 2 ^ k) max_backoff)
    → (upstream_listen_pump p (replicate n refused)).slept ≡ p.slept ++ doubling k n
unfolding upstream_listen_pump attempt open_upstream_listen sleep pump_next
refused-doubling zero k p at = rw (append-nil p.slept) refl
refused-doubling (suc n) k p at =
    refused-doubling n (suc k) (sleep p) (simp unary_clauses (omega (arith, at)))
    ∙ rw (append_assoc p.slept (p.backoff ∷ []) (doubling (suc k) n), at) refl

-- While the upstream muxer cannot be connected to, the pauses start at 250 milliseconds and double up
-- to 5 seconds: the one after attempt `k` is the smaller of `250 * 2 ^ k` and 5000.
pub pump-doubling :
    (n room : ℕ) → (upstream_listen_pump (new_pump room) (replicate n refused)).slept ≡ doubling 0 n
pump-doubling n room = refused-doubling n 0 (new_pump room) refl

-- What the upstream muxer sends over one connection: the result of `Listen`, then frames.
abbrev pub stream_of : List ℕ × List (List ℕ) → Dial
stream_of (result, fs) = replies (result ++ flatten fs)

abbrev pub ArePackets : List ℕ × List (List ℕ) → Type 0
ArePackets (result, fs) = IsPacket result × All IsPacket fs

abbrev pub frames_of : List (List ℕ × List (List ℕ)) → List (List ℕ)
frames_of [] = []
frames_of ((result, fs) ∷ rest) = fs ++ frames_of rest

upstream_frames-flatten :
    (fs : List (List ℕ)) (fuel : ℕ) (packets : All IsPacket fs)
    (enough : length (flatten fs) ≤ fuel)
    → upstream_frames fuel (flatten fs) ≡ fs
unfolding upstream_frames
upstream_frames-flatten [] zero packets enough = refl
upstream_frames-flatten [] (suc fuel) packets enough = rw (no_frame, upstream_frames) refl
upstream_frames-flatten (f ∷ fs) zero packets enough =
    absurd (omega (arith, length-append f (flatten fs), packets.0.1))
upstream_frames-flatten (f ∷ fs) (suc fuel) packets enough =
    let less : length (flatten fs) ≤ fuel =
      omega (arith, length-append f (flatten fs), packets.0.1) in
    rw
      (
        upstream_frame-IsPacket f (flatten fs) packets.0,
        upstream_frames,
        upstream_frames-flatten fs fuel packets.1 less,
      )
      refl

relay_all :
    (fs : List (List ℕ)) (room left : ℕ) (enough : room ≡ length fs + left)
    → relay fs room ≡ (fs, left, true)
unfolding relay
relay_all [] room left enough = ap (λ n. ([], n, true)) (omega (arith, enough))
relay_all (f ∷ fs) zero left enough = absurd (omega (arith, enough))
relay_all (f ∷ fs) (suc room) left enough = rw (relay_all fs room left (omega (arith, enough))) refl

-- The task after a connection whose frames have all been taken.
abbrev pub after_stream : Pump → List (List ℕ) → ℕ → Pump
after_stream p fs left =
    sleep (record p { sent = p.sent ++ fs; room = left; backoff = initial_backoff })

opened :
    (result : List ℕ) (fs : List (List ℕ)) (packet : IsPacket result)
    → open_upstream_listen (stream_of (result, fs)) ≡ some (flatten fs)
unfolding open_upstream_listen
opened result fs packet =
    rw (upstream_frame-IsPacket result (flatten fs) packet, behind_result) refl

attempt-stream :
    (p : Pump) (result : List ℕ) (fs : List (List ℕ)) (left : ℕ) (packets : ArePackets (result, fs))
    (enough : p.room ≡ length fs + left)
    → attempt p (stream_of (result, fs)) ≡ (after_stream p fs left, true)
unfolding attempt relay_stream
attempt-stream p result fs left packets enough =
    rw
      (
        opened result fs packets.0,
        upstream_frames-flatten fs (length (flatten fs)) packets.1 (omega arith),
        relay_all fs p.room left enough,
        relay_stream,
      )
      refl

-- Each connection that the upstream muxer answers with a result and then with frames, up to its end,
-- is relayed frame by frame: the listener is sent all frames of all connections, in their order,
-- without the results, if its receiver takes that many.
pub pump-frames :
    (streams : List (List ℕ × List (List ℕ))) (packets : All ArePackets streams) (p : Pump)
    (left : ℕ) (enough : p.room ≡ length (frames_of streams) + left)
    → (upstream_listen_pump p (map stream_of streams)).sent ≡ p.sent ++ frames_of streams
unfolding upstream_listen_pump pump_next sleep
pump-frames [] packets p left enough = rw (append-nil p.sent) refl
pump-frames ((result, fs) ∷ rest) packets p left enough =
    let later = length (frames_of rest) + left in
    let more : p.room ≡ length fs + later =
      omega (arith, enough, length-append fs (frames_of rest)) in
    rw
      (
        attempt-stream p result fs later packets.0 more,
        pump-frames rest packets.1 (after_stream p fs later) left refl,
        append_assoc p.sent fs (frames_of rest),
      )
      refl
