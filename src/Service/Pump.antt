-- ===== src/Service/Pump.antt =====
-- src/main.rs, `upstream_listen_pump`: the frames of the upstream muxer for a listener, over connections
-- that are made again whenever they end.
use netmuxd.Base.{
  ℕ, zero, suc, ◌*◌, min, Bool, true, false, List, [], ◌∷◌, ◌++◌, Option, none, some, case_option,
  length, ok, err,
}
use netmuxd.Devices.Plist.{end, entry, string}
use netmuxd.Service.Frames.{upstream_frame}
use netmuxd.Service.Host.{Codec, Dial, refused, write_failed, replies}

-- INITIAL_BACKOFF and MAX_BACKOFF, in milliseconds
abbrev pub initial_backoff : ℕ
initial_backoff = 250

abbrev pub max_backoff : ℕ
max_backoff = 5000

-- The task: the frames that it has sent, how many more are taken before the receiver is dropped, the
-- times that it has slept, and the next such time.
pub record Pump : Type 0 where
  pub sent : List (List ℕ)
  pub room : ℕ
  pub slept : List ℕ
  pub backoff : ℕ

abbrev pub new_pump : ℕ → Pump
new_pump room = record { sent = []; room = room; slept = []; backoff = initial_backoff }

-- The packet with the message type `Listen`.
unfoldable pub listen_packet : Codec → List ℕ
listen_packet codec = codec.print (entry "MessageType" (string "Listen") end) 0

-- What is left of the stream behind the frame of the result.
abbrev pub behind_result : List ℕ → Option (List ℕ)
behind_result bytes = elim (upstream_frame bytes) [ ok r ↦ some r.1 | err e ↦ none ]

-- `open_upstream_listen`; `none` is one of its failures.
unfoldable pub open_upstream_listen : Dial → Option (List ℕ)
open_upstream_listen refused = none
open_upstream_listen write_failed = none
open_upstream_listen (replies bytes) = behind_result bytes

-- The frames up to the end of a stream. Each takes a byte at least, so that as much fuel as there are
-- bytes is enough.
unfoldable pub upstream_frames : ℕ → List ℕ → List (List ℕ)
upstream_frames zero bytes = []
upstream_frames (suc fuel) bytes = elim (upstream_frame bytes) [
  | ok r ↦ r.0 ∷ upstream_frames fuel r.1
  | err e ↦ []
]

-- The frames go to the receiver; `false` is the end of the task, when that has been dropped.
unfoldable pub relay : List (List ℕ) → ℕ → List (List ℕ) × ℕ × Bool
relay [] room = ([], room, true)
relay (f ∷ fs) zero = ([], zero, false)
relay (f ∷ fs) (suc room) = let (sent, left, more) = relay fs room in (f ∷ sent, left, more)

-- `tokio::time::sleep(backoff).await; backoff = (backoff * 2).min(MAX_BACKOFF);`
unfoldable pub sleep : Pump → Pump
sleep p = record p { slept = p.slept ++ p.backoff ∷ []; backoff = min (p.backoff * 2) max_backoff }

-- A connection is made, and its frames are relayed up to its end.
unfoldable pub relay_stream : Pump → List ℕ → Pump × Bool
relay_stream p bytes =
    let (sent, left, more) = relay (upstream_frames (length bytes) bytes) p.room in
    (record p { sent = p.sent ++ sent; room = left; backoff = initial_backoff }, more)

abbrev pub sleep_if : Pump × Bool → Pump × Bool
sleep_if (p, true) = (sleep p, true)
sleep_if (p, false) = (p, false)

unfoldable pub attempt : Pump → Dial → Pump × Bool
attempt p d = sleep_if (case_option (open_upstream_listen d) (p, true) (relay_stream p))

-- `upstream_listen_pump`, over what its connections turn out to be.
unfoldable pub pump_next : (Pump → Pump) → Pump × Bool → Pump
pump_next next (p, true) = next p
pump_next next (p, false) = p

unfoldable pub upstream_listen_pump : Pump → List Dial → Pump
upstream_listen_pump p [] = p
upstream_listen_pump p (d ∷ ds) = pump_next (λ p'. upstream_listen_pump p' ds) (attempt p d)
