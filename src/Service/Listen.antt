-- ===== src/Service/Listen.antt =====
-- src/main.rs, `run_listen`: a session that has sent `Listen`.
use netmuxd.Base.{case_option, ℕ, Bool, true, false, List, [], ◌∷◌, ◌++◌, if◌then◌else◌}
use netmuxd.Manager.State.{ListenerEvent, attached, detached}
use netmuxd.Manager.Handle.{subscribe}
use netmuxd.Service.Host.{Codec, World, ServerResponse, result}
use netmuxd.Service.Session.{Session, send, tell_manager}

-- What `select!` finds ready: an event of the manager or the end of its channel, a frame of the
-- upstream muxer's task or its end, or a read from the client, which ends or fails or gives bytes that
-- nobody looks at.
pub data Ready : Type 0 where
  event : ListenerEvent → Ready
  manager_gone : Ready
  frame : List ℕ → Ready
  upstream_gone : Ready
  client_gone : Ready
  client_bytes : Ready

-- What the client has been sent, and whether the upstream muxer's receiver is still looked at.
pub record Listening : Type 0 where
  pub to_client : List (List ℕ)
  pub has_upstream : Bool

abbrev pub event_packet : Codec → ListenerEvent → List ℕ
event_packet codec (attached p) = codec.into_packet (ServerResponse.attached p) 0
event_packet codec (detached id) = codec.into_packet (ServerResponse.detached id) 0

-- `writer.write_all(..)`, whose failure ends the session.
abbrev pub relay_to_client : Bool → Listening → List ℕ → Listening × Bool
relay_to_client true l packet = (record l { to_client = l.to_client ++ packet ∷ [] }, true)
relay_to_client false l packet = (l, false)

-- One turn of the loop, with whether the client can be written to; `false` ends the session.
unfoldable pub listen_step : Codec → Listening → Bool × Ready → Listening × Bool
listen_step codec l (writable, event e) = relay_to_client writable l (event_packet codec e)
listen_step codec l (writable, manager_gone) = (l, false)
listen_step codec l (writable, frame f) =
    if l.has_upstream then relay_to_client writable l f else (l, true)
listen_step codec l (writable, upstream_gone) = (record l { has_upstream = false }, true)
listen_step codec l (writable, client_gone) = (l, false)
listen_step codec l (writable, client_bytes) = (l, true)

abbrev pub listen_next : (Listening → Listening) → Listening × Bool → Listening
listen_next next (l, true) = next l
listen_next next (l, false) = l

unfoldable pub listen_loop : Codec → Listening → List (Bool × Ready) → Listening
listen_loop codec l [] = l
listen_loop codec l (r ∷ rs) = listen_next (λ l'. listen_loop codec l' rs) (listen_step codec l r)

-- `run_listen` up to its loop: the result, then the subscription, whose channel is new and empty;
-- `false` ends the session.
unfoldable pub subscribe_client : Codec → World → ℕ → ℕ → Session → Session × Bool
subscribe_client codec w tag name s =
    let told = send s (codec.into_packet (result 0) tag) in
    if w.client_open
    then case_option s.manager (told, false)
        (λ m. (
          tell_manager w told (subscribe (record { name = name; is_open = true; inbox = [] })),
          true,
        ))
    else (s, false)

abbrev pub listen_from : Codec → Bool → List (Bool × Ready) → Session × Bool → Listening
listen_from codec has_upstream rs (s, true) =
    listen_loop codec (record { to_client = s.to_client; has_upstream = has_upstream }) rs
listen_from codec has_upstream rs (s, false) = record {
  to_client = s.to_client;
  has_upstream = has_upstream;
}

unfoldable pub run_listen : Codec → Bool → World → ℕ → ℕ → Session → List (Bool × Ready) → Listening
run_listen codec has_upstream w tag name s rs =
    listen_from codec has_upstream rs (subscribe_client codec w tag name s)
