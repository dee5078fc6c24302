-- ===== src/Service/Relayed.antt =====
-- src/main.rs, `run_listen`: what a listening client is sent.
use netmuxd.Base.{
  ℕ, ◌≡◌, sym, ◌∙◌, Bool, true, false, List, [], ◌∷◌, ◌++◌, map, append_assoc, append-nil,
  if◌then◌else◌,
}
use mathlib.Core.Bool.{false≢true}
use netmuxd.Manager.State.{ListenerEvent}
use netmuxd.Manager.State.{Manager}
use netmuxd.Manager.Handle.{Request, subscribe}
use netmuxd.Service.Host.{Codec, World, result}
use netmuxd.Service.Session.{Session, send, tell_manager}
use netmuxd.Service.Answers.{tell_manager-to_client}
use netmuxd.Service.Listen.{subscribe_client}
use netmuxd.Base.{ℕ, some, refl}
use netmuxd.Service.Listen.{
  Ready, event, manager_gone, frame, upstream_gone, client_gone, client_bytes, Listening,
  event_packet, listen_step, listen_loop, run_listen,
}

-- A list put together from two, each in its own order.
pub data Merge {ℓ} {A : Type ℓ} : List A → List A → List A → Type ℓ where
  both_empty : Merge [] [] []
  from_left : {a : A} {xs ys zs : List A} → Merge xs ys zs → Merge (a ∷ xs) ys (a ∷ zs)
  from_right : {a : A} {xs ys zs : List A} → Merge xs ys zs → Merge xs (a ∷ ys) (a ∷ zs)

-- The events of the manager, and the frames of the upstream muxer up to the end of its task.
abbrev pub manager_events : List Ready → List ListenerEvent
manager_events [] = []
manager_events (event e ∷ rs) = e ∷ manager_events rs
manager_events (_ ∷ rs) = manager_events rs

abbrev pub upstream_part : List Ready → List (List ℕ)
upstream_part [] = []
upstream_part (frame f ∷ rs) = f ∷ upstream_part rs
upstream_part (upstream_gone ∷ rs) = []
upstream_part (_ ∷ rs) = upstream_part rs

-- Nothing ends the session.
abbrev pub goes_on : List Ready → Bool
goes_on [] = true
goes_on (manager_gone ∷ rs) = false
goes_on (client_gone ∷ rs) = false
goes_on (_ ∷ rs) = goes_on rs

abbrev pub writable : Ready → Bool × Ready
writable r = (true, r)

-- What a session has sent since `sent`, from its two sources.
abbrev pub Relays : Codec → List (List ℕ) → List ListenerEvent → List (List ℕ) → Listening → Type 0
Relays codec sent events frames l =
    (zs : List (List ℕ)) × (l.to_client ≡ sent ++ zs)
    × Merge (map (event_packet codec) events) frames zs

loop-Relays :
    (codec : Codec) (rs : List Ready) (old : List (List ℕ)) (b : Bool) (open_ : goes_on rs ≡ true)
    → Relays codec old
        (manager_events rs)
        (if b then upstream_part rs else [])
        (listen_loop codec (record { to_client = old; has_upstream = b }) (map writable rs))
unfolding listen_loop listen_step
loop-Relays codec [] old true open_ = ([], sym (append-nil old), both_empty)
loop-Relays codec [] old false open_ = ([], sym (append-nil old), both_empty)
loop-Relays codec (event e ∷ rs) old b open_ =
    let packet = event_packet codec e in
    let (zs, same, merge) = loop-Relays codec rs (old ++ packet ∷ []) b open_ in
    (packet ∷ zs, same ∙ append_assoc old (packet ∷ []) zs, from_left merge)
loop-Relays codec (manager_gone ∷ rs) old b open_ = absurd (false≢true open_)
loop-Relays codec (frame f ∷ rs) old true open_ =
    let (zs, same, merge) = loop-Relays codec rs (old ++ f ∷ []) true open_ in
    (f ∷ zs, same ∙ append_assoc old (f ∷ []) zs, from_right merge)
loop-Relays codec (frame f ∷ rs) old false open_ = loop-Relays codec rs old false open_
loop-Relays codec (upstream_gone ∷ rs) old true open_ = loop-Relays codec rs old false open_
loop-Relays codec (upstream_gone ∷ rs) old false open_ = loop-Relays codec rs old false open_
loop-Relays codec (client_gone ∷ rs) old b open_ = absurd (false≢true open_)
loop-Relays codec (client_bytes ∷ rs) old b open_ = loop-Relays codec rs old b open_

subscribed :
    (codec : Codec) (w : World) (tag name : ℕ) (s : Session) (m : Manager)
    (open_ : w.client_open ≡ true) (alive : s.manager ≡ some m)
    → subscribe_client codec w tag name s ≡ (
      tell_manager w
          (send s (codec.into_packet (result 0) tag))
          (subscribe (record { name = name; is_open = true; inbox = [] })),
      true,
    )
unfolding subscribe_client tell_manager
subscribed codec w tag name s m open_ alive = rw (open_, alive) refl

-- A client that listens, and can be written to while the manager is there, is sent `Result 0` with the
-- tag of its request, then the packets of all events of the manager and, in shim mode, all frames of
-- the upstream muxer up to the end of its task, each in its own order and nothing else, as long as
-- neither the manager nor the client goes. The end of the upstream muxer's task does not end it.
pub run_listen-Relays :
    (codec : Codec) (has_upstream : Bool) (w : World) (tag name : ℕ) (s : Session) (m : Manager)
    (open_ : w.client_open ≡ true) (alive : s.manager ≡ some m) (rs : List Ready)
    (on : goes_on rs ≡ true)
    → Relays codec
        (s.to_client ++ codec.into_packet (result 0) tag ∷ [])
        (manager_events rs)
        (if has_upstream then upstream_part rs else [])
        (run_listen codec has_upstream w tag name s (map writable rs))
unfolding run_listen
run_listen-Relays codec has_upstream w tag name s m open_ alive rs on =
    let sent = s.to_client ++ codec.into_packet (result 0) tag ∷ [] in
    let r : Request = subscribe (record { name = name; is_open = true; inbox = [] }) in
    rw
      (
        subscribed codec w tag name s m open_ alive,
        tell_manager-to_client w (send s (codec.into_packet (result 0) tag)) r,
      )
      (loop-Relays codec rs sent has_upstream on)
