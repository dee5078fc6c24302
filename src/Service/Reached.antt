-- ===== src/Service/Reached.antt =====
-- src/main.rs, `Connect` in `handle_stream`: a device of the manager that can be reached.
use netmuxd.Base.{
  ℕ, ◌+◌, ◌<◌, ◌≡◌, refl, true, false, List, [], ◌∷◌, ◌++◌, some, ltb, ==_refl, arith, length,
}
use netmuxd.Base.Bytes.{u64_mod}
use netmuxd.Base.Dict.{get}
use netmuxd.Devices.{MuxerDevice}
use netmuxd.Manager.State.{Manager, DeviceConnection, shim_network_id_base, new_manager}
use netmuxd.Manager.Handle.{
  Request, get_device_connection, Environment, connection_of, lookup_connection, handle, handle_all,
}
use netmuxd.Service.Host.{Codec, World, result}
use netmuxd.Service.Session.{Session, Flow, tunnelled, tell_manager, connection_answer, answer_to}
use netmuxd.Service.Requests.{reach, register_kill, open_tunnel, connect_device, serve_connect}
use netmuxd.Service.Numbering.{AreStarted}
use netmuxd.Service.OwnNumbers.{shim-IsOwn}

pub answer_to-append {ℓ} :
    {A : Type ℓ} (k : ℕ) (a : A) (xs : List (ℕ × A)) → answer_to k (xs ++ (k, a) ∷ []) ≡ some a
answer_to-append k a [] = rw (==_refl) refl
answer_to-append k a ((j, b) ∷ []) = rw (==_refl) refl
answer_to-append k a (x ∷ (y ∷ rest)) = answer_to-append k a (y ∷ rest)

-- A lookup is answered with what the tables say.
lookup-answered :
    (w : World) (s : Session) (m : Manager) (id : ℕ) (alive : s.manager ≡ some m)
    → connection_answer (tell_manager w s (get_device_connection id s.next)) s.next
      ≡ some (lookup_connection m id)
unfolding tell_manager handle
lookup-answered w s m id alive = rw (alive, answer_to-append) refl

-- The session has become the tunnel with the given kill: the client has been sent `Result 0` and
-- nothing else, and the upstream muxer nothing.
pub record IsTunnel (codec : Codec) (tag id kill : ℕ) (s : Session) (r : Session × Flow)
    : Type 0 where
  pub flow : r.1 ≡ tunnelled id kill
  pub told : r.0.to_client ≡ s.to_client ++ codec.into_packet (result 0) tag ∷ []
  pub upstream : r.0.to_upstream ≡ s.to_upstream

-- The manager once it has answered the lookup of a session.
abbrev pub answered : Manager → ℕ → DeviceConnection → Manager
answered m caller c = record m { connections = m.connections ++ (caller, some c) ∷ [] }

open_tunnel-IsTunnel :
    (codec : Codec) (w : World) (tag id : ℕ) (s : Session) (m m' : Manager)
    (open_ : w.client_open ≡ true) (alive : s.manager ≡ some m)
    (goes_on : handle_all w.environment m w.meanwhile ≡ some m')
    → IsTunnel codec tag id s.next s (open_tunnel codec w tag id s)
unfolding open_tunnel register_kill tell_manager
open_tunnel-IsTunnel codec w tag id s m m' open_ alive goes_on =
    rw (open_, alive, goes_on) record { flow = refl; told = refl; upstream = refl }

connect_device-IsTunnel :
    (codec : Codec) (w : World) (tag id port : ℕ) (s : Session) (m m' : Manager) (d : MuxerDevice)
    (open_ : w.client_open ≡ true) (alive : s.manager ≡ some m) (held : get id m.devices ≡ some d)
    (reachable : reach w (connection_of m id d) port ≡ true)
    (goes_on : handle_all w.environment (answered m s.next (connection_of m id d)) w.meanwhile
      ≡ some m')
    → IsTunnel codec tag id (s.next + 1) s (connect_device codec w tag id port s)
unfolding connect_device tell_manager handle lookup_connection
connect_device-IsTunnel codec w tag id port s m m' d open_ alive held reachable goes_on =
    let t : Session = record s {
      manager = some (answered m s.next (connection_of m id d));
      next = s.next + 1;
    } in
    let g =
      open_tunnel-IsTunnel codec w tag id t (answered m s.next (connection_of m id d)) m' open_ refl
        goes_on in
    rw (alive, answer_to-append, held, reachable)
      record { flow = g.flow; told = g.told; upstream = g.upstream }

-- In shim mode, after any run of the manager in which the numbers do not run out: a `Connect` to a
-- device that it holds is never given to the upstream muxer, even if that knows a device of the same
-- number. If the device can be reached, the client can be written to, and the manager does not
-- panic meanwhile, then the session becomes a tunnel to that device, its client has been sent
-- `Result 0` and nothing else, and the upstream muxer nothing.
pub shim-connects :
    (env : Environment) (rs : List Request) (few : shim_network_id_base + length rs < u64_mod)
    (fair : AreStarted env (new_manager true) rs) (m : Manager)
    (run : handle_all env (new_manager true) rs ≡ some m) (id : ℕ) (d : MuxerDevice)
    (held : get id m.devices ≡ some d) (codec : Codec) (w : World) (tag : ℕ) (packet : List ℕ)
    (port : ℕ) (s : Session) (m' : Manager) (open_ : w.client_open ≡ true)
    (alive : s.manager ≡ some m) (reachable : reach w (connection_of m id d) port ≡ true)
    (goes_on : handle_all w.environment (answered m s.next (connection_of m id d)) w.meanwhile
      ≡ some m')
    → IsTunnel codec tag id (s.next + 1) s (serve_connect codec true w tag packet id port s)
unfolding serve_connect
shim-connects env rs few fair m run id d held codec w tag packet port s m' open_ alive reachable
      goes_on =
    let own = shim-IsOwn env rs few fair m run id d held in
    let here : ltb id shim_network_id_base ≡ false = ground (arith, own) in
    rw (here)
      (connect_device-IsTunnel codec w tag id port s m m' d open_ alive held reachable goes_on)
