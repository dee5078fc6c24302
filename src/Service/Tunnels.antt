-- ===== src/Service/Tunnels.antt =====
-- src/main.rs, `Connect` in `handle_stream`: the tunnel to a device, and the kill that the manager has
-- for it.
use netmuxd.Base.{
  ℕ, ◌≡◌, refl, Bool, true, ◌&&◌, List, [], ◌∷◌, ◌++◌, some, case_option, if◌then◌else◌, ltb, arith,
  case_rule, if_rule, subst, ==_refl,
}
use netmuxd.Base.Dict.{contains, insert, get-insert}
use netmuxd.Manager.State.{Manager, sockets_of, DeviceConnection, shim_network_id_base}
use netmuxd.Manager.Handle.{
  Request, get_device_connection, open_socket, Environment, handle, handle_all,
}
use netmuxd.Service.Host.{Codec, World, Dial, refused, write_failed, replies, result}
use netmuxd.Service.Session.{
  Session, Flow, again, closed, spliced, tunnelled, listening, reply_ignored, tell_manager,
  connection_answer, send,
}
use netmuxd.Service.Requests.{
  splice, reach, overtaken, register_kill, open_tunnel, connect_device, serve_connect,
}
use netmuxd.Service.Held.{IsHeld, HoldsAfter, contains-append, handle_all-HoldsAfter}
use netmuxd.Service.Killed.{Drops, Drops-sends}

-- A tunnel is one to the device that was asked for, and the manager holds its kill.
unfoldable pub Registers : ℕ → Session × Flow → Type 0
Registers device_id (s, tunnelled id kill) =
    (id ≡ device_id) × (m : Manager) × (s.manager ≡ some m) × IsHeld id kill m
Registers device_id (s, again) = Unit {0}
Registers device_id (s, closed) = Unit {0}
Registers device_id (s, spliced) = Unit {0}
Registers device_id (s, listening tag) = Unit {0}

handle-open_socket :
    (env : Environment) (m : Manager) (id kill : ℕ)
    → (m' : Manager) × (handle env m (open_socket id kill) ≡ some m') × IsHeld id kill m'
unfolding handle
handle-open_socket env m id kill = (
  record m { open_sockets = insert id (sockets_of id m.open_sockets ++ kill ∷ []) m.open_sockets },
  refl,
  rw
      (
        get-insert id id (sockets_of id m.open_sockets ++ kill ∷ []) m.open_sockets,
        ==_refl,
        contains-append (sockets_of id m.open_sockets) (kill ∷ []) kill,
        ==_refl,
      )
      ground arith,
)

register_kill-Registers :
    (w : World) (device_id : ℕ) (s : Session) → Registers device_id (register_kill w device_id s)
unfolding Registers register_kill tell_manager
register_kill-Registers w device_id s =
    case_rule (Registers device_id) s.manager {x = (s, closed)}
      {f = λ m. (tell_manager w s (open_socket device_id s.next), tunnelled device_id s.next)}
      (λ _. tt)
      (λ m alive.
        let (m', e, held) = handle-open_socket w.environment m device_id s.next in
        (refl, m', rw (alive) e, held))

module _ (codec : Codec) (w : World) (tag device_id port : ℕ) (s : Session) where
  open_tunnel-Registers : Registers device_id (open_tunnel codec w tag device_id s)
  unfolding Registers open_tunnel
  open_tunnel-Registers =
      let s' = overtaken w (send s (codec.into_packet (result 0) tag)) in
      if_rule (Registers device_id) w.client_open {x = register_kill w device_id s'}
        {y = (s, closed)} (λ _. register_kill-Registers w device_id s') (λ _. tt)

connect_device-Registers :
    (codec : Codec) (w : World) (tag device_id port : ℕ) (s : Session)
    → Registers device_id (connect_device codec w tag device_id port s)
unfolding Registers connect_device
connect_device-Registers codec w tag device_id port s =
    let s' = tell_manager w s (get_device_connection device_id s.next) in
    let failed : Session × Flow = (reply_ignored w s' (codec.into_packet (result 1) tag), again) in
    let open_one = λ (c : DeviceConnection).
      if reach w c port then open_tunnel codec w tag device_id s' else failed in
    case_rule (Registers device_id) (connection_answer s' s.next) {x = (s', closed)}
      {f = λ lookup. case_option lookup failed open_one} (λ _. tt)
      (λ lookup _.
        case_rule (Registers device_id) lookup {x = failed} {f = open_one} (λ _. tt)
          (λ c _.
            if_rule (Registers device_id) (reach w c port)
              {x = open_tunnel codec w tag device_id s'} {y = failed}
              (λ _. open_tunnel-Registers codec w tag device_id port s') (λ _. tt)))

splice-Registers :
    (codec : Codec) (w : World) (tag device_id : ℕ) (packet : List ℕ) (d : Dial) (s : Session)
    → Registers device_id (splice codec w tag packet d s)
unfolding Registers splice
splice-Registers codec w tag device_id packet refused s = tt
splice-Registers codec w tag device_id packet write_failed s = tt
splice-Registers codec w tag device_id packet (replies bytes) s = tt

serve_connect-Registers :
    (codec : Codec) (shim : Bool) (w : World) (tag : ℕ) (packet : List ℕ) (device_id port : ℕ)
    (s : Session)
    → Registers device_id (serve_connect codec shim w tag packet device_id port s)
unfolding serve_connect
serve_connect-Registers codec shim w tag packet device_id port s =
    if_rule (Registers device_id) (shim && ltb device_id shim_network_id_base)
      {x = splice codec w tag packet (w.dial packet) s}
      {y = connect_device codec w tag device_id port s}
      (λ _. splice-Registers codec w tag device_id packet (w.dial packet) s)
      (λ _. connect_device-Registers codec w tag device_id port s)

-- If a `Connect` becomes a tunnel to a device, then it is the device that was asked for, and the manager
-- is still there. If the manager then handles any requests, without a panic, and after them one by
-- which it lets go of that device, which is still in its table, be it `RemoveDevice` or
-- `HeartbeatFailed`, then it does not panic, and the kill of the tunnel has been sent.
pub tunnel-killed :
    (codec : Codec) (shim : Bool) (w : World) (tag : ℕ) (packet : List ℕ) (device_id port : ℕ)
    (s s' : Session) (id kill : ℕ)
    (opens : serve_connect codec shim w tag packet device_id port s ≡ (s', tunnelled id kill))
    (env : Environment) (rs : List Request) (later : Manager)
    (runs : (m : Manager) → s'.manager ≡ some m → handle_all env m rs ≡ some later) (r : Request)
    (drops : Drops id later r)
    → (id ≡ device_id)
      × (m : Manager) × (s'.manager ≡ some m)
      × (m' : Manager) × (handle env later r ≡ some m')
      × (contains m'.killed kill ≡ true)
unfolding Registers
tunnel-killed codec shim w tag packet device_id port s s' id kill opens env rs later runs r drops =
    let (same, m, alive, held) =
      subst (Registers device_id) opens
        (serve_connect-Registers codec shim w tag packet device_id port s) in
    let still =
      subst (HoldsAfter id kill) (runs m alive) (handle_all-HoldsAfter id kill env m rs held) in
    let (m', goes, sent) = Drops-sends kill env id later r still drops in
    (same, m, alive, m', goes, sent)
