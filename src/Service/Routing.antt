-- ===== src/Service/Routing.antt =====
-- src/main.rs, `Connect` in `handle_stream`: who opens the connection, and when it is opened.
use netmuxd.Base.{
  ℕ, ◌<◌, ◌≤◌, ◌≡◌, ◌≢◌, ◌⊎◌, refl, ◌∙◌, Bool, true, false, ◌&&◌, List, [], ◌∷◌, ◌++◌, case_option,
  if◌then◌else◌, ltb, inl, inr, arith, case_rule, if_rule, Option-cases,
}
use netmuxd.Manager.State.{DeviceConnection, shim_network_id_base}
use netmuxd.Manager.Handle.{Request, get_device_connection, open_socket}
use netmuxd.Service.Host.{Codec, World, Dial, refused, write_failed, replies, result}
use netmuxd.Service.Session.{
  Session, Flow, again, closed, spliced, tunnelled, reply_ignored, tell_manager, connection_answer,
  send,
}
use netmuxd.Service.Requests.{
  splice, reach, overtaken, register_kill, open_tunnel, connect_device, serve_connect,
}

-- The manager hears nothing of it: the session is piped to the upstream muxer, which has been sent the
-- packet, or goes on with nothing sent to it.
unfoldable pub IsUpstream : List ℕ → Session → Session × Flow → Type 0
IsUpstream packet s (s', f) =
    (s'.manager ≡ s.manager)
    × (((f ≡ spliced) × (s'.to_upstream ≡ s.to_upstream ++ packet ∷ []))
        ⊎ ((f ≡ again) × (s'.to_upstream ≡ s.to_upstream)))

-- The upstream muxer hears nothing of it.
unfoldable pub IsLocal : Session → Session × Flow → Type 0
IsLocal s (s', f) = (f ≢ spliced) × (s'.to_upstream ≡ s.to_upstream)

reply_ignored-same :
    (w : World) (s : Session) (packet : List ℕ)
    → ((reply_ignored w s packet).manager ≡ s.manager)
      × ((reply_ignored w s packet).to_upstream ≡ s.to_upstream)
unfolding reply_ignored
reply_ignored-same w s packet =
    if_rule (λ (t : Session). (t.manager ≡ s.manager) × (t.to_upstream ≡ s.to_upstream))
      w.client_open {x = send s packet} {y = s} (λ _. (refl, refl)) (λ _. (refl, refl))

splice-IsUpstream :
    (codec : Codec) (w : World) (tag : ℕ) (packet : List ℕ) (d : Dial) (s : Session)
    → IsUpstream packet s (splice codec w tag packet d s)
unfolding splice IsUpstream
splice-IsUpstream codec w tag packet refused s =
    let (m, u) = reply_ignored-same w s (codec.into_packet (result 1) tag) in (m, inr (refl, u))
splice-IsUpstream codec w tag packet write_failed s =
    let (m, u) = reply_ignored-same w s (codec.into_packet (result 1) tag) in (m, inr (refl, u))
splice-IsUpstream codec w tag packet (replies bytes) s = (refl, inl (refl, refl))

tell_manager-to_upstream :
    (w : World) (s : Session) (r : Request) → (tell_manager w s r).to_upstream ≡ s.to_upstream
unfolding tell_manager
tell_manager-to_upstream w s r = elim (Option-cases s.manager) [
  | inl e ↦ rw (e) refl
  | inr (m, e) ↦ rw (e) refl
]

register_kill-IsLocal :
    (w : World) (device_id : ℕ) (s : Session) → IsLocal s (register_kill w device_id s)
unfolding register_kill IsLocal
register_kill-IsLocal w device_id s =
    case_rule (IsLocal s) s.manager {x = (s, closed)}
      {f = λ m. (tell_manager w s (open_socket device_id s.next), tunnelled device_id s.next)}
      (λ _. ((λ e. cc), refl))
      (λ m _. ((λ e. cc), tell_manager-to_upstream w s (open_socket device_id s.next)))

-- What is local after more steps that the upstream muxer does not hear of.
IsLocal-trans :
    (s t : Session) (r : Session × Flow) → t.to_upstream ≡ s.to_upstream → IsLocal t r → IsLocal s r
unfolding IsLocal
IsLocal-trans s t r e h = (h.0, h.1 ∙ e)

open_tunnel-IsLocal :
    (codec : Codec) (w : World) (tag device_id : ℕ) (s : Session)
    → IsLocal s (open_tunnel codec w tag device_id s)
unfolding open_tunnel IsLocal
open_tunnel-IsLocal codec w tag device_id s =
    let s' = overtaken w (send s (codec.into_packet (result 0) tag)) in
    if_rule (IsLocal s) w.client_open {x = register_kill w device_id s'} {y = (s, closed)}
      (λ _.
        IsLocal-trans s s' (register_kill w device_id s') refl
          (register_kill-IsLocal w device_id s'))
      (λ _. ((λ e. cc), refl))

connect_device-IsLocal :
    (codec : Codec) (w : World) (tag device_id port : ℕ) (s : Session)
    → IsLocal s (connect_device codec w tag device_id port s)
unfolding connect_device IsLocal
connect_device-IsLocal codec w tag device_id port s =
    let s' = tell_manager w s (get_device_connection device_id s.next) in
    let told = tell_manager-to_upstream w s (get_device_connection device_id s.next) in
    let refused = codec.into_packet (result 1) tag in
    let failed : Session × Flow = (reply_ignored w s' refused, again) in
    let fails : IsLocal s failed = ((λ e. cc), (reply_ignored-same w s' refused).1 ∙ told) in
    let open_one = λ (c : DeviceConnection).
      if reach w c port then open_tunnel codec w tag device_id s' else failed in
    case_rule (IsLocal s) (connection_answer s' s.next) {x = (s', closed)}
      {f = λ lookup. case_option lookup failed open_one} (λ _. ((λ e. cc), told))
      (λ lookup _.
        case_rule (IsLocal s) lookup {x = failed} {f = open_one} (λ _. fails)
          (λ c _.
            if_rule (IsLocal s) (reach w c port) {x = open_tunnel codec w tag device_id s'}
              {y = failed}
              (λ _.
                IsLocal-trans s s' (open_tunnel codec w tag device_id s') told
                  (open_tunnel-IsLocal codec w tag device_id s'))
              (λ _. fails)))

-- A `Connect` is either the upstream muxer's or the manager's, by the number of the device: in shim
-- mode, below `SHIM_NETWORK_ID_BASE`, the manager hears nothing of it, and the session is either piped
-- to the upstream muxer, which has been sent the very packet, or goes on with nothing sent to it;
-- otherwise the upstream muxer hears nothing of it, and the session is not piped to it.
pub serve_connect-routes :
    (codec : Codec) (shim : Bool) (w : World) (tag : ℕ) (packet : List ℕ) (device_id port : ℕ)
    (s : Session)
    → let r = serve_connect codec shim w tag packet device_id port s in
      ((shim ≡ true) × (device_id < shim_network_id_base) × IsUpstream packet s r)
      ⊎ (((shim ≡ false) ⊎ (shim_network_id_base ≤ device_id)) × IsLocal s r)
unfolding serve_connect
serve_connect-routes codec shim w tag packet device_id port s =
    if_rule
      (λ r.
        ((shim ≡ true) × (device_id < shim_network_id_base) × IsUpstream packet s r)
        ⊎ (((shim ≡ false) ⊎ (shim_network_id_base ≤ device_id)) × IsLocal s r))
      (shim && ltb device_id shim_network_id_base) {x = splice codec w tag packet (w.dial packet) s}
      {y = connect_device codec w tag device_id port s}
      (λ e.
        inl (ground arith, ground arith, splice-IsUpstream codec w tag packet (w.dial packet) s))
      (λ e. inr (not_upstream shim e, connect_device-IsLocal codec w tag device_id port s))
  where
    not_upstream :
        (b : Bool)
        → b && ltb device_id shim_network_id_base ≡ false
        → (b ≡ false) ⊎ (shim_network_id_base ≤ device_id)
    not_upstream true e = inr (ground arith)
    not_upstream false e = inl refl
