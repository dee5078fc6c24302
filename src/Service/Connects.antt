-- ===== src/Service/Connects.antt =====
-- src/main.rs, `handle_stream`: what a client is sent for a `Connect`, and for any of the standard
-- requests.
use netmuxd.Base.{
  ℕ, Bool, true, List, [], ◌∷◌, ◌++◌, case_option, if◌then◌else◌, ltb, ◌&&◌, ◌≡◌, refl, ap, inl,
  inr, if_rule, case_rule,
}
use netmuxd.Manager.State.{DeviceConnection, shim_network_id_base}
use netmuxd.Manager.Handle.{get_device_connection, open_socket}
use netmuxd.Service.Host.{
  Codec, RawPacket, World, ServerRequest, listen, read_buid, read_pair_record, save_pair_record,
  connect, result,
}
use netmuxd.Service.Session.{
  Session, Flow, again, closed, tunnelled, reply_ignored, tell_manager, connection_answer, send,
}
use netmuxd.Service.Records.{read_local_record, save_local_record, read_local_buid}
use netmuxd.Service.Requests.{
  splice, reach, overtaken, register_kill, open_tunnel, connect_device, serve_connect,
  serve_request,
}
use netmuxd.Service.Answers.{
  Answered, told, reply_ignored-Answered, save_local_record-Answered, read_local_record-Answered,
  read_local_buid-Answered, forward_or-Answered, serve_list-Answered, splice-Answered,
}

module _ (codec : Codec) (w : World) (open_ : w.client_open ≡ true) where
  register_kill-Answered :
      (tag device_id : ℕ) (s : Session) (sent : List (List ℕ))
      (same : s.to_client ≡ sent ++ codec.into_packet (result 0) tag ∷ [])
      → Answered codec tag sent (register_kill w device_id s)
  unfolding register_kill Answered
  register_kill-Answered tag device_id s sent same =
      case_rule (Answered codec tag sent) s.manager {x = (s, closed)}
        {f = λ m. (tell_manager w s (open_socket device_id s.next), tunnelled device_id s.next)}
        (λ gone. inr (gone, same))
        (λ m alive.
          told codec w open_ s (open_socket device_id s.next)
            (sent ++ codec.into_packet (result 0) tag ∷ []) same)

  open_tunnel-Answered :
      (tag device_id : ℕ) (s : Session) (sent : List (List ℕ)) (same : s.to_client ≡ sent)
      → Answered codec tag sent (open_tunnel codec w tag device_id s)
  unfolding open_tunnel register_kill tell_manager
  open_tunnel-Answered tag device_id s sent same =
      let accepted = codec.into_packet (result 0) tag in
      rw (open_) (
        register_kill-Answered tag device_id (overtaken w (send s accepted)) sent
          (ap (λ l. l ++ accepted ∷ []) same))

  connect_device-Answered :
      (tag device_id port : ℕ) (s : Session) (sent : List (List ℕ)) (same : s.to_client ≡ sent)
      → Answered codec tag sent (connect_device codec w tag device_id port s)
  unfolding connect_device Answered
  connect_device-Answered tag device_id port s sent same =
      let s' = tell_manager w s (get_device_connection device_id s.next) in
      let same' = told codec w open_ s (get_device_connection device_id s.next) sent same in
      let refused = codec.into_packet (result 1) tag in
      let failed : Session × Flow = (reply_ignored w s' refused, again) in
      let fails = reply_ignored-Answered codec w open_ s' tag refused sent same' in
      let open_one = λ (c : DeviceConnection).
        if reach w c port then open_tunnel codec w tag device_id s' else failed in
      case_rule (Answered codec tag sent) (connection_answer s' s.next) {x = (s', closed)}
        {f = λ lookup. case_option lookup failed open_one} (λ _. inl same')
        (λ lookup _.
          case_rule (Answered codec tag sent) lookup {x = failed} {f = open_one} (λ _. fails)
            (λ c _.
              if_rule (Answered codec tag sent) (reach w c port)
                {x = open_tunnel codec w tag device_id s'} {y = failed}
                (λ _. open_tunnel-Answered tag device_id s' sent same') (λ _. fails)))

  serve_connect-Answered :
      (shim : Bool) (tag : ℕ) (packet : List ℕ) (device_id port : ℕ) (s : Session)
      (sent : List (List ℕ)) (same : s.to_client ≡ sent)
      → Answered codec tag sent (serve_connect codec shim w tag packet device_id port s)
  unfolding serve_connect
  serve_connect-Answered shim tag packet device_id port s sent same =
      if_rule (Answered codec tag sent) (shim && ltb device_id shim_network_id_base)
        {x = splice codec w tag packet (w.dial packet) s}
        {y = connect_device codec w tag device_id port s}
        (λ _. splice-Answered codec w open_ tag packet (w.dial packet) s sent same)
        (λ _. connect_device-Answered tag device_id port s sent same)

-- For any standard request of a client that can be written to, in shim mode or not, whatever the
-- upstream muxer, the storage, the devices and the manager do: if the session goes on, the client has
-- been sent exactly one more packet; if it has become a tunnel to a device, exactly the packet
-- `Result 0` with the tag of the request; if it is piped to the upstream muxer or listens, nothing; and
-- if it has ended, nothing, or `Result 0` where the manager is found gone once it had been sent.
pub serve_request-Answered :
    (codec : Codec) (shim : Bool) (w : World) (parsed : RawPacket) (packet : List ℕ)
    (r : ServerRequest) (s : Session) (open_ : w.client_open ≡ true)
    → Answered codec parsed.tag s.to_client (serve_request codec shim w parsed packet r s)
unfolding serve_request Answered
serve_request-Answered codec shim w parsed packet ServerRequest.list_devices s open_ =
    serve_list-Answered codec w open_ shim parsed packet s s.to_client refl
serve_request-Answered codec shim w parsed packet listen s open_ = refl
serve_request-Answered codec shim w parsed packet (read_pair_record id) s open_ =
    forward_or-Answered codec w open_ parsed.tag shim packet
      (read_local_record codec w parsed.tag id) s s.to_client refl
      (λ t same. read_local_record-Answered codec w open_ parsed.tag id t s.to_client same)
serve_request-Answered codec shim w parsed packet (save_pair_record id device_id data_) s open_ =
    forward_or-Answered codec w open_ parsed.tag shim packet
      (save_local_record codec w parsed.tag id device_id data_) s s.to_client refl
      (λ t same.
        save_local_record-Answered codec w open_ parsed.tag id device_id data_ t s.to_client same)
serve_request-Answered codec shim w parsed packet read_buid s open_ =
    forward_or-Answered codec w open_ parsed.tag shim packet (read_local_buid codec w parsed.tag) s
      s.to_client refl
      (λ t same. read_local_buid-Answered codec w open_ parsed.tag t s.to_client same)
serve_request-Answered codec shim w parsed packet (connect device_id port) s open_ =
    serve_connect-Answered codec w open_ shim parsed.tag packet device_id port s s.to_client refl
