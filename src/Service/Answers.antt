-- ===== src/Service/Answers.antt =====
-- src/main.rs, `handle_stream`: what a client is sent for a request.
use Prim.Native.String.{String}
use netmuxd.Base.{
  ℕ, Bool, true, List, [], ◌∷◌, ◌++◌, Option, none, some, case_option, if◌then◌else◌, Option-cases,
  ◌≡◌, refl, ◌⊎◌, inl, inr, if_rule, case_rule,
}
use netmuxd.Manager.State.{Response}
use netmuxd.Manager.Handle.{Request, list_devices, get_device_connection}
use netmuxd.Service.Host.{
  Codec, RawPacket, World, Dial, refused, write_failed, replies, result, pair_record, buid,
}
use netmuxd.Service.Upstream.{forward_to_upstream}
use netmuxd.Service.Session.{
  Session, Flow, again, closed, spliced, tunnelled, listening, reply_and_continue, reply_ignored,
  dialled, tell_manager, connection_answer, response, response_plist,
}
use netmuxd.Service.Records.{
  forward_or, read_local_record, write_local_record, save_by_device, save_local_record,
  read_local_buid,
}
use netmuxd.Service.Requests.{list_packet, serve_list, splice}

-- After a request the client has been sent exactly one packet if the session goes on, the answer
-- `Result 0` if it has become a tunnel to a device, and nothing if it is piped to the upstream muxer or
-- listens. One that has ended has been sent nothing, unless the manager is gone: `Result 0` is sent
-- before the manager is told of a tunnel.
unfoldable pub Answered : Codec → ℕ → List (List ℕ) → Session × Flow → Type 0
Answered codec tag sent (s, again) = (packet : List ℕ) × (s.to_client ≡ sent ++ packet ∷ [])
Answered codec tag sent (s, closed) =
    (s.to_client ≡ sent)
    ⊎ ((s.manager ≡ none) × (s.to_client ≡ sent ++ codec.into_packet (result 0) tag ∷ []))
Answered codec tag sent (s, spliced) = s.to_client ≡ sent
Answered codec tag sent (s, tunnelled device_id kill) =
    s.to_client ≡ sent ++ codec.into_packet (result 0) tag ∷ []
Answered codec tag sent (s, listening t) = s.to_client ≡ sent

pub tell_manager-to_client :
    (w : World) (s : Session) (r : Request) → (tell_manager w s r).to_client ≡ s.to_client
unfolding tell_manager
tell_manager-to_client w s r = elim (Option-cases s.manager) [
  | inl e ↦ rw (e) refl
  | inr (m, e) ↦ rw (e) refl
]

pub dialled-to_client :
    (s : Session) (packet : List ℕ) (d : Dial) → (dialled s packet d).to_client ≡ s.to_client
dialled-to_client s packet refused = refl
dialled-to_client s packet write_failed = refl
dialled-to_client s packet (replies bytes) = refl

module _ (codec : Codec) (w : World) (open_ : w.client_open ≡ true) where
  pub reply_and_continue-Answered :
      (s : Session) (tag : ℕ) (packet : List ℕ) (sent : List (List ℕ)) (same : s.to_client ≡ sent)
      → Answered codec tag sent (reply_and_continue w s packet)
  unfolding Answered reply_and_continue
  reply_and_continue-Answered s tag packet sent same = rw (open_) (packet, rw (same) refl)

  pub reply_ignored-Answered :
      (s : Session) (tag : ℕ) (packet : List ℕ) (sent : List (List ℕ)) (same : s.to_client ≡ sent)
      → Answered codec tag sent (reply_ignored w s packet, again)
  unfolding Answered reply_ignored
  reply_ignored-Answered s tag packet sent same = rw (open_) (packet, rw (same) refl)

  pub write_local_record-Answered :
      (tag : ℕ) (udid : String) (data_ : List ℕ) (s : Session) (sent : List (List ℕ))
      (same : s.to_client ≡ sent)
      → Answered codec tag sent (write_local_record codec w tag udid data_ s)
  unfolding write_local_record
  write_local_record-Answered tag udid data_ s sent same =
      let written : Session = record s { records = s.records ++ (udid, data_) ∷ [] } in
      if_rule (Answered codec tag sent) (w.write_record udid)
        {x = reply_and_continue w written (codec.into_packet (result 0) tag)}
        {y = reply_and_continue w s (codec.into_packet (result 1) tag)}
        (λ _. reply_and_continue-Answered written tag (codec.into_packet (result 0) tag) sent same)
        (λ _. reply_and_continue-Answered s tag (codec.into_packet (result 1) tag) sent same)

  pub told :
      (s : Session) (r : Request) (sent : List (List ℕ)) (same : s.to_client ≡ sent)
      → (tell_manager w s r).to_client ≡ sent
  told s r sent same = rw (tell_manager-to_client) same

  pub save_by_device-Answered :
      (tag device_id : ℕ) (data_ : List ℕ) (s : Session) (sent : List (List ℕ))
      (same : s.to_client ≡ sent)
      → Answered codec tag sent (save_by_device codec w tag device_id data_ s)
  unfolding save_by_device Answered
  save_by_device-Answered tag device_id data_ s sent same =
      let s' = tell_manager w s (get_device_connection device_id s.next) in
      let same' = told s (get_device_connection device_id s.next) sent same in
      case_rule (Answered codec tag sent) (connection_answer s' s.next) {x = (s', closed)}
        {f = λ lookup.
          case_option lookup (s', closed)
            (λ c. write_local_record codec w tag c.serial_number data_ s')}
        (λ _. inl same')
        (λ lookup _.
          case_rule (Answered codec tag sent) lookup {x = (s', closed)}
            {f = λ c. write_local_record codec w tag c.serial_number data_ s'} (λ _. inl same')
            (λ c _. write_local_record-Answered tag c.serial_number data_ s' sent same'))

  pub save_local_record-Answered :
      (tag : ℕ) (id : Option String) (device_id : Option ℕ) (data_ : List ℕ) (s : Session)
      (sent : List (List ℕ)) (same : s.to_client ≡ sent)
      → Answered codec tag sent (save_local_record codec w tag id device_id data_ s)
  unfolding save_local_record Answered
  save_local_record-Answered tag (some udid) d data_ s sent same =
      write_local_record-Answered tag udid data_ s sent same
  save_local_record-Answered tag none none data_ s sent same = inl same
  save_local_record-Answered tag none (some d) data_ s sent same =
      save_by_device-Answered tag d data_ s sent same

  pub read_local_record-Answered :
      (tag : ℕ) (id : String) (s : Session) (sent : List (List ℕ)) (same : s.to_client ≡ sent)
      → Answered codec tag sent (read_local_record codec w tag id s)
  unfolding read_local_record Answered
  read_local_record-Answered tag id s sent same =
      let reply = λ (data_ : List ℕ). codec.into_packet (pair_record data_) tag in
      case_rule (Answered codec tag sent) (w.pairing_record id) {x = (s, closed)}
        {f = λ data_. reply_and_continue w s (reply data_)} (λ _. inl same)
        (λ data_ _. reply_and_continue-Answered s tag (reply data_) sent same)

  pub read_local_buid-Answered :
      (tag : ℕ) (s : Session) (sent : List (List ℕ)) (same : s.to_client ≡ sent)
      → Answered codec tag sent (read_local_buid codec w tag s)
  unfolding read_local_buid Answered
  read_local_buid-Answered tag s sent same =
      let reply = λ (id : String). codec.into_packet (buid id) tag in
      case_rule (Answered codec tag sent) w.host_buid {x = (s, closed)}
        {f = λ id. reply_and_continue w s (reply id)} (λ _. inl same)
        (λ id _. reply_and_continue-Answered s tag (reply id) sent same)

  dialled_same :
      (s : Session) (packet : List ℕ) (sent : List (List ℕ)) (same : s.to_client ≡ sent)
      → (dialled s packet (w.dial packet)).to_client ≡ sent
  dialled_same s packet sent same = rw (dialled-to_client s packet (w.dial packet)) same

  pub forward_or-Answered :
      (tag : ℕ) (shim : Bool) (packet : List ℕ) (fallback : Session → Session × Flow) (s : Session)
      (sent : List (List ℕ)) (same : s.to_client ≡ sent)
      (falls_back : (t : Session) → t.to_client ≡ sent → Answered codec tag sent (fallback t))
      → Answered codec tag sent (forward_or shim w s packet fallback)
  unfolding forward_or
  forward_or-Answered tag shim packet fallback s sent same falls_back =
      let s' = dialled s packet (w.dial packet) in
      let same' = dialled_same s packet sent same in
      if_rule (Answered codec tag sent) shim
        {x = case_option (forward_to_upstream w.dial packet) (fallback s')
          (λ frame. reply_and_continue w s' frame)}
        {y = fallback s}
        (λ _.
          case_rule (Answered codec tag sent) (forward_to_upstream w.dial packet) {x = fallback s'}
            {f = λ frame. reply_and_continue w s' frame} (λ _. falls_back s' same')
            (λ frame _. reply_and_continue-Answered s' tag frame sent same'))
        (λ _. falls_back s same)

  pub serve_list-Answered :
      (shim : Bool) (parsed : RawPacket) (packet : List ℕ) (s : Session) (sent : List (List ℕ))
      (same : s.to_client ≡ sent)
      → Answered codec parsed.tag sent (serve_list codec shim w parsed packet s)
  unfolding serve_list Answered
  serve_list-Answered shim parsed packet s sent same =
      let s' = tell_manager w s (list_devices (some s.next)) in
      let same' = told s (list_devices (some s.next)) sent same in
      let asked = if shim then dialled s' packet (w.dial packet) else s' in
      let list = λ (r : Response). list_packet codec shim w parsed packet (response_plist r) in
      case_rule (Answered codec parsed.tag sent) (response s' s.next) {x = (s', closed)}
        {f = λ r. reply_and_continue w asked (list r)} (λ _. inl same')
        (λ r _. reply_and_continue-Answered asked parsed.tag (list r) sent (
          if_rule (λ (t : Session). t.to_client ≡ sent) shim {x = dialled s' packet (w.dial packet)}
            {y = s'} (λ _. dialled_same s' packet sent same') (λ _. same')))

  pub splice-Answered :
      (tag : ℕ) (packet : List ℕ) (d : Dial) (s : Session) (sent : List (List ℕ))
      (same : s.to_client ≡ sent)
      → Answered codec tag sent (splice codec w tag packet d s)
  unfolding splice Answered
  splice-Answered tag packet refused s sent same =
      reply_ignored-Answered s tag (codec.into_packet (result 1) tag) sent same
  splice-Answered tag packet write_failed s sent same =
      reply_ignored-Answered s tag (codec.into_packet (result 1) tag) sent same
  splice-Answered tag packet (replies bytes) s sent same = same
