-- ===== src/Tests/ServiceRuns.antt =====
-- The sessions of src/main.rs and src/upstream.rs on concrete inputs.
use netmuxd.Base.{
  ℕ, ◌≡◌, refl, ap, ◌↔◌, ◌⊎◌, ◌≤◌, ◌<◌, true, false, List, [], ◌∷◌, ◌++◌, some, none, arith, length,
  ok, case_option,
}
use netmuxd.Base.Dict.{get, insert, remove, contains}
use netmuxd.Devices.{MuxerDevice, device_entries, network_entries, common_entries}
use netmuxd.Devices.Plist.{Entries, end}
use netmuxd.Devices.Sockaddr.{IpAddr, v4, sockaddr}
use netmuxd.Manager.State.{
  Manager, new_manager, shim_network_id_base, is_device, find_device_id, attached_plist, broadcast,
  respond,
}
use netmuxd.Manager.Handle.{
  Request, discovered_network_device, Environment, attach, attach_and_respond, add_network_device,
  network_device, next_index, handle, handle_all, connection_of, remove_device, matching_ids,
  matches_type, remove_ids,
}
use netmuxd.Service.Frames.{client_packet}
use netmuxd.Service.Packets.{IsPacket, client_packet_iff}
use netmuxd.Service.Host.{Codec, RawPacket, ServerRequest, request, World, refused, read_buid}
use netmuxd.Service.Session.{Session, tunnelled}
use netmuxd.Service.Requests.{
  serve_connect, serve_request, connect_device, reach, open_tunnel, register_kill,
}
use netmuxd.Service.Answers.{Answered}
use netmuxd.Service.Reached.{shim-connects, IsTunnel, answered}
use netmuxd.Service.OwnNumbers.{shim-IsOwn}
use netmuxd.Service.Numbering.{IsOwn}
use netmuxd.Service.Tunnels.{tunnel-killed}
use netmuxd.Service.Killed.{removes}
use netmuxd.Service.Routing.{serve_connect-routes, IsLocal, IsUpstream}
use netmuxd.Manager.Handle.{lookup_connection}
use netmuxd.Service.Session.{tell_manager}
use netmuxd.Service.Connects.{serve_request-Answered}

abbrev packet : List ℕ
packet = 17 ∷ 0 ∷ 0 ∷ 0 ∷ 1 ∷ 0 ∷ 0 ∷ 0 ∷ 8 ∷ 0 ∷ 0 ∷ 0 ∷ 7 ∷ 0 ∷ 0 ∷ 0 ∷ 42 ∷ []

abbrev codec : Codec
codec = record {
  parse = λ bytes. some (record { plist = end; tag = length bytes });
  decode = λ parsed. request ServerRequest.list_devices;
  print = λ entries tag. tag ∷ [];
  into_packet = λ response tag. 1 ∷ tag ∷ [];
}

abbrev environment : Environment
environment = record { use_heartbeat = false; bsd = false; has_pairing_record = λ udid. true }

abbrev world : World
world = record {
  environment = environment;
  dial = λ bytes. refused;
  pairing_record = λ udid. none;
  write_record = λ udid. true;
  host_buid = some "30142955-444094379208051516";
  parse_ip = λ text. none;
  tcp_connect = λ address port. true;
  usb_connect = λ handle_ port. true;
  add_answer = none;
  meanwhile = [];
  client_open = true;
}

abbrev home : IpAddr
home = v4 (192 ∷ 168 ∷ 1 ∷ 20 ∷ [])

abbrev requests : List Request
requests = discovered_network_device "phone" home "phone.local" "Network" none ∷ []

abbrev phone : MuxerDevice
phone = network_device (new_manager true) "phone" home "phone.local" "Network"

abbrev parsed : RawPacket
parsed = record { plist = end; tag = 7 }

-- The manager of shim mode once it has found the phone.
abbrev found : Manager
found = record (next_index (new_manager true)) { devices = (shim_network_id_base, phone) ∷ [] }

abbrev session : Session
session = record { manager = some found; to_client = []; to_upstream = []; records = []; next = 5 }

-- The names that a run computes with.
service_code : Unit {0}
unfolding get insert remove device_entries network_entries common_entries sockaddr is_device
    find_device_id attached_plist broadcast respond attach attach_and_respond add_network_device
    handle handle_all
service_code = tt

client_packet_iff_example :
    (client_packet (packet ++ 9 ∷ []) ≡ ok (packet, 9 ∷ []))
    ↔ ((packet ++ 9 ∷ [] ≡ packet ++ 9 ∷ []) × IsPacket packet × (length packet ≤ 16777216))
client_packet_iff_example = client_packet_iff (packet ++ 9 ∷ []) packet (9 ∷ [])

serve_request-Answered_example :
    Answered codec 7 [] (serve_request codec true world parsed packet read_buid session)
serve_request-Answered_example =
    serve_request-Answered codec true world parsed packet read_buid session refl

run-found : handle_all environment (new_manager true) requests ≡ some found
unfolding service_code
run-found = refl

held : get shim_network_id_base found.devices ≡ some phone
unfolding get
held = refl

goes_on :
    handle_all environment (answered found 5 (connection_of found shim_network_id_base phone)) []
    ≡ some (answered found 5 (connection_of found shim_network_id_base phone))
unfolding handle_all
goes_on = refl

reachable : reach world (connection_of found shim_network_id_base phone) 62078 ≡ true
unfolding reach
reachable = refl

shim-IsOwn_example : IsOwn shim_network_id_base
unfolding service_code
shim-IsOwn_example =
    shim-IsOwn environment requests (omega arith) (tt, tt) found run-found shim_network_id_base
      phone held

shim-connects_example :
    IsTunnel codec 7 shim_network_id_base 6 session
      (serve_connect codec true world 7 packet shim_network_id_base 62078 session)
unfolding service_code
shim-connects_example =
    shim-connects environment requests (omega arith) (tt, tt) found run-found shim_network_id_base
      phone held codec world 7 packet 62078 session
      (answered found 5 (connection_of found shim_network_id_base phone)) refl refl reachable
      goes_on

-- The session once the tunnel to the phone is open.
abbrev tunnel_session : Session
tunnel_session = (serve_connect codec true world 7 packet shim_network_id_base 62078 session).0

opens :
    serve_connect codec true world 7 packet shim_network_id_base 62078 session
    ≡ (tunnel_session, tunnelled shim_network_id_base 6)
unfolding service_code serve_connect connect_device tell_manager lookup_connection reach open_tunnel
    register_kill
opens = refl

-- The manager of that session, which knows of the tunnel.
abbrev tunnel_manager : Manager
tunnel_manager = record (answered found 5 (connection_of found shim_network_id_base phone)) {
  open_sockets = (shim_network_id_base, 6 ∷ []) ∷ [];
}

tablet_gone :
    (m : Manager)
    → tunnel_session.manager ≡ some m
    → handle_all environment m (remove_device "tablet" none ∷ []) ≡ some tunnel_manager
unfolding service_code serve_connect connect_device tell_manager lookup_connection reach open_tunnel
    register_kill matching_ids remove_ids
tablet_gone m h =
    let e : tunnel_manager ≡ m = ap (λ o. case_option o tunnel_manager (λ x. x)) h in rw (← e) refl

phone_listed : get shim_network_id_base tunnel_manager.devices ≡ some phone
unfolding get
phone_listed = refl

tunnel-killed_example :
    (shim_network_id_base ≡ shim_network_id_base)
    × (m : Manager) × (tunnel_session.manager ≡ some m)
    × (m' : Manager) × (handle environment tunnel_manager (remove_device "phone" none) ≡ some m')
    × (contains m'.killed 6 ≡ true)
unfolding matches_type
tunnel-killed_example =
    tunnel-killed codec true world 7 packet shim_network_id_base 62078 session tunnel_session
      shim_network_id_base 6 opens environment (remove_device "tablet" none ∷ []) tunnel_manager
      tablet_gone (remove_device "phone" none) (removes phone none phone_listed refl)

serve_connect-routes_example :
    ((true ≡ true)
      × (3 < shim_network_id_base)
      × IsUpstream packet session (serve_connect codec true world 7 packet 3 62078 session))
    ⊎ (((true ≡ false) ⊎ (shim_network_id_base ≤ 3))
        × IsLocal session (serve_connect codec true world 7 packet 3 62078 session))
serve_connect-routes_example = serve_connect-routes codec true world 7 packet 3 62078 session

abbrev lists : List Entries
lists = case_option (attached_plist false phone) [] λ p. p ∷ []
