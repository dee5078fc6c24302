-- ===== src/Service/Requests.antt =====
-- src/main.rs, `handle_stream`: one packet of a client, and the packets of a session.
use Prim.Native.String.{String}
use text.Mathlib.Text.{◌==◌ as str_eq}
use netmuxd.Base.{ℕ, Bool, false, ◌&&◌, List, [], ◌∷◌, none, some, case_option, if◌then◌else◌, ltb}
use netmuxd.Devices.Plist.{Entries}
use netmuxd.Manager.State.{DeviceConnection, shim_network_id_base}
use netmuxd.Manager.Handle.{list_devices, get_device_connection, open_socket, handle_all}
use netmuxd.Service.Host.{
  Codec, RawPacket, World, Dial, refused, write_failed, replies, ServerRequest, listen, read_buid,
  read_pair_record, save_pair_record, connect, Decoded, request, unknown_message_type, malformed,
  result,
}
use netmuxd.Service.Upstream.{list_devices_merged, devices_of}
use netmuxd.Service.Session.{
  Session, Flow, again, closed, spliced, tunnelled, listening, send, reply_and_continue,
  reply_ignored, dialled, tell_manager, response, connection_answer, response_plist,
}
use netmuxd.Service.Records.{
  forward_or, read_local_record, save_local_record, read_local_buid, handle_add_device,
  handle_remove_device,
}

-- The upstream list with the manager's devices behind it, or these alone if it is unreachable.
unfoldable pub list_packet : Codec → Bool → World → RawPacket → List ℕ → Entries → List ℕ
list_packet codec shim w parsed packet own =
    let alone = codec.print own parsed.tag in
    if shim
    then case_option (list_devices_merged codec w.dial packet (devices_of own) parsed.tag) alone
        (λ bytes. bytes)
    else alone

unfoldable pub serve_list : Codec → Bool → World → RawPacket → List ℕ → Session → Session × Flow
serve_list codec shim w parsed packet s =
    let s' = tell_manager w s (list_devices (some s.next)) in
    case_option (response s' s.next) (s', closed)
      λ r.
        reply_and_continue w (if shim then dialled s' packet (w.dial packet) else s')
          (list_packet codec shim w parsed packet (response_plist r))

-- `Connect` to a device of the upstream muxer: that one answers itself.
unfoldable pub splice : Codec → World → ℕ → List ℕ → Dial → Session → Session × Flow
splice codec w tag packet refused s = (reply_ignored w s (codec.into_packet (result 1) tag), again)
splice codec w tag packet write_failed s =
    (reply_ignored w s (codec.into_packet (result 1) tag), again)
splice codec w tag packet (replies bytes) s = (dialled s packet (replies bytes), spliced)

-- Whether a connection to the device can be opened: over the network, or over its mux task.
unfoldable pub reach : World → DeviceConnection → ℕ → Bool
reach w c port =
    if str_eq c.connection_type "Network"
    then case_option c.network_address false (λ address. w.tcp_connect address port)
    else if str_eq c.connection_type "USB"
    then case_option c.usb false (λ handle_. w.usb_connect handle_ port)
    else false

-- What others have asked the manager by now.
abbrev pub overtaken : World → Session → Session
overtaken w s = record s {
  manager = case_option s.manager none λ m. handle_all w.environment m w.meanwhile;
}

-- `manager_sender.send(..).expect("Manager is dead")`
unfoldable pub register_kill : World → ℕ → Session → Session × Flow
register_kill w device_id s =
    case_option s.manager (s, closed)
      λ m. (tell_manager w s (open_socket device_id s.next), tunnelled device_id s.next)

unfoldable pub open_tunnel : Codec → World → ℕ → ℕ → Session → Session × Flow
open_tunnel codec w tag device_id s =
    if w.client_open
    then register_kill w device_id (overtaken w (send s (codec.into_packet (result 0) tag)))
    else (s, closed)

-- `Connect` to a device of the manager.
unfoldable pub connect_device : Codec → World → ℕ → ℕ → ℕ → Session → Session × Flow
connect_device codec w tag device_id port s =
    let s' = tell_manager w s (get_device_connection device_id s.next) in
    let failed : Session × Flow = (reply_ignored w s' (codec.into_packet (result 1) tag), again) in
    case_option (connection_answer s' s.next) (s', closed)
      λ lookup.
        case_option lookup failed
          λ c. if reach w c port then open_tunnel codec w tag device_id s' else failed

unfoldable pub serve_connect : Codec → Bool → World → ℕ → List ℕ → ℕ → ℕ → Session → Session × Flow
serve_connect codec shim w tag packet device_id port s =
    if shim && ltb device_id shim_network_id_base
    then splice codec w tag packet (w.dial packet) s
    else connect_device codec w tag device_id port s

unfoldable pub serve_request :
    Codec → Bool → World → RawPacket → List ℕ → ServerRequest → Session → Session × Flow
serve_request codec shim w parsed packet ServerRequest.list_devices s =
    serve_list codec shim w parsed packet s
serve_request codec shim w parsed packet listen s = (s, listening parsed.tag)
serve_request codec shim w parsed packet (read_pair_record id) s =
    forward_or shim w s packet (read_local_record codec w parsed.tag id)
serve_request codec shim w parsed packet (save_pair_record id device_id data_) s =
    forward_or shim w s packet (save_local_record codec w parsed.tag id device_id data_)
serve_request codec shim w parsed packet read_buid s =
    forward_or shim w s packet (read_local_buid codec w parsed.tag)
serve_request codec shim w parsed packet (connect device_id port) s =
    serve_connect codec shim w parsed.tag packet device_id port s

-- A message type of netmuxd's own ends the session; any other is forwarded in shim mode, and passed
-- over if nobody can answer it.
unfoldable pub serve_unknown :
    Codec → Bool → World → RawPacket → List ℕ → String → Session → Session × Flow
serve_unknown codec shim w parsed packet message_type s =
    if str_eq message_type "AddDevice"
    then (handle_add_device codec w parsed s, closed)
    else if str_eq message_type "RemoveDevice"
    then (handle_remove_device w parsed s, closed)
    else forward_or shim w s packet (λ s'. (s', again))

unfoldable pub serve_decoded :
    Codec → Bool → World → RawPacket → List ℕ → Decoded → Session → Session × Flow
serve_decoded codec shim w parsed packet (request r) s =
    serve_request codec shim w parsed packet r s
serve_decoded codec shim w parsed packet (unknown_message_type t) s =
    serve_unknown codec shim w parsed packet t s
serve_decoded codec shim w parsed packet malformed s = (s, closed)

unfoldable pub serve_packet : Codec → Bool → World → List ℕ → Session → Session × Flow
serve_packet codec shim w packet s =
    case_option (codec.parse packet) (s, closed)
      λ parsed. serve_decoded codec shim w parsed packet (codec.decode parsed) s

-- The packets of a session, each with what the outside does meanwhile, up to the end of the session.
unfoldable pub serve_next : (Session → Session × Flow) → Session × Flow → Session × Flow
serve_next next (s, again) = next s
serve_next next (s, closed) = (s, closed)
serve_next next (s, spliced) = (s, spliced)
serve_next next (s, tunnelled device_id kill) = (s, tunnelled device_id kill)
serve_next next (s, listening tag) = (s, listening tag)

unfoldable pub serve_all : Codec → Bool → List (World × List ℕ) → Session → Session × Flow
serve_all codec shim [] s = (s, closed)
serve_all codec shim ((w, packet) ∷ rest) s =
    serve_next (serve_all codec shim rest) (serve_packet codec shim w packet s)
