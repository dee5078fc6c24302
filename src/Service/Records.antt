-- ===== src/Service/Records.antt =====
-- src/main.rs, `handle_stream`: the pairing records and the identity of the host, and the requests that
-- only netmuxd knows.
use Prim.Native.String.{String}
use netmuxd.Base.{ℕ, Bool, List, [], ◌∷◌, ◌++◌, Option, none, some, case_option, if◌then◌else◌}
use netmuxd.Devices.Plist.{Entries, Value, string, find}
use netmuxd.Devices.Sockaddr.{IpAddr}
use netmuxd.Manager.Handle.{discovered_network_device, remove_device, get_device_connection}
use netmuxd.Service.Host.{Codec, RawPacket, World, pair_record, buid, result}
use netmuxd.Service.Upstream.{forward_to_upstream}
use netmuxd.Service.Session.{
  Session, Flow, closed, send, reply_and_continue, dialled, tell_manager, response,
  connection_answer, response_plist,
}

-- In shim mode the upstream muxer answers; the fallback does if it is unreachable, or in no shim.
unfoldable pub forward_or :
    Bool → World → Session → List ℕ → (Session → Session × Flow) → Session × Flow
forward_or shim w s packet fallback =
    let s' = dialled s packet (w.dial packet) in
    if shim
    then case_option (forward_to_upstream w.dial packet) (fallback s')
        (λ frame. reply_and_continue w s' frame)
    else fallback s

-- `ReadPairRecord`
unfoldable pub read_local_record : Codec → World → ℕ → String → Session → Session × Flow
read_local_record codec w tag id s =
    case_option (w.pairing_record id) (s, closed)
      λ data_. reply_and_continue w s (codec.into_packet (pair_record data_) tag)

-- The write of `{udid}.plist` into the storage.
unfoldable pub write_local_record : Codec → World → ℕ → String → List ℕ → Session → Session × Flow
write_local_record codec w tag udid data_ s =
    if w.write_record udid
    then reply_and_continue w (record s { records = s.records ++ (udid, data_) ∷ [] })
        (codec.into_packet (result 0) tag)
    else reply_and_continue w s (codec.into_packet (result 1) tag)

-- `SavePairRecord` names a device by its UDID, or else by the number that the manager gave it.
unfoldable pub save_by_device : Codec → World → ℕ → ℕ → List ℕ → Session → Session × Flow
save_by_device codec w tag device_id data_ s =
    let s' = tell_manager w s (get_device_connection device_id s.next) in
    case_option (connection_answer s' s.next) (s', closed)
      λ lookup.
        case_option lookup (s', closed) λ c. write_local_record codec w tag c.serial_number data_ s'

unfoldable pub save_local_record :
    Codec → World → ℕ → Option String → Option ℕ → List ℕ → Session → Session × Flow
save_local_record codec w tag (some udid) device_id data_ s =
    write_local_record codec w tag udid data_ s
save_local_record codec w tag none none data_ s = (s, closed)
save_local_record codec w tag none (some device_id) data_ s =
    save_by_device codec w tag device_id data_ s

-- `ReadBuid`
unfoldable pub read_local_buid : Codec → World → ℕ → Session → Session × Flow
read_local_buid codec w tag s =
    case_option w.host_buid (s, closed)
      λ id. reply_and_continue w s (codec.into_packet (buid id) tag)

abbrev pub as_string : Option Value → Option String
as_string (some (string s)) = some s
as_string _ = none

-- `rx.await` of an `AddDevice`: the manager's own answer, or the later one of a heartbeat task.
abbrev pub added : Session → ℕ → World → Option Entries
added s id w = case_option (response s id) w.add_answer λ r. some (response_plist r)

unfoldable pub send_added : Codec → World → ℕ → Option Entries → Session → Session
send_added codec w tag none s = s
send_added codec w tag (some plist) s = if w.client_open then send s (codec.print plist tag) else s

unfoldable pub add_device :
    Codec → World → ℕ → String → String → IpAddr → String → Session → Session
add_device codec w tag connection_type service ip udid s =
    let s' =
      tell_manager w s (discovered_network_device udid ip service connection_type (some s.next)) in
    send_added codec w tag (added s' s.next w) s'

-- `handle_add_device`; a field that is not there, or not a text, ends it.
unfoldable pub handle_add_device : Codec → World → RawPacket → Session → Session
handle_add_device codec w parsed s =
    case_option (as_string (find "ConnectionType" parsed.plist)) s λ connection_type.
      case_option (as_string (find "ServiceName" parsed.plist)) s λ service.
        case_option (as_string (find "IPAddress" parsed.plist)) s λ text.
          case_option (w.parse_ip text) s λ ip.
            case_option (as_string (find "DeviceID" parsed.plist)) s
              λ udid. add_device codec w parsed.tag connection_type service ip udid s

-- `handle_remove_device`
unfoldable pub handle_remove_device : World → RawPacket → Session → Session
handle_remove_device w parsed s =
    case_option (as_string (find "DeviceID" parsed.plist)) s
      λ udid. tell_manager w s (remove_device udid none)
