-- ===== src/Service/Host.antt =====
-- src/main.rs: what a session reads and calls that is not its own code.
use Prim.Native.String.{String}
use netmuxd.Base.{ℕ, Bool, List, Option}
use netmuxd.Devices.Plist.{Entries, Values}
use netmuxd.Devices.Sockaddr.{IpAddr}
use netmuxd.Manager.Handle.{Environment, Request}

-- `RawPacket` of idevice, as far as a session looks at it.
pub record RawPacket : Type 0 where
  pub plist : Entries
  pub tag : ℕ

-- `UsbmuxdServerRequest` of idevice
pub data ServerRequest : Type 0 where
  list_devices listen read_buid : ServerRequest
  read_pair_record : String → ServerRequest
  save_pair_record : Option String → Option ℕ → List ℕ → ServerRequest
  connect : ℕ → ℕ → ServerRequest

-- What `UsbmuxdServerRequest::decode` gives: a request, the name of a message type that it does not
-- know, or another failure.
pub data Decoded : Type 0 where
  request : ServerRequest → Decoded
  unknown_message_type : String → Decoded
  malformed : Decoded

-- `UsbmuxdServerResponse` of idevice
pub data ServerResponse : Type 0 where
  result : ℕ → ServerResponse
  pair_record : List ℕ → ServerResponse
  buid : String → ServerResponse
  device_list : Values → ServerResponse
  attached : Entries → ServerResponse
  detached : ℕ → ServerResponse

-- The packet functions of idevice: `RawPacket::try_from`, `decode`, `RawPacket::new(.., 1, 8, tag)`
-- and `into_packet(tag)`, the last two as bytes.
pub record Codec : Type 0 where
  pub parse : List ℕ → Option RawPacket
  pub decode : RawPacket → Decoded
  pub print : Entries → ℕ → List ℕ
  pub into_packet : ServerResponse → ℕ → List ℕ

-- A fresh connection to the upstream muxer, on which a packet is written: it is refused, the write
-- fails, or the bytes come back up to the end of the stream.
pub data Dial : Type 0 where
  refused write_failed : Dial
  replies : List ℕ → Dial

-- What the outside does while a request is handled: the manager's surroundings, the upstream muxer,
-- the pairing storage, the devices, and the client. `add_answer` is the answer to an `AddDevice` that comes
-- later, from a heartbeat task, and `meanwhile` are the requests of others that the manager handles
-- while a device is being connected to.
pub record World : Type 0 where
  pub environment : Environment
  pub dial : List ℕ → Dial
  pub pairing_record : String → Option (List ℕ)
  pub write_record : String → Bool
  pub host_buid : Option String
  pub parse_ip : String → Option IpAddr
  pub tcp_connect : IpAddr → ℕ → Bool
  pub usb_connect : ℕ → ℕ → Bool
  pub add_answer : Option Entries
  pub meanwhile : List Request
  pub client_open : Bool
