-- ===== src/Tests/ListenRuns.antt =====
-- The listening sessions of src/main.rs on concrete inputs.
use netmuxd.Base.{ℕ, ◌≡◌, refl, true, List, [], ◌∷◌, ◌++◌, map, arith, replicate, none}
use netmuxd.Devices.Plist.{end}
use netmuxd.Manager.State.{attached, detached}
use netmuxd.Service.Packets.{IsPacket}
use netmuxd.Service.Host.{Codec, refused, write_failed, replies, ServerRequest, request}
use netmuxd.Base.{some, false}
use netmuxd.Manager.State.{new_manager}
use netmuxd.Service.Host.{World}
use netmuxd.Service.Session.{Session}
use netmuxd.Service.Pump.{new_pump, upstream_listen_pump}
use netmuxd.Service.Backoff.{IsPaced, pump-IsPaced, pump-doubling, stream_of, pump-frames}
use netmuxd.Service.Listen.{Ready, event, frame, upstream_gone, client_bytes, run_listen}
use netmuxd.Service.Relayed.{Relays, run_listen-Relays, writable}

abbrev short : List ℕ
short = 16 ∷ 0 ∷ 0 ∷ 0 ∷ 1 ∷ 0 ∷ 0 ∷ 0 ∷ 8 ∷ 0 ∷ 0 ∷ 0 ∷ 0 ∷ 0 ∷ 0 ∷ 0 ∷ []

abbrev streams : List (List ℕ × List (List ℕ))
streams = (short, short ∷ short ∷ []) ∷ (short, []) ∷ (short, short ∷ []) ∷ []

abbrev codec : Codec
codec = record {
  parse = λ bytes. none;
  decode = λ parsed. request ServerRequest.list_devices;
  print = λ entries tag. tag ∷ [];
  into_packet = λ response tag. 1 ∷ tag ∷ [];
}

abbrev ready : List Ready
ready = event (attached end) ∷ frame short ∷ client_bytes ∷ upstream_gone ∷ event (detached 3) ∷ []

is_short : IsPacket short
is_short = (refl, omega arith)

abbrev world : World
world = record {
  environment = record { use_heartbeat = false; bsd = false; has_pairing_record = λ udid. true };
  dial = λ bytes. refused;
  pairing_record = λ udid. none;
  write_record = λ udid. true;
  host_buid = none;
  parse_ip = λ text. none;
  tcp_connect = λ address port. true;
  usb_connect = λ handle_ port. true;
  add_answer = none;
  meanwhile = [];
  client_open = true;
}

abbrev session : Session
session = record {
  manager = some (new_manager true);
  to_client = [];
  to_upstream = [];
  records = [];
  next = 0;
}

pump-IsPaced_example :
    IsPaced
      (upstream_listen_pump (new_pump 9) (refused ∷ replies (short ++ short) ∷ write_failed ∷ []))
pump-IsPaced_example =
    pump-IsPaced (new_pump 9) (refused ∷ replies (short ++ short) ∷ write_failed ∷ [])
      (record { next = (omega arith, omega arith); times = tt })

pump-doubling_example :
    (upstream_listen_pump (new_pump 9) (replicate 7 refused)).slept
    ≡ 250 ∷ 500 ∷ 1000 ∷ 2000 ∷ 4000 ∷ 5000 ∷ 5000 ∷ []
pump-doubling_example = pump-doubling 7 9

pump-frames_example :
    (upstream_listen_pump (new_pump 9) (map stream_of streams)).sent ≡ short ∷ short ∷ short ∷ []
pump-frames_example =
    pump-frames streams
      ((is_short, (is_short, (is_short, tt))), ((is_short, tt), ((is_short, (is_short, tt)), tt)))
      (new_pump 9) 6 refl

run_listen-Relays_example :
    Relays codec
      ((1 ∷ 7 ∷ []) ∷ [])
      (attached end ∷ detached 3 ∷ [])
      (short ∷ [])
      (run_listen codec true world 7 1 session (map writable ready))
run_listen-Relays_example =
    run_listen-Relays codec true world 7 1 session (new_manager true) refl refl ready refl
