-- ===== src/Daemon/Hotplug.antt =====
-- src/daemon/nusb_backend.rs: USB devices that come and go. A step is a turn of the loop or of a spawned
-- task; a pairing that a connection starts ends at the earliest after the device is known.
use Prim.Native.String.{String}
use netmuxd.Base.{
  ℕ, zero, suc, Bool, true, false, ◌&&◌, List, [], ◌∷◌, ◌++◌, Option, none, some, case_option,
  if◌then◌else◌,
}
use netmuxd.Base.Dict.{get, insert, remove}
use netmuxd.Apple.Descriptors.{DeviceConfig, MuxTarget, is_apple_mux, is_active}
use netmuxd.Daemon.Target.{
  find_mux_target, device_location_id, Speed, speed_to_bps, Claim, claim_interface_with_retry,
  claim_interface_retries,
}
use netmuxd.Daemon.Usb.{
  Preflight, PairRun, DeviceMeta, Shared, send_remove, connect_device, finish_pairing,
}

-- A device that appears, with what nusb shows of it and what its steps come to: its number of nusb, the
-- handle that its mux task gets, its serial number, trimmed, whether it opens, the switch of the
-- configuration, the claims of the interface and of its endpoints, and the check of its record.
pub record Plug : Type 0 where
  pub id : ℕ
  pub mux_handle : ℕ
  pub vendor_id : ℕ
  pub product_id : ℕ
  pub serial : Option String
  pub port_chain : List ℕ
  pub speed : Option Speed
  pub opens : Bool
  pub active : Option DeviceConfig
  pub configs : List DeviceConfig
  pub switches : Bool
  pub claims : ℕ → Claim
  pub has_in : Bool
  pub has_out : Bool
  pub preflight : Preflight

-- A pairing that goes on.
pub record Pending : Type 0 where
  pub key : ℕ
  pub mux_handle : ℕ
  pub meta : DeviceMeta
  pub raw : String

-- The backend: what its tasks share, the mux tasks that have been spawned, the pairings that go on, and
-- the devices that have been told to switch their mode.
pub record Hub : Type 0 where
  pub shared : Shared
  pub spawned : List (ℕ × String)
  pub pairings : List Pending
  pub switched : List ℕ

-- The backend when it starts.
abbrev pub new_hub : List String → Hub
new_hub records = record {
  shared = record { records = records; requests = []; known = []; shut_down = [] };
  spawned = [];
  pairings = [];
  switched = [];
}

abbrev pub meta_of : Plug → DeviceMeta
meta_of p = record {
  location_id = device_location_id p.port_chain;
  product_id = p.product_id;
  speed = speed_to_bps p.speed;
}

abbrev pub value_of : Option DeviceConfig → Option ℕ
value_of none = none
value_of (some c) = some c.configuration_value

-- The configuration is the target's, or can be made so, and the interface and its endpoints are claimed.
unfoldable pub opens_target : Plug → MuxTarget → Bool
opens_target p t =
    (if is_active (value_of p.active) t then true else p.switches)
    && claim_interface_with_retry p.claims claim_interface_retries 0
    && p.has_in
    && p.has_out

abbrev pub start_pairing : Bool → Pending → List Pending → List Pending
start_pairing false pending ps = ps
start_pairing true pending ps = ps ++ pending ∷ []

-- The device is known under its number, and its pairing goes on, if one has been started.
abbrev pub enter : Plug → String → Hub → String × Bool × Shared → Hub
enter p raw h (udid, pairing, d) = record h {
  shared = record d { known = insert p.id udid d.known };
  spawned = h.spawned ++ (p.mux_handle, raw) ∷ [];
  pairings =
      start_pairing pairing
        (record { key = p.id; mux_handle = p.mux_handle; meta = meta_of p; raw = raw }) h.pairings;
}

-- The mux task is spawned, and the device is registered or its pairing started.
unfoldable pub run_mux : Plug → String → Hub → Hub
run_mux p raw h = enter p raw h (connect_device p.mux_handle (meta_of p) raw p.preflight h.shared)

-- `handle_connected`; a device without a mux interface is told to switch its mode.
unfoldable pub handle_connected : Plug → Hub → Hub
handle_connected p h =
    if p.opens
    then case_option (find_mux_target p.active p.configs)
        (record h { switched = h.switched ++ p.id ∷ [] })
        (λ t. if opens_target p t then case_option p.serial h (λ raw. run_mux p raw h) else h)
    else h

-- A device that is known is removed, and known no longer.
unfoldable pub forget : ℕ → Hub → Hub
forget id h =
    let d = h.shared in
    case_option (get id d.known) h
      λ udid. record h { shared = send_remove udid (record d { known = remove id d.known }) }

-- An event of hotplug, the exit of the mux task of a device, or the end of one of the pairings that go
-- on, by its place among them.
pub data HotplugEvent : Type 0 where
  connected : Plug → HotplugEvent
  disconnected mux_exited : ℕ → HotplugEvent
  paired : ℕ → PairRun → HotplugEvent

-- The pairing at a place, and the others.
unfoldable pub pick_pairing : ℕ → List Pending → Option (Pending × List Pending)
pick_pairing n [] = none
pick_pairing zero (p ∷ ps) = some (p, ps)
pick_pairing (suc n) (p ∷ ps) = case_option (pick_pairing n ps) none λ r. some (r.0, p ∷ r.1)

abbrev pub end_pairing : PairRun → Hub → Pending × List Pending → Hub
end_pairing q h (p, ps) = record h {
  shared = finish_pairing p.key p.mux_handle p.meta p.raw q h.shared;
  pairings = ps;
}

-- One turn of the loop of `run`, or of a task that it has spawned.
unfoldable pub hub_step : Hub → HotplugEvent → Hub
hub_step h (connected p) = if is_apple_mux p.vendor_id p.product_id then handle_connected p h else h
hub_step h (disconnected id) = forget id h
hub_step h (mux_exited id) = forget id h
hub_step h (paired n q) = case_option (pick_pairing n h.pairings) h (end_pairing q h)

unfoldable pub run_hub : Hub → List HotplugEvent → Hub
run_hub h [] = h
run_hub h (e ∷ es) = run_hub (hub_step h e) es
