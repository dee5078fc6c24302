-- ===== src/Tests/DeviceRuns.antt =====
-- The discovery of src/daemon/mod.rs and src/mdns.rs, and the mux interface of src/usb/apple.rs, on
-- concrete inputs.
use netmuxd.Base.{ℕ, ◌≡◌, refl, true, false, List, [], ◌∷◌, some, none}
use netmuxd.Devices.Sockaddr.{v4, v6}
use netmuxd.Pairing.Finder.{
  FinderCrates, DirEntry, file, new_finder, get_udid_from_mac, update_cache, index_all, index_entry,
  index_plist, insert_text, push_udid, contains_text, lookup,
}
use netmuxd.Daemon.Udid.{resolve_paired_udid, candidates, first_paired, all_hexdigits}
use netmuxd.Daemon.Usb.{
  session_ok, Preflight, PairRun, DeviceMeta, Shared, has_record, check_pairing_record,
  invalid_host_id, unique_id, connect_device, run_device,
}
use netmuxd.Daemon.Registered.{Settles, run_device-Settles}
use netmuxd.Devices.Plist.{entry, string, end, find}
use netmuxd.Daemon.Mdns.{
  ResolvedService, mobdev_service_name, resolve, pick_address, find_ipv4, identify_service,
  udid_from_txt,
}
use Prim.Native.String.{String}
use netmuxd.Manager.Handle.{discovered_usb_device, discovered_network_device, remove_device}
use netmuxd.Daemon.Usb.{validate, pair_via_usb, pair_as}
use netmuxd.Daemon.Target.{claimed, high, location_from}
use netmuxd.Daemon.Hotplug.{
  new_hub, connected, Plug, Hub, meta_of, run_mux, hub_step, paired, run_hub, disconnected,
  mux_exited,
}
use netmuxd.Daemon.Balance.{IsBalanced, run_hub-IsBalanced}
use netmuxd.Daemon.Enrolled.{by_pairing, known_to}
use netmuxd.Daemon.Unplugged.{unplugged-removed, by_mux, by_hotplug}
use netmuxd.Apple.Descriptors.{DeviceConfig, AltSetting, collect_mux_candidates}
use netmuxd.Apple.Open.{Try, open_mux_with_progress}
use netmuxd.Apple.Attempts.{Ends}
use netmuxd.Apple.Budget.{open_mux-Ends}

abbrev meta : DeviceMeta
meta = record { location_id = 1; product_id = 0x12a8; speed = 480 }

abbrev refused_host : Preflight
refused_host = record {
  connects = true;
  query_type = some "com.apple.mobile.lockdown";
  session = invalid_host_id;
  removable = true;
}

abbrev pairs : PairRun
pairs = record {
  connects = true;
  query_type = some "com.apple.mobile.lockdown";
  unique = unique_id "phone";
  has_identity = true;
  trusted = true;
  serializes = true;
  writes = true;
}

abbrev plugged : Shared
plugged = record {
  records = "phone" ∷ [];
  requests = [];
  known = (5, "phone") ∷ [];
  shut_down = [];
}

run_device-Settles_example :
    Settles 9 meta plugged (run_device 5 9 meta "phone" refused_host pairs plugged)
run_device-Settles_example = run_device-Settles 5 9 meta "phone" refused_host pairs plugged

abbrev crates : FinderCrates
crates = record {
  from_bytes =
      λ bytes. some (entry "UDID" (string "phone") (entry "WiFiMACAddress" (string "aa:bb") end));
  decode_auth_tag = λ tag. some tag;
  derive_auth_tag = λ host_id identifier. host_id;
  file_stem = λ name. some name;
  first_part = λ name. some name;
  text_bytes = λ text. 1 ∷ 2 ∷ [];
}

abbrev service : ResolvedService
service = record {
  fullname = "aa:bb@fe80";
  addresses = v6 (1 ∷ []) ∷ v4 (192 ∷ 168 ∷ 1 ∷ 20 ∷ []) ∷ [];
  identifier = none;
  properties = [];
}

abbrev storage : List DirEntry
storage = file "phone" (some (7 ∷ [])) ∷ []

-- The service is announced.
announced :
    resolve crates (λ name. some "aa:bb") (some storage) service new_finder
    ≡ some (
      some (
          discovered_network_device "phone"
            (v4 (192 ∷ 168 ∷ 1 ∷ 20 ∷ []))
            mobdev_service_name
            "Network"
            none),
      record {
        known_mac_addresses = ("aa:bb", "phone") ∷ [];
        host_ids = [];
        paired_udids = "phone" ∷ [];
      },
    )
unfolding resolve pick_address find_ipv4 identify_service udid_from_txt get_udid_from_mac
    update_cache index_all index_entry index_plist insert_text push_udid contains_text lookup find
announced = refl

abbrev mux_setting : AltSetting
mux_setting = record {
  interface_number = 1;
  class = 0xff;
  subclass = 0xfe;
  protocol = 2;
  endpoints =
      record { is_bulk = true; is_in = true; address = 0x85 }
      ∷ record { is_bulk = true; is_in = false; address = 4 }
      ∷ [];
}

abbrev configs : List DeviceConfig
configs =
    record { configuration_value = 1; interfaces = [] }
    ∷ record { configuration_value = 4; interfaces = (mux_setting ∷ []) ∷ [] }
    ∷ record { configuration_value = 5; interfaces = (mux_setting ∷ []) ∷ [] }
    ∷ []

abbrev tries : ℕ → Try
tries n = record {
  resets = true;
  active = some 4;
  switches = true;
  claims = false;
  has_in = true;
  has_out = true;
}

open_mux-Ends_example :
    Ends 3 7
      (collect_mux_candidates (some 4) configs)
      (open_mux_with_progress 0x05ac 0x12a8 true (some 4) configs 7 tries)
open_mux-Ends_example = open_mux-Ends 0x05ac 0x12a8 true (some 4) configs 7 tries

abbrev trusted : Preflight
trusted = record {
  connects = true;
  query_type = some "com.apple.mobile.lockdown";
  session = session_ok;
  removable = true;
}

abbrev plug : Plug
plug = record {
  id = 6;
  mux_handle = 9;
  vendor_id = 0x05ac;
  product_id = 0x12a8;
  serial = some "phone";
  port_chain = 1 ∷ 2 ∷ [];
  speed = some high;
  opens = true;
  active = none;
  configs = configs;
  switches = true;
  claims = λ n. claimed;
  has_in = true;
  has_out = true;
  preflight = trusted;
}

abbrev hub : Hub
hub = record { shared = plugged; spawned = []; pairings = []; switched = [] }

-- The same device with a record that is stale by now.
abbrev stale_plug : Plug
stale_plug = record plug { preflight = refused_host }

unpaired : (connect_device 9 (meta_of plug) "phone" refused_host plugged).1 ≡ true
unfolding connect_device validate resolve_paired_udid candidates first_paired has_record
    all_hexdigits check_pairing_record
unpaired = refl

pairing_wins : (pair_via_usb pairs "phone" (run_mux stale_plug "phone" hub).shared).0 ≡ some "phone"
unfolding pair_via_usb pair_as
pairing_wins = refl

unplugged-removed_example :
    let start = hub_step (run_mux stale_plug "phone" hub) (paired 0 pairs) in
    let h' = run_hub start (mux_exited 6 ∷ disconnected 6 ∷ []) in
    (udid : String) × (h'.shared.requests
      ≡ discovered_usb_device udid 18 0x12a8 480000000 9 ∷ remove_device udid (some "USB") ∷ [])
    × (known_to h' 6 ≡ none)
unfolding location_from
unplugged-removed_example =
    unplugged-removed stale_plug "phone" hub
      (hub_step (run_mux stale_plug "phone" hub) (paired 0 pairs))
      (by_pairing pairs "phone" unpaired pairing_wins) (mux_exited 6) (disconnected 6) by_mux
      by_hotplug

-- The device is connected, paired, goes, and is connected again.
run_hub-IsBalanced_example : IsBalanced (
    run_hub
      (new_hub ("phone" ∷ []))
      (connected stale_plug ∷ paired 0 pairs ∷ mux_exited 6 ∷ connected stale_plug ∷ []))
run_hub-IsBalanced_example =
    run_hub-IsBalanced ("phone" ∷ [])
      (connected stale_plug ∷ paired 0 pairs ∷ mux_exited 6 ∷ connected stale_plug ∷ [])
