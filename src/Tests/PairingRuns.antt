-- ===== src/Tests/PairingRuns.antt =====
-- The pairing records of src/pairing_file.rs and the heartbeat of src/heartbeat.rs on concrete inputs.
use netmuxd.Base.{◌≡◌, refl, ◌⊎◌, ◌≢◌, true, false, List, [], ◌∷◌, some, none}
use netmuxd.Devices.{MuxerDevice}
use netmuxd.Devices.Plist.{Entries, end, entry, string, find}
use netmuxd.Devices.Sockaddr.{IpAddr, v4}
use netmuxd.Manager.Handle.{Environment}
use netmuxd.Pairing.Identity.{
  PlistCrate, absent, contents, get_host_identity, load, ensure, identify, persist, insert_entry,
}
use netmuxd.Pairing.Persistence.{identity-persists}
use netmuxd.Pairing.Finder.{FinderCrates, DirEntry, bad_entry, file}
use netmuxd.Heartbeat.Task.{heartbeat, no_polo, answered, is_ready}
use netmuxd.Heartbeat.Course.{HandsOver, GivesUp, heartbeat-course}

-- A crate that writes a dictionary as it is.
abbrev crate : PlistCrate Entries
crate = record { from_bytes = λ p. some p; to_writer_xml = λ p. some p }

abbrev identity : Entries
identity = entry "HostID" (string "A") (entry "SystemBUID" (string "B") end)

given : get_host_identity crate "A" "B" true absent ≡ (some ("A", "B"), contents identity)
unfolding get_host_identity load ensure identify persist insert_entry find
given = refl

identity-persists_example :
    get_host_identity crate "C" "D" false (contents identity) ≡ (some ("A", "B"), contents identity)
identity-persists_example =
    identity-persists crate "A" "B" absent (λ q. (q, refl, refl)) ("A", "B") (contents identity)
      given "C" "D" false

-- Crates for which a tag is the host id itself.
abbrev crates : FinderCrates
crates = record {
  from_bytes = λ bytes. some identity;
  decode_auth_tag = λ tag. some tag;
  derive_auth_tag = λ host_id identifier. host_id;
  file_stem = λ name. some name;
  first_part = λ name. some name;
  text_bytes = λ text. 1 ∷ 2 ∷ [];
}

abbrev storage : List DirEntry
storage = file "phone" (some (7 ∷ [])) ∷ bad_entry ∷ []

abbrev home : IpAddr
home = v4 (192 ∷ 168 ∷ 1 ∷ 20 ∷ [])

abbrev phone : MuxerDevice
phone = record {
  connection_type = "Network";
  device_id = 4;
  interface_index = 1;
  serial_number = "phone";
  network_address = some home;
  service_name = some "phone.local";
  connection_speed = none;
  location_id = none;
  product_id = none;
}

abbrev environment : Environment
environment = record { use_heartbeat = true; bsd = false; has_pairing_record = λ udid. true }

heartbeat-course_example :
    (((is_ready ≡ is_ready)
        × HandsOver phone
            (some 3)
            (heartbeat phone (some 3) is_ready (answered 10 ∷ no_polo 10 ∷ [])))
      ⊎ ((is_ready ≢ is_ready)
          × GivesUp (some 3) (heartbeat phone (some 3) is_ready (answered 10 ∷ no_polo 10 ∷ []))))
    × ((heartbeat phone (some 3) is_ready (answered 10 ∷ no_polo 10 ∷ [])).panicked ≡ false)
heartbeat-course_example =
    heartbeat-course phone (some 3) is_ready (answered 10 ∷ no_polo 10 ∷ []) home refl
