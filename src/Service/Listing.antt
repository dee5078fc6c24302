-- ===== src/Service/Listing.antt =====
-- src/main.rs and src/upstream.rs, `ListDevices`: the devices of the upstream muxer and those of the
-- manager in one list.
use netmuxd.Base.{ℕ, List, Option, none, some, case_option}
use netmuxd.Devices.Plist.{end, entry, Values, array}
use netmuxd.Manager.State.{Manager}
use netmuxd.Service.Host.{Codec, ServerResponse}
use netmuxd.Service.Upstream.{devices_of, extend}
use netmuxd.Service.Session.{Session}

-- The devices in the frame that the upstream muxer answers with, if there is one that can be read.
abbrev pub their_devices : Codec → Option (List ℕ) → Option Values
their_devices codec none = none
their_devices codec (some frame) =
    case_option (codec.parse frame) none λ parsed. some (devices_of parsed.plist)

-- All devices: theirs in front of the manager's own, or only these.
abbrev pub all_devices : Codec → ℕ → Option Values → Values → List ℕ
all_devices codec tag none own = codec.print (entry "DeviceList" (array own) end) tag
all_devices codec tag (some theirs) own =
    codec.into_packet (ServerResponse.device_list (extend theirs own)) tag
