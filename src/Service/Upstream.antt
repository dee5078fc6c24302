-- ===== src/Service/Upstream.antt =====
-- src/upstream.rs: requests that an upstream muxer answers, in shim mode.
use netmuxd.Base.{ℕ, List, Option, none, some, case_option, ok, err}
use netmuxd.Devices.Plist.{Entries, Value, Values, nil, cons, array, find}
use netmuxd.Service.Frames.{upstream_frame}
use netmuxd.Service.Host.{Codec, Dial, refused, write_failed, replies, device_list}

-- The single frame that is read of an answer; `none` is one of the failures.
abbrev pub first_frame : List ℕ → Option (List ℕ)
first_frame bytes = elim (upstream_frame bytes) [ ok r ↦ some r.0 | err e ↦ none ]

abbrev pub frame_of_dial : Dial → Option (List ℕ)
frame_of_dial refused = none
frame_of_dial write_failed = none
frame_of_dial (replies bytes) = first_frame bytes

-- `forward_to_upstream`
unfoldable pub forward_to_upstream : (List ℕ → Dial) → List ℕ → Option (List ℕ)
forward_to_upstream dial packet = frame_of_dial (dial packet)

-- `list.extend(..)`
abbrev pub extend : Values → Values → Values
extend nil more = more
extend (cons v vs) more = cons v (extend vs more)

-- The array under `DeviceList`, or none.
abbrev pub device_array : Option Value → Values
device_array (some (array vs)) = vs
device_array _ = nil

abbrev pub devices_of : Entries → Values
devices_of plist = device_array (find "DeviceList" plist)

unfoldable pub merged_list : Codec → List ℕ → Values → ℕ → Option (List ℕ)
merged_list codec frame network_devices tag = case_option (codec.parse frame) none λ parsed.
    some (codec.into_packet (device_list (extend (devices_of parsed.plist) network_devices)) tag)

-- `list_devices_merged`
unfoldable pub list_devices_merged : Codec → (List ℕ → Dial) → List ℕ → Values → ℕ → Option (List ℕ)
list_devices_merged codec dial packet network_devices tag =
    case_option (forward_to_upstream dial packet) none
      λ frame. merged_list codec frame network_devices tag
