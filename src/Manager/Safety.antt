-- ===== src/Manager/Safety.antt =====
-- src/manager.rs: when the table of devices is safe to convert, and the requests that add to it.
use Prim.Native.String.{String}
use text.Mathlib.Text.{◌==◌ as str_eq}
use netmuxd.Base.{
  ℕ, ◌+◌, ◌%◌, ◌≤◌, ◌<◌, ◌≡◌, refl, ◌∙◌, ◌≢◌, Bool, true, List, Option, none, some, if◌then◌else◌,
  arith, All, All-map, if_rule, Option-cases, inl, inr,
}
use netmuxd.Base.Dict.{insert, All-insert}
use netmuxd.Base.Bytes.{u64_mod}
use mathlib.Core.Bool.{false≢true}
use netmuxd.Devices.Plist.{Entries}
use netmuxd.Devices.{MuxerDevice, device_entries, network_entries}
use netmuxd.Devices.Sockaddr.{IpAddr}
use netmuxd.Manager.State.{Manager, attached, Response, result, attached_plist, broadcast, respond}
use netmuxd.Manager.Handle.{
  Request, deferred_muxer_add, Environment, attach, next_index, network_device, usb_device,
  start_heartbeat, attach_and_respond, add_network_device, add_usb_device,
}

-- A network device has the name and the address that its property list is made of.
abbrev pub HasNetworkFields : MuxerDevice → Type 0
HasNetworkFields d =
    str_eq d.connection_type "Network" ≡ true → (d.service_name ≢ none) × (d.network_address ≢ none)

-- What holds of a device in the table, or on its way there through a heartbeat task.
pub record IsKnown (bound id : ℕ) (d : MuxerDevice) : Type 0 where
  pub fields : HasNetworkFields d
  pub own_id : d.device_id ≡ id
  pub below : id < bound

abbrev pub Entry : ℕ → ℕ × MuxerDevice → Type 0
Entry bound (id, d) = IsKnown bound id d

pub record IsSafe (m : Manager) : Type 0 where
  pub known : All (Entry m.last_index) m.devices

-- A deferred device is one that this manager has numbered.
abbrev pub IsFair : Manager → Request → Type 0
IsFair m (deferred_muxer_add d response) = IsKnown m.last_index d.device_id d
IsFair m _ = Unit {0}

device_entries-ne-none :
    (bsd : Bool) (d : MuxerDevice) → HasNetworkFields d → device_entries bsd d ≢ none
unfolding device_entries network_entries
device_entries-ne-none bsd d h = ground (arith, h)

attached_plist-ne-none :
    (bsd : Bool) (d : MuxerDevice) → HasNetworkFields d → attached_plist bsd d ≢ none
unfolding attached_plist
attached_plist-ne-none bsd d h = ground (arith, device_entries-ne-none bsd d h)

pub attached_plist_total :
    (bsd : Bool) (d : MuxerDevice)
    → HasNetworkFields d
    → (p : Entries) × (attached_plist bsd d ≡ some p)
attached_plist_total bsd d h = elim (Option-cases (attached_plist bsd d)) [
  | inl e ↦ absurd (attached_plist-ne-none bsd d h e)
  | inr (p, e) ↦ (p, e)
]

weaken :
    (a b : ℕ) (devices : List (ℕ × MuxerDevice))
    → a ≤ b
    → All (Entry a) devices
    → All (Entry b) devices
weaken a b devices le =
    All-map (Entry a) (Entry b) devices
      (λ e h. record { fields = h.fields; own_id = h.own_id; below = omega (arith, h.below) })

-- The devices of a manager stand in a table and nowhere else, so that this is all that is asked.
pub devices-respond :
    (m : Manager) (o : Option ℕ) (r : Response)
    → ((respond m o r).devices ≡ m.devices) × ((respond m o r).last_index ≡ m.last_index)
unfolding respond
devices-respond m none r = (refl, refl)
devices-respond m (some c) r = (refl, refl)

-- A request is carried out, and leaves a safe manager whose numbers have not gone back.
abbrev pub Carries : Manager → Option Manager → Type 0
Carries m r =
    (m' : Manager) × (r ≡ some m')
    × IsSafe m'
    × (m.last_index ≤ m'.last_index)
    × (m'.last_index ≤ m.last_index + 1)

attach-Carries :
    (env : Environment) (m : Manager) (d : MuxerDevice)
    → IsSafe m
    → IsKnown m.last_index d.device_id d
    → (m' : Manager) × (attach env m d ≡ some m') × IsSafe m' × (m'.last_index ≡ m.last_index)
unfolding attach
attach-Carries env m d s k =
    let (p, e) = attached_plist_total env.bsd d k.fields in
    (
      record m {
        devices = insert d.device_id d m.devices;
        listeners = broadcast m.listeners (attached p);
      },
      rw e,
      record { known = All-insert (Entry m.last_index) d.device_id d m.devices k s.known },
      refl,
    )

pub attach_and_respond-Carries :
    (env : Environment) (m : Manager) (d : MuxerDevice) (o : Option ℕ)
    → IsSafe m
    → IsKnown m.last_index d.device_id d
    → (m' : Manager) × (attach_and_respond env m d o ≡ some m')
      × IsSafe m'
      × (m'.last_index ≡ m.last_index)
unfolding attach_and_respond
attach_and_respond-Carries env m d o s k =
    let (m', e, s', same) = attach-Carries env m d s k in
    let (dev, last) = devices-respond m' o (result 1) in
    (respond m' o (result 1), rw e, record { known = rw (dev, last) s'.known }, last ∙ same)

pub stay : (m : Manager) → IsSafe m → Carries m (some m)
stay m s = (m, refl, s, omega arith, omega arith)

next_index-IsSafe : (m : Manager) → m.last_index + 1 < u64_mod → IsSafe m → IsSafe (next_index m)
next_index-IsSafe m room s = record { known = weaken _ _ m.devices (omega arith) s.known }

-- The numbers go up by one.
carry_on :
    (m : Manager) (r : Option Manager)
    → m.last_index + 1 < u64_mod
    → (m' : Manager) × (r ≡ some m') × IsSafe m' × (m'.last_index ≡ (m.last_index + 1) % u64_mod)
    → Carries m r
carry_on m r room (m', e, s, l) = (m', e, s, omega (arith, l), omega (arith, l))

network_device-IsKnown :
    (m : Manager) (udid : String) (address : IpAddr) (service t : String)
    → m.last_index + 1 < u64_mod
    → IsKnown (next_index m).last_index m.last_index (network_device m udid address service t)
network_device-IsKnown m udid address service t room = record {
  fields = λ _. ((λ e. cc), (λ e. cc));
  own_id = refl;
  below = omega arith;
}

pub add_network_device-Carries :
    (env : Environment) (m : Manager) (udid : String) (address : IpAddr) (service t : String)
    (o : Option ℕ)
    → m.last_index + 1 < u64_mod
    → IsSafe m
    → Carries m (add_network_device env m udid address service t o)
unfolding add_network_device start_heartbeat
add_network_device-Carries env m udid address service t o room s =
    let d = network_device m udid address service t in
    let safe = next_index-IsSafe m room s in
    let known = network_device-IsKnown m udid address service t room in
    if_rule (Carries m) (env.has_pairing_record udid)
      {x = if env.use_heartbeat
        then some (start_heartbeat (next_index m) d o)
        else attach_and_respond env (next_index m) d o}
      {y = some m}
      (λ _.
        if_rule (Carries m) env.use_heartbeat {x = some (start_heartbeat (next_index m) d o)}
          {y = attach_and_respond env (next_index m) d o}
          (λ _.
            carry_on m _ room
              (start_heartbeat (next_index m) d o, refl, record { known = safe.known }, refl))
          (λ _. carry_on m _ room (attach_and_respond-Carries env (next_index m) d o safe known)))
      (λ _. stay m s)

usb_device-IsKnown :
    (m : Manager) (udid : String) (location product speed : ℕ)
    → m.last_index + 1 < u64_mod
    → IsKnown (next_index m).last_index m.last_index (usb_device m udid location product speed)
usb_device-IsKnown m udid location product speed room = record {
  fields = λ e. absurd (false≢true e);
  own_id = refl;
  below = omega arith;
}

pub add_usb_device-Carries :
    (env : Environment) (m : Manager) (udid : String) (location product speed h : ℕ)
    → m.last_index + 1 < u64_mod
    → IsSafe m
    → Carries m (add_usb_device env m udid location product speed h)
unfolding add_usb_device attach
add_usb_device-Carries env m udid location product speed h room s =
    let d = usb_device m udid location product speed in
    let known = usb_device-IsKnown m udid location product speed room in
    let (p, e) = attached_plist_total env.bsd d known.fields in
    let devices = weaken m.last_index (next_index m).last_index m.devices (omega arith) s.known in
    carry_on m _ room (
      next_index (record m {
        devices = insert d.device_id d m.devices;
        usb_handles = insert d.device_id h m.usb_handles;
        listeners = broadcast m.listeners (attached p);
      }),
      rw e,
      record {
        known = All-insert (Entry (next_index m).last_index) m.last_index d m.devices known devices;
      },
      refl,
    )
