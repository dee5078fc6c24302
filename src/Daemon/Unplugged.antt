-- ===== src/Daemon/Unplugged.antt =====
-- src/daemon/nusb_backend.rs: a device that goes is removed once.
use Prim.Native.String.{String}
use netmuxd.Base.{
  ℕ, ◌≡◌, refl, ◌∙◌, ap, [], ◌∷◌, ◌++◌, append_assoc, none, some, if◌then◌else◌, ◌==◌, ==_refl,
  case_rule,
}
use netmuxd.Base.Dict.{get, remove, get-remove}
use netmuxd.Manager.Handle.{discovered_usb_device, remove_device}
use netmuxd.Daemon.Usb.{send_remove}
use netmuxd.Daemon.Hotplug.{
  Plug, Hub, HotplugEvent, disconnected, mux_exited, meta_of, forget, hub_step, run_hub,
}
use netmuxd.Daemon.Enrolled.{known_to, IsGiven, given-Enrolls}

forget-known :
    (id : ℕ) (h : Hub) (udid : String) (known : known_to h id ≡ some udid)
    → ((forget id h).shared.requests ≡ h.shared.requests ++ remove_device udid (some "USB") ∷ [])
      × (known_to (forget id h) id ≡ none)
unfolding forget send_remove
forget-known id h udid known = rw (known) (refl, get-remove id id h.shared.known ∙ if_same id)
  where
    if_same : (k : ℕ) → (if k == k then none else get k h.shared.known) ≡ none
    if_same k = rw (==_refl) refl

forget-unknown : (id : ℕ) (h : Hub) (unknown : known_to h id ≡ none) → forget id h ≡ h
unfolding forget
forget-unknown id h unknown =
    case_rule (λ (g : Hub). g ≡ h) (get id h.shared.known) {x = h}
      {f = λ udid. record h {
        shared = send_remove udid (record h.shared { known = remove id h.shared.known });
      }}
      (λ _. refl) (λ udid e. absurd (cc))

-- An event by which the backend hears that a device has gone.
pub data IsGone (id : ℕ) : HotplugEvent → Type 0 where
  by_hotplug : IsGone id (disconnected id)
  by_mux : IsGone id (mux_exited id)

step-forget :
    (id : ℕ) (h : Hub) (e : HotplugEvent) (gone : IsGone id e) → hub_step h e ≡ forget id h
unfolding hub_step
step-forget id h _ by_hotplug = refl
step-forget id h _ by_mux = refl

-- Two such events, in either order, do what one does.
twice-forget :
    (id : ℕ) (h : Hub) (udid : String) (known : known_to h id ≡ some udid) (e f : HotplugEvent)
    (gone : IsGone id e) (gone' : IsGone id f)
    → run_hub h (e ∷ f ∷ []) ≡ forget id h
unfolding run_hub
twice-forget id h udid known e f gone gone' =
    rw
      (
        step-forget id h e gone,
        step-forget id (forget id h) f gone',
        forget-unknown id (forget id h) (forget-known id h udid known).1,
      )
      refl

-- A device of the backend has just been given to the manager, either when it was connected, or by the
-- pairing that this started and that ended next, while the device was still known. If the device then
-- goes, it is removed exactly once, under the UDID that it has been given under, in whatever order
-- hotplug and the exit of its mux task tell of it; and it is known no more.
pub unplugged-removed :
    (p : Plug) (raw : String) (h start : Hub) (given : IsGiven p raw h start) (e f : HotplugEvent)
    (gone : IsGone p.id e) (gone' : IsGone p.id f)
    → let h' = run_hub start (e ∷ f ∷ []) in
      (udid : String) × (h'.shared.requests
        ≡ h.shared.requests
          ++ discovered_usb_device udid
              (meta_of p).location_id
              (meta_of p).product_id
              (meta_of p).speed
              p.mux_handle
            ∷ remove_device udid (some "USB")
            ∷ [])
      × (known_to h' p.id ≡ none)
unplugged-removed p raw h start given e f gone gone' =
    let enrolled = given-Enrolls p raw h start given in
    let (removed, unknown) = forget-known p.id start enrolled.udid enrolled.known in
    (
      enrolled.udid,
      rw (twice-forget p.id start enrolled.udid enrolled.known e f gone gone') (
          removed
          ∙ ap (λ l. l ++ remove_device enrolled.udid (some "USB") ∷ []) enrolled.told
          ∙ append_assoc h.shared.requests _ _),
      rw (twice-forget p.id start enrolled.udid enrolled.known e f gone gone') unknown,
    )
