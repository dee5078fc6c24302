-- ===== src/Heartbeat/Course.antt =====
-- src/heartbeat.rs and src/manager.rs: what a heartbeat task asks of the manager, and what that does.
use Prim.Native.String.{String}
use netmuxd.Base.{
  ℕ, ◌≡◌, ◌≢◌, ◌⊎◌, inl, inr, refl, ap, true, false, List, [], ◌∷◌, ◌++◌, Option, none, some,
  case_option,
}
use netmuxd.Devices.{MuxerDevice}
use netmuxd.Devices.Sockaddr.{IpAddr}
use netmuxd.Manager.Handle.{Request, deferred_muxer_add, heartbeat_failed}
use netmuxd.Heartbeat.Task.{
  Setup, no_lockdown, no_session, no_service, no_port, no_tls, is_ready, Beat, no_marco, no_polo,
  manager_gone, answered, Watch, new_watch, first_interval, give_up, ask, wait, beats, set_up,
  heartbeat,
}

-- The loop has sent nothing more, or one `heartbeat_failed` at its end.
abbrev pub FailsOnce : String → List Request → Watch → Type 0
FailsOnce udid sent t =
    (t.requests ≡ sent) ⊎ ((t.ended ≡ true) × (t.requests ≡ sent ++ heartbeat_failed udid ∷ []))

beats-FailsOnce :
    (udid : String) (interval : ℕ) (bs : List Beat) (t : Watch)
    → FailsOnce udid t.requests (beats udid interval bs t)
      × ((beats udid interval bs t).answers ≡ t.answers)
      × ((beats udid interval bs t).panicked ≡ t.panicked)
unfolding beats
beats-FailsOnce udid interval [] t = (inl refl, refl, refl)
beats-FailsOnce udid interval (no_marco ∷ bs) t = (inr (refl, refl), refl, refl)
beats-FailsOnce udid interval (no_polo i ∷ bs) t = (inr (refl, refl), refl, refl)
beats-FailsOnce udid interval (manager_gone i ∷ bs) t = (inl refl, refl, refl)
beats-FailsOnce udid interval (answered i ∷ bs) t = beats-FailsOnce udid i bs (wait interval t)

-- The task has given up: the caller, if there is one, is answered `Result 0`, and the manager hears
-- nothing.
abbrev pub GivesUp : Option ℕ → Watch → Type 0
GivesUp none t = (t.requests ≡ []) × (t.answers ≡ []) × (t.ended ≡ true)
GivesUp (some caller) t = (t.requests ≡ []) × (t.answers ≡ (caller, 0) ∷ []) × (t.ended ≡ true)

give_up-GivesUp : (response : Option ℕ) → GivesUp response (give_up response new_watch)
unfolding give_up
give_up-GivesUp none = (refl, refl, refl)
give_up-GivesUp (some caller) = (refl, refl, refl)

-- The task hands the device and the caller over to the manager, answers nobody itself, and reports the
-- device at most once, as the last thing that it does.
abbrev pub HandsOver : MuxerDevice → Option ℕ → Watch → Type 0
HandsOver d response t =
    FailsOnce d.serial_number (deferred_muxer_add d response ∷ []) t × (t.answers ≡ [])

give_up-quiet : (response : Option ℕ) → (give_up response new_watch).panicked ≡ false
unfolding give_up
give_up-quiet none = refl
give_up-quiet (some caller) = refl

set_up-course :
    (d : MuxerDevice) (response : Option ℕ) (setup : Setup) (bs : List Beat)
    → (((setup ≡ is_ready) × HandsOver d response (set_up setup d response bs))
        ⊎ ((setup ≢ is_ready) × GivesUp response (set_up setup d response bs)))
      × ((set_up setup d response bs).panicked ≡ false)
unfolding set_up
set_up-course d response is_ready bs =
    let (fails, answers, quiet) =
      beats-FailsOnce d.serial_number first_interval bs
        (ask (deferred_muxer_add d response) new_watch) in
    (inl (refl, (fails, answers)), quiet)
set_up-course d response no_lockdown bs =
    (inr ((λ e. cc), give_up-GivesUp response), give_up-quiet response)
set_up-course d response no_session bs =
    (inr ((λ e. cc), give_up-GivesUp response), give_up-quiet response)
set_up-course d response no_service bs =
    (inr ((λ e. cc), give_up-GivesUp response), give_up-quiet response)
set_up-course d response no_port bs =
    (inr ((λ e. cc), give_up-GivesUp response), give_up-quiet response)
set_up-course d response no_tls bs =
    (inr ((λ e. cc), give_up-GivesUp response), give_up-quiet response)

pub heartbeat-set_up :
    (d : MuxerDevice) (response : Option ℕ) (setup : Setup) (bs : List Beat) (address : IpAddr)
    (has_address : d.network_address ≡ some address)
    → heartbeat d response setup bs ≡ set_up setup d response bs
unfolding heartbeat
heartbeat-set_up d response setup bs address has_address =
    ap
      (λ o.
        case_option o (record new_watch { ended = true; panicked = true })
          (λ a. set_up setup d response bs))
      has_address

-- The task for a device with an address does not panic, and takes one of two courses. If the device's
-- heartbeat service is reached, then the manager is asked once to add the device, with the caller to
-- answer, the task itself answers nobody, and the device is reported as failed at most once, as the
-- last thing that the task does. Otherwise the manager is asked for nothing, and the caller, if there
-- is one, is answered `Result 0` once.
pub heartbeat-course :
    (d : MuxerDevice) (response : Option ℕ) (setup : Setup) (bs : List Beat) (address : IpAddr)
    (has_address : d.network_address ≡ some address)
    → let t = heartbeat d response setup bs in
      (((setup ≡ is_ready) × HandsOver d response t) ⊎ ((setup ≢ is_ready) × GivesUp response t))
      × (t.panicked ≡ false)
heartbeat-course d response setup bs address has_address =
    rw (heartbeat-set_up d response setup bs address has_address)
      (set_up-course d response setup bs)
