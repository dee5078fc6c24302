-- ===== src/Heartbeat/Lifetime.antt =====
-- src/heartbeat.rs and src/manager.rs: a heartbeat task and the manager that it asks.
use Prim.Native.String.{String}
use text.Mathlib.Text.{◌==◌ as str_eq}
use netmuxd.Base.{ℕ, ◌≡◌, List, [], ◌∷◌, none, some}
use netmuxd.Base.Dict.{get}
use netmuxd.Devices.{MuxerDevice}
use netmuxd.Manager.State.{Manager}
use netmuxd.Manager.Handle.{Environment, handle_all}
use netmuxd.Heartbeat.Task.{Watch, Beat, first_interval, no_marco, answered}
use netmuxd.Base.{take, ◌+◌, ◌<◌}
use netmuxd.Base.Bytes.{u64_mod}

-- The device answers at each of these intervals, and then no more.
abbrev pub answers_then_stops : List ℕ → List Beat
answers_then_stops [] = no_marco ∷ []
answers_then_stops (i ∷ is) = answered i ∷ answers_then_stops is

abbrev pub limits : ℕ → List ℕ → List ℕ
limits interval [] = (interval + 5) ∷ []
limits interval (i ∷ is) = (interval + 5) ∷ limits i is

-- The time to wait after this interval is a u64.
abbrev pub Fits : ℕ → Type 0
Fits interval = interval + 5 < u64_mod

-- What becomes of a device and of the manager that is asked for it.
pub record Lives (env : Environment) (m : Manager) (d : MuxerDevice) (is : List ℕ) (t : Watch)
    : Type 0 where
  pub with_device : Manager
  pub without_device : Manager
  pub first : handle_all env m (take 1 t.requests) ≡ some with_device
  pub listed : get d.device_id with_device.devices ≡ some d
  pub all : handle_all env m t.requests ≡ some without_device
  pub unlisted : get d.device_id without_device.devices ≡ none
  pub timeouts : t.timeouts ≡ limits first_interval is
