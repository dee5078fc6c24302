-- ===== src/Heartbeat/Task.antt =====
-- src/heartbeat.rs, `heartbeat`: the connection to the device, and the loop of marco and polo.
use Prim.Native.String.{String}
use netmuxd.Base.{
  ℕ, ◌+◌, ◌%◌, Bool, true, false, List, [], ◌∷◌, ◌++◌, Option, none, some, case_option,
}
use netmuxd.Base.Bytes.{u64_mod}
use netmuxd.Devices.{MuxerDevice}
use netmuxd.Manager.Handle.{Request, deferred_muxer_add, heartbeat_failed}

-- Where the way to a heartbeat service ends: at the port of lockdown, the session with it, the start of
-- the service, its port, its TLS, or nowhere.
pub data Setup : Type 0 where
  no_lockdown no_session no_service no_port no_tls is_ready : Setup

-- One turn of the loop: the wait for a marco fails, or it names the next interval and then the polo
-- cannot be sent, or it can, and the manager is found gone or still there.
pub data Beat : Type 0 where
  no_marco : Beat
  no_polo manager_gone answered : ℕ → Beat

-- What the task has done: the requests that it has sent to the manager, the numbers that it has
-- answered its caller with, the seconds that it has waited for a marco at most, and whether it has
-- ended. `panicked` is an `unwrap` of an address that is not there.
pub record Watch : Type 0 where
  pub requests : List Request
  pub answers : List (ℕ × ℕ)
  pub timeouts : List ℕ
  pub ended : Bool
  pub panicked : Bool

abbrev pub new_watch : Watch
new_watch = record { requests = []; answers = []; timeouts = []; ended = false; panicked = false }

-- `let mut interval = 10`
abbrev pub first_interval : ℕ
first_interval = 10

-- `if let Some(response) = response { response.send(Result 0) }; return;`
unfoldable pub give_up : Option ℕ → Watch → Watch
give_up none t = record t { ended = true }
give_up (some caller) t = record t { answers = t.answers ++ (caller, 0) ∷ []; ended = true }

abbrev pub ask : Request → Watch → Watch
ask r t = record t { requests = t.requests ++ r ∷ [] }

-- `heartbeat_failed(udid)` and the `break`.
abbrev pub fail : String → Watch → Watch
fail udid t = record (ask (heartbeat_failed udid) t) { ended = true }

-- The sum is one of u64, which a release build wraps around; a debug build panics where it does not fit.
abbrev pub wait : ℕ → Watch → Watch
wait interval t = record t { timeouts = t.timeouts ++ (interval + 5) % u64_mod ∷ [] }

-- The loop, from the given interval on.
unfoldable pub beats : String → ℕ → List Beat → Watch → Watch
beats udid interval [] t = t
beats udid interval (no_marco ∷ bs) t = fail udid (wait interval t)
beats udid interval (no_polo i ∷ bs) t = fail udid (wait interval t)
beats udid interval (manager_gone i ∷ bs) t = record (wait interval t) { ended = true }
beats udid interval (answered i ∷ bs) t = beats udid i bs (wait interval t)

unfoldable pub set_up : Setup → MuxerDevice → Option ℕ → List Beat → Watch
set_up is_ready d response bs =
    beats d.serial_number first_interval bs (ask (deferred_muxer_add d response) new_watch)
set_up no_lockdown d response bs = give_up response new_watch
set_up no_session d response bs = give_up response new_watch
set_up no_service d response bs = give_up response new_watch
set_up no_port d response bs = give_up response new_watch
set_up no_tls d response bs = give_up response new_watch

-- `heartbeat`
unfoldable pub heartbeat : MuxerDevice → Option ℕ → Setup → List Beat → Watch
heartbeat d response setup bs =
    case_option d.network_address (record new_watch { ended = true; panicked = true })
      λ address. set_up setup d response bs
