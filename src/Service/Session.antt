-- ===== src/Service/Session.antt =====
-- src/main.rs, `handle_stream`: the state of a session, and its talk with the client, the manager and
-- the upstream muxer.
use Prim.Native.String.{String}
use netmuxd.Base.{ℕ, ◌+◌, List, [], ◌∷◌, ◌++◌, Option, none, some, case_option, if◌then◌else◌, ◌==◌}
use netmuxd.Devices.Plist.{Entries, end, entry, Values, nil, cons, dictionary, array, integer}
use netmuxd.Manager.State.{Manager, Response, DeviceConnection}
use netmuxd.Manager.Handle.{Request, handle}
use netmuxd.Service.Host.{World, Dial, refused, write_failed, replies}

-- The manager task, `none` if it has panicked, and what the session has sent: packets to its client,
-- packets to the upstream muxer, each over a connection of its own, and pairing records into the
-- storage. `next` numbers the oneshots that the session makes.
pub record Session : Type 0 where
  pub manager : Option Manager
  pub to_client : List (List ℕ)
  pub to_upstream : List (List ℕ)
  pub records : List (String × List ℕ)
  pub next : ℕ

-- How the handling of a request ends: with the next request, with the session, as a tunnel to the
-- upstream muxer or to a device, or as a listener with the tag of its request.
pub data Flow : Type 0 where
  again closed spliced : Flow
  tunnelled : ℕ → ℕ → Flow
  listening : ℕ → Flow

abbrev pub send : Session → List ℕ → Session
send s packet = record s { to_client = s.to_client ++ packet ∷ [] }

-- `if let Err(e) = socket.write_all(..) { return; }` before the next request
unfoldable pub reply_and_continue : World → Session → List ℕ → Session × Flow
reply_and_continue w s packet = if w.client_open then (send s packet, again) else (s, closed)

-- A write whose failure is not looked at.
unfoldable pub reply_ignored : World → Session → List ℕ → Session
reply_ignored w s packet = if w.client_open then send s packet else s

-- The connection is made before the packet is written.
abbrev pub dialled : Session → List ℕ → Dial → Session
dialled s packet refused = s
dialled s packet write_failed = s
dialled s packet (replies bytes) = record s { to_upstream = s.to_upstream ++ packet ∷ [] }

-- The answer to the oneshot with this number: the last that the manager has given, if it is its.
abbrev pub answer_to {ℓ} : {A : Type ℓ} → ℕ → List (ℕ × A) → Option A
answer_to id [] = none
answer_to id ((k, a) ∷ []) = if k == id then some a else none
answer_to id (x ∷ (y ∷ rest)) = answer_to id (y ∷ rest)

-- A request to the manager. It is lost if the task has gone, and may be its last.
unfoldable pub tell_manager : World → Session → Request → Session
tell_manager w s r =
    case_option s.manager s λ m. record s { manager = handle w.environment m r; next = s.next + 1 }

-- `rx.await`: what the manager has answered; `none` is the error that the sender is gone.
abbrev pub response : Session → ℕ → Option Response
response s id = case_option s.manager none λ m. answer_to id m.responses

abbrev pub connection_answer : Session → ℕ → Option (Option DeviceConnection)
connection_answer s id = case_option s.manager none λ m. answer_to id m.connections

-- The dictionaries that the manager answers with.
abbrev pub dictionaries : List Entries → Values
dictionaries [] = nil
dictionaries (p ∷ ps) = cons (dictionary p) (dictionaries ps)

abbrev pub response_plist : Response → Entries
response_plist (Response.result n) = entry "Result" (integer n) end
response_plist (Response.device_list ps) = entry "DeviceList" (array (dictionaries ps)) end
