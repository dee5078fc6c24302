-- ===== src/Service/Stream.antt =====
-- src/main.rs, `handle_stream`: the loop of a session over what its client sends.
use netmuxd.Base.{ℕ, zero, suc, ◌≡◌, Bool, List, [], ◌∷◌, ◌++◌, length, ok, err, All, flatten}
use netmuxd.Service.Frames.{FrameError, client_packet}
use netmuxd.Service.Packets.{IsClientPacket}
use netmuxd.Service.Host.{Codec, World}
use netmuxd.Service.Session.{Session, Flow, closed}
use netmuxd.Service.Requests.{serve_packet, serve_next, serve_all}

-- The loop, from its turn `n` on, over what is still to be read: a packet is read and handled, while the
-- outside does what it does in that turn, and the next one is read if the session goes on. A packet
-- takes 16 bytes at least, so that the turns end before the fuel does.
unfoldable pub stream_loop : ℕ → Codec → Bool → (ℕ → World) → ℕ → List ℕ → Session → Session × Flow
stream_loop zero codec shim worlds n bytes s = (s, closed)
stream_loop (suc fuel) codec shim worlds n bytes s = elim (client_packet bytes) [
  | ok r ↦
      serve_next (stream_loop fuel codec shim worlds (suc n) r.1)
        (serve_packet codec shim (worlds n) r.0 s)
  | err e ↦ (s, closed)
]

-- `handle_stream`, over all that the client sends until it closes the stream.
unfoldable pub handle_stream : Codec → Bool → (ℕ → World) → List ℕ → Session → Session × Flow
handle_stream codec shim worlds bytes s =
    stream_loop (suc (length bytes)) codec shim worlds 0 bytes s

-- A stream is packets and then something that is none.
record Splits (bytes : List ℕ) : Type 0 where
  pub packets : List (List ℕ)
  pub rest : List ℕ
  pub error : FrameError
  pub whole : bytes ≡ flatten packets ++ rest
  pub are_packets : All IsClientPacket packets
  pub ends : client_packet rest ≡ err error

-- Each packet with what the outside does in its turn.
abbrev pub in_turns : (ℕ → World) → ℕ → List (List ℕ) → List (World × List ℕ)
in_turns worlds n [] = []
in_turns worlds n (f ∷ fs) = (worlds n, f) ∷ in_turns worlds (suc n) fs

-- What the client sends is packets, each as long as its size field says, with 16 bytes at least and
-- 16 MiB at most, and then something of which no packet can be read; and the session ends as it does
-- by handling these packets.
pub record Served (codec : Codec) (shim : Bool) (worlds : ℕ → World) (bytes : List ℕ) (s : Session)
    : Type 0 where
  pub packets : List (List ℕ)
  pub rest : List ℕ
  pub error : FrameError
  pub whole : bytes ≡ flatten packets ++ rest
  pub are_packets : All IsClientPacket packets
  pub ends : client_packet rest ≡ err error
  pub served :
      handle_stream codec shim worlds bytes s ≡ serve_all codec shim (in_turns worlds 0 packets) s
