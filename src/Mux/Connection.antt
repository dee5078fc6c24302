-- ===== src/Mux/Connection.antt =====
-- src/usb/mux.rs: one virtual connection, the segments it sends, and the flushing of user bytes.
use netmuxd.Base.{
  ℕ, zero, suc, ◌+◌, ◌-◌, ◌/◌, ◌%◌, min, Bool, true, false, ◌&&◌, List, [], ◌∷◌, ◌++◌, Option,
  length, is_empty, take, drop, ltb, leb, ◌==◌, if◌then◌else◌, ok, err,
}
use netmuxd.Base.Bytes.{u16_be, u32_be, u16_mod, u32_mod, wrapping_sub}
use netmuxd.Mux.Wire.{Io, IoError, Wire, send_raw, tcp, max_payload}

-- tcp_flags
abbrev pub syn : ℕ
syn = 0x02

abbrev pub rst : ℕ
rst = 0x04

abbrev pub ack : ℕ
ack = 0x10

-- `SYN | ACK`
abbrev pub syn_ack : ℕ
syn_ack = 0x12

abbrev pub rx_window : ℕ
rx_window = 131072

-- 1024 * 1024 and 256 * 1024
abbrev pub tx_high_water : ℕ
tx_high_water = 1048576

abbrev pub tx_low_water : ℕ
tx_low_water = 262144

pub data ConnState : Type 0 where
  connecting connected dead : ConnState

-- `connect_reply` names the oneshot of the call that waits. `rx_tx` is the channel to the
-- forwarder task, with whether that task still holds the receiving end. `tx_resume` is the one
-- permit that `Notify` keeps.
pub record Connection : Type 0 where
  pub sport : ℕ
  pub dport : ℕ
  pub state : ConnState
  pub tx_seq : ℕ
  pub tx_ack : ℕ
  pub rx_seq : ℕ
  pub rx_ack : ℕ
  pub rx_win : ℕ
  pub connect_reply : Option ℕ
  pub rx_tx : Option Bool
  pub rx_buffered : ℕ
  pub pending_tx : List ℕ
  pub client_closed : Bool
  pub tx_pause : Bool
  pub tx_resume : Bool

-- `u32::saturating_sub` is `-`. The window is told in units of 256 bytes.
abbrev pub receive_window : Connection → ℕ
receive_window c = rx_window - c.rx_buffered

unfoldable pub tcp_header : Connection → ℕ → List ℕ
unfolding u16_be u32_be
tcp_header c flags =
    u16_be c.sport
    ++ u16_be c.dport
    ++ u32_be c.tx_seq
    ++ u32_be c.tx_ack
    ++ 80 ∷ flags ∷ u16_be (receive_window c / 256 % u16_mod)
    ++ 0 ∷ 0 ∷ 0 ∷ 0 ∷ []

unfoldable pub send_tcp : Wire → Connection → ℕ → List ℕ → Wire × Io (Unit {0})
send_tcp w c flags payload = send_raw w tcp (tcp_header c flags) payload false

abbrev pub inflight : Connection → ℕ
inflight c = wrapping_sub c.tx_seq c.rx_ack

abbrev pub chunk_length : Connection → ℕ
chunk_length c = min (min (length c.pending_tx) max_payload) (c.rx_win - inflight c)

-- One round of the loop: it ends, fails, or has sent a chunk. A chunk that could not be sent has
-- left `pending_tx` all the same.
pub data Round : Type 0 where
  done : Round
  failed : Wire → Connection → IoError → Round
  more : Wire → Connection → Round

unfoldable pub after_chunk : Connection → ℕ → Wire × Io (Unit {0}) → Round
after_chunk c n (w, ok _) = more w (record c { tx_seq = (c.tx_seq + n % u32_mod) % u32_mod })
after_chunk c n (w, err e) = failed w c e

unfoldable pub flush_round : Wire → Connection → Round
flush_round w c =
    let n = chunk_length c in
    let c' = record c { pending_tx = drop n c.pending_tx } in
    if is_empty c.pending_tx
    then done
    else if leb c.rx_win (inflight c)
    then done
    else if n == 0
    then done
    else after_chunk c' n (send_tcp w c' ack (take n c.pending_tx))

unfoldable pub after_round :
    Wire
    → Connection
    → (Wire → Connection → Wire × Connection × Io (Unit {0}))
    → Round
    → Wire × Connection × Io (Unit {0})
after_round w c next done = (w, c, ok tt)
after_round w c next (failed w' c' e) = (w', c', err e)
after_round w c next (more w' c') = next w' c'

-- The loop, with fuel for the rounds. Each takes a byte at least, so that `length c.pending_tx`
-- rounds are enough.
unfoldable pub flush_loop : ℕ → Wire → Connection → Wire × Connection × Io (Unit {0})
flush_loop zero w c = (w, c, ok tt)
flush_loop (suc fuel) w c = after_round w c (flush_loop fuel) (flush_round w c)

-- The reader pump goes on once less than the low mark is waiting.
unfoldable pub resume_pump : Connection → Connection
resume_pump c =
    if c.tx_pause && ltb (length c.pending_tx) tx_low_water
    then record c { tx_pause = false; tx_resume = true }
    else c

unfoldable pub finish_flush : Wire × Connection × Io (Unit {0}) → Wire × Connection × Io (Unit {0})
finish_flush (w, c, ok _) = (w, resume_pump c, ok tt)
finish_flush (w, c, err e) = (w, c, err e)

unfoldable pub flush_pending : Wire → Connection → Wire × Connection × Io (Unit {0})
flush_pending w c = finish_flush (flush_loop (length c.pending_tx) w c)

abbrev pub tx_drained : Connection → Bool
tx_drained c = is_empty c.pending_tx
