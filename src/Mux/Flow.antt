-- ===== src/Mux/Flow.antt =====
-- src/usb/mux.rs, `flush_pending`: what it sends of the waiting bytes, and when it stops.
use netmuxd.Base.{
  ℕ, zero, suc, ◌+◌, ◌%◌, ◌≤◌, ◌<◌, max, ◌≡◌, refl, sym, ap, ◌∙◌, subst, true, false, List, [], ◌∷◌,
  ◌++◌, map, length, take, drop, ok, arith, All, flatten, append_assoc, append-nil, length-append,
  length-take, length-drop, take-append-drop, drop-append, ◌⊎◌, inl, inr,
}
use netmuxd.Base.Bytes.{u32_mod, u32_at, u16_be, u32_be, wrapping_sub}
use netmuxd.Mux.Wire.{
  Wire, MuxState, Proto, mux_header, reset_sequence, advance_sequence, max_payload, usb_mtu,
}
use netmuxd.Mux.Framing.{frame_of, total_size, send_raw_sends, length-reset_header}
use netmuxd.Mux.Connection.{
  Connection, ack, tcp_header, send_tcp, inflight, chunk_length, done, more, after_chunk,
  flush_round, after_round, flush_loop, resume_pump, finish_flush, flush_pending,
}
use netmuxd.Mux.Sent.{length-tcp_header, advance_version}

-- The payload of a v2 segment.
abbrev pub payload_of : List ℕ → List ℕ
payload_of = drop 36

abbrev pub carried : List (List ℕ) → List ℕ
carried fs = flatten (map payload_of fs)

-- A live v2 wire, and numbers in their ranges.
pub record CanFlush (w : Wire) (c : Connection) : Type 0 where
  pub alive : w.writer_open ≡ true
  pub is_v2 : w.state.version ≡ 2
  pub tx_seq_fits : c.tx_seq < u32_mod
  pub rx_ack_fits : c.rx_ack < u32_mod
  pub rx_win_fits : c.rx_win < u32_mod

abbrev drained : Connection → Connection
drained c = record c { pending_tx = drop (chunk_length c) c.pending_tx }

abbrev chunk_frame : Wire → Connection → List ℕ
chunk_frame w c =
    frame_of w Proto.tcp (tcp_header (drained c) ack) (take (chunk_length c) c.pending_tx) false

abbrev sent_chunk : Wire → Connection → Wire
sent_chunk w c = record w {
  state = advance_sequence w.state;
  sent = w.sent ++ chunk_frame w c ∷ [];
}

abbrev past_chunk : Connection → Connection
past_chunk c = record c {
  pending_tx = drop (chunk_length c) c.pending_tx;
  tx_seq = (c.tx_seq + chunk_length c % u32_mod) % u32_mod;
}

payload_of-chunk_frame :
    (w : Wire) (c : Connection)
    → w.state.version ≡ 2
    → payload_of (chunk_frame w c) ≡ take (chunk_length c) c.pending_tx
payload_of-chunk_frame w c v =
    let header =
      mux_header (reset_sequence w.state false) Proto.tcp
        (total_size w (tcp_header (drained c) ack) (take (chunk_length c) c.pending_tx)) in
    ap payload_of (sym (append_assoc header (tcp_header (drained c) ack) _))
    ∙ drop-append 36 (header ++ tcp_header (drained c) ack) _ (
        grind (
          arith,
          v,
          length-append header (tcp_header (drained c) ack),
          length-tcp_header (drained c) ack,
          length-reset_header w.state false Proto.tcp
              (total_size w (tcp_header (drained c) ack) (take (chunk_length c) c.pending_tx)),
        ))

-- The number in the header of a v2 segment.
abbrev pub number_of : List ℕ → ℕ
number_of = u32_at 20

u32_at-mux_header :
    (s : MuxState) (t : ℕ) (rest : List ℕ)
    → s.version ≡ 2
    → u32_at 20 (mux_header s Proto.tcp t ++ rest) ≡ u32_at 4 rest
unfolding mux_header
u32_at-mux_header s t rest v = ground arith

u32_at-tcp_header :
    (c : Connection) (payload : List ℕ)
    → c.tx_seq < u32_mod
    → u32_at 4 (tcp_header c ack ++ payload) ≡ c.tx_seq
unfolding tcp_header u16_be u32_be
u32_at-tcp_header c payload fits = omega arith

number_of-chunk_frame :
    (w : Wire) (c : Connection)
    → w.state.version ≡ 2
    → c.tx_seq < u32_mod
    → number_of (chunk_frame w c) ≡ c.tx_seq
unfolding reset_sequence
number_of-chunk_frame w c v fits =
    let payload = take (chunk_length c) c.pending_tx in
    u32_at-mux_header (reset_sequence w.state false)
      (total_size w (tcp_header (drained c) ack) payload) (tcp_header (drained c) ack ++ payload) v
    ∙ u32_at-tcp_header (drained c) payload fits

-- The first segment carries the number, and each further one the number behind the bytes of the one
-- before.
abbrev pub AreNumbered : ℕ → List (List ℕ) → Type 0
AreNumbered n [] = Unit {0}
AreNumbered n (f ∷ fs) = (number_of f ≡ n) × AreNumbered ((n + length (payload_of f)) % u32_mod) fs

chunk_frame_fits :
    (w : Wire) (c : Connection)
    → w.state.version ≡ 2
    → total_size w (tcp_header (drained c) ack) (take (chunk_length c) c.pending_tx) ≤ usb_mtu
chunk_frame_fits w c v =
    grind (arith, v, length-tcp_header (drained c) ack, length-take (chunk_length c) c.pending_tx)

send_chunk :
    (w : Wire) (c : Connection)
    → w.writer_open ≡ true
    → w.state.version ≡ 2
    → send_tcp w (drained c) ack (take (chunk_length c) c.pending_tx) ≡ (sent_chunk w c, ok tt)
unfolding send_tcp reset_sequence
send_chunk w c alive v =
    send_raw_sends w Proto.tcp (tcp_header (drained c) ack) (take (chunk_length c) c.pending_tx)
      false alive (chunk_frame_fits w c v)

abbrev Stops : Connection → Type 0
Stops c = (c.pending_tx ≡ []) ⊎ (c.rx_win ≤ inflight c)

-- One round: it stops for a reason, or sends the next chunk.
flush_round_lem :
    (w : Wire) (c : Connection)
    → CanFlush w c
    → ((flush_round w c ≡ done) × Stops c)
      ⊎ ((flush_round w c ≡ more (sent_chunk w c) (past_chunk c))
          × (0 < chunk_length c)
          × (chunk_length c ≤ length c.pending_tx)
          × (chunk_length c ≤ max_payload)
          × (inflight c + chunk_length c ≤ c.rx_win))
unfolding flush_round after_chunk wrapping_sub
flush_round_lem w c h = ground (arith, send_chunk w c h.alive h.is_v2)

-- What a flush has done: `frames` went out behind what was sent before, and carry, in order and
-- each between one byte and a full payload, a prefix of what was waiting; the rest still waits. The
-- first carries the sequence number of the connection, each further one the number behind the bytes of
-- the one before, and the connection has the number behind them all. What is in flight stays within the device's window, if it
-- was, and the flush ended with nothing waiting or the window used up. No other field moved.
pub record Flushed (w : Wire) (c : Connection) (w' : Wire) (c' : Connection) : Type 0 where
  pub frames : List (List ℕ)
  pub sent : w'.sent ≡ w.sent ++ frames
  pub split : c.pending_tx ≡ carried frames ++ c'.pending_tx
  pub numbered : AreNumbered c.tx_seq frames
  pub sizes : All (λ f. (0 < length (payload_of f)) × (length (payload_of f) ≤ max_payload)) frames
  pub advanced : c'.tx_seq ≡ (c.tx_seq + length (carried frames)) % u32_mod
  pub flying : inflight c' ≡ inflight c + length (carried frames)
  pub window : inflight c' ≤ max (inflight c) c.rx_win
  pub stopped : Stops c'
  pub kept : c' ≡ record c { pending_tx = c'.pending_tx; tx_seq = c'.tx_seq }

Flushed-stop : (w : Wire) (c : Connection) → c.tx_seq < u32_mod → Stops c → Flushed w c w c
unfolding wrapping_sub
Flushed-stop w c fits why = record {
  frames = [];
  sent = sym (append-nil w.sent);
  split = refl;
  numbered = tt;
  sizes = tt;
  advanced = omega arith;
  flying = omega arith;
  window = omega arith;
  stopped = why;
  kept = refl;
}

inflight-past_chunk :
    (w : Wire) (c : Connection)
    → CanFlush w c
    → inflight c + chunk_length c ≤ c.rx_win
    → inflight (past_chunk c) ≡ inflight c + chunk_length c
unfolding wrapping_sub
inflight-past_chunk w c h fits = omega arith

carried-cons :
    (w : Wire) (c : Connection) (fs : List (List ℕ))
    → w.state.version ≡ 2
    → carried (chunk_frame w c ∷ fs) ≡ take (chunk_length c) c.pending_tx ++ carried fs
carried-cons w c fs v = ap (λ l. l ++ carried fs) (payload_of-chunk_frame w c v)

length-chunk :
    (c : Connection)
    → chunk_length c ≤ length c.pending_tx
    → length (take (chunk_length c) c.pending_tx) ≡ chunk_length c
length-chunk c h = omega (arith, length-take (chunk_length c) c.pending_tx)

Flushed-more :
    (w : Wire) (c : Connection) (w' : Wire) (c' : Connection)
    → CanFlush w c
    → 0 < chunk_length c
    → chunk_length c ≤ length c.pending_tx
    → chunk_length c ≤ max_payload
    → inflight c + chunk_length c ≤ c.rx_win
    → Flushed (sent_chunk w c) (past_chunk c) w' c'
    → Flushed w c w' c'
Flushed-more w c w' c' h pos le small fits later =
    let frame = chunk_frame w c in
    let more = carried-cons w c later.frames h.is_v2 in
    let size = length-chunk c le in
    let total : length (carried (frame ∷ later.frames))
        ≡ chunk_length c + length (carried later.frames) =
      ap length more
      ∙ omega (
        arith,
        size,
        length-append (take (chunk_length c) c.pending_tx) (carried later.frames),
      ) in
    let fly = inflight-past_chunk w c h fits in
    let one = ap length (payload_of-chunk_frame w c h.is_v2) ∙ size in
    let next : (past_chunk c).tx_seq ≡ (c.tx_seq + length (payload_of frame)) % u32_mod =
      omega (arith, one) in
    record {
      frames = frame ∷ later.frames;
      sent = later.sent ∙ append_assoc w.sent (frame ∷ []) later.frames;
      split =
          sym (take-append-drop (chunk_length c) c.pending_tx)
          ∙ ap (λ l. take (chunk_length c) c.pending_tx ++ l) later.split
          ∙ sym (
              append_assoc (take (chunk_length c) c.pending_tx) (carried later.frames)
                c'.pending_tx)
          ∙ ap (λ l. l ++ c'.pending_tx) (sym more);
      numbered = (
        number_of-chunk_frame w c h.is_v2 h.tx_seq_fits,
        subst (λ n. AreNumbered n later.frames) next later.numbered,
      );
      sizes = ((omega arith, omega arith), later.sizes);
      advanced = omega (arith, later.advanced, total);
      flying = omega (arith, later.flying, fly, total);
      window = omega (arith, later.window, fly);
      stopped = later.stopped;
      kept = later.kept;
    }

nothing_left : (c : Connection) → length c.pending_tx ≤ 0 → c.pending_tx ≡ []
nothing_left c h = grind arith

past_chunk-CanFlush :
    (w : Wire) (c : Connection) → CanFlush w c → CanFlush (sent_chunk w c) (past_chunk c)
past_chunk-CanFlush w c h = record {
  alive = h.alive;
  is_v2 = advance_version w.state ∙ h.is_v2;
  tx_seq_fits = omega arith;
  rx_ack_fits = h.rx_ack_fits;
  rx_win_fits = h.rx_win_fits;
}

flush_loop_lem :
    (fuel : ℕ) (w : Wire) (c : Connection)
    → CanFlush w c
    → length c.pending_tx ≤ fuel
    → (w' : Wire) × (c' : Connection) × (flush_loop fuel w c ≡ (w', c', ok tt)) × Flushed w c w' c'
unfolding flush_loop after_round
flush_loop_lem zero w c h le =
    (w, c, refl, Flushed-stop w c h.tx_seq_fits (inl (nothing_left c le)))
flush_loop_lem (suc fuel) w c h le = elim (flush_round_lem w c h) [
  | inl (e, why) ↦ (w, c, rw e, Flushed-stop w c h.tx_seq_fits why)
  | inr (e, pos, within, small, fits) ↦
      let (w', c', run, later) =
        flush_loop_lem fuel (sent_chunk w c) (past_chunk c) (past_chunk-CanFlush w c h)
          (omega (arith, length-drop (chunk_length c) c.pending_tx)) in
      (w', c', rw e run, Flushed-more w c w' c' h pos within small fits later)
]

-- Over a live v2 wire a flush succeeds, in as many rounds as it was given fuel for, and sends what
-- the device's window lets it: see `Flushed`. Only the pump's pause may change besides.
pub flush_pending_lem :
    (w : Wire) (c : Connection)
    → CanFlush w c
    → (w' : Wire) × (c' : Connection) × (flush_pending w c ≡ (w', resume_pump c', ok tt))
      × Flushed w c w' c'
unfolding flush_pending finish_flush
flush_pending_lem w c h =
    let (w', c', run, flushed) = flush_loop_lem (length c.pending_tx) w c h (omega arith) in
    (w', c', rw run, flushed)
