-- ===== src/Usb/BulkStream.antt =====
-- src/usb/bulk_io.rs: what `BulkReader` gives of the bytes of its transfers.
use netmuxd.Base.{
  ℕ, ◌+◌, ◌-◌, ◌<◌, ◌≡◌, refl, ap, ◌∙◌, min, List, [], ◌∷◌, ◌++◌, Option, none, some, length,
  is_empty, take, drop, leb, ok, arith, All, case_option, if_rule, leb→le, leb→gt,
}
use netmuxd.Usb.Poll.{Poll, ready, PipeResult, Outcome, not_yet, done, failed}
use netmuxd.Usb.Stream.{
  bytes_of, incoming, Fits, ByteReader, read_many, read_many-stream, bytes_of_all, AllFit,
}
use netmuxd.Usb.BulkReader.{
  BulkReader, serve_drain, read_rounds, poll_read, after_poll, submit_until_target,
}
use netmuxd.Usb.Readers.{drop-all, served, served_size, empty_list, some_list}

-- The bytes of the buffer that is drained, if there is one, and those of the transfers to come.
abbrev pub drain_bytes : Option (List ℕ × ℕ × ℕ) → List ℕ
drain_bytes none = []
drain_bytes (some (b, off, end)) = drop off b

abbrev pub bulk_stream : BulkReader → List ℕ
bulk_stream r = drain_bytes r.drain ++ incoming r.ep.outcomes

-- A buffer that is kept has bytes left.
abbrev pub IsValidDrain : Option (List ℕ × ℕ × ℕ) → Type 0
IsValidDrain none = Unit {0}
IsValidDrain (some (b, off, end)) = (off < end) × (end ≡ length b)

-- What a poll gives and leaves of a stream.
abbrev Gives : List ℕ → ℕ → BulkReader × Poll (PipeResult (List ℕ)) → Type 0
Gives s want (r, result) =
    IsValidDrain r.drain × (s ≡ bytes_of result ++ bulk_stream r) × (0 < want → Fits want result)

serve_drain_lem :
    (r : BulkReader) (want : ℕ) (b : List ℕ) (off : ℕ)
    → off < length b
    → Gives (drop off b ++ incoming r.ep.outcomes) want (serve_drain r want (b, off, length b))
unfolding serve_drain
serve_drain_lem r want b off low =
    let n = min (length b - off) want in
    let step = served off n b (incoming r.ep.outcomes) in
    let bytes = take n (drop off b) in
    let result : Poll (PipeResult (List ℕ)) = ready (ok bytes) in
    if_rule
      (λ (d : Option (List ℕ × ℕ × ℕ)).
        Gives (drop off b ++ incoming r.ep.outcomes) want (record r { drain = d }, result))
      (leb (length b) (off + n)) {x = none} {y = some (b, off + n, length b)}
      (λ e. (
        tt,
        step
            ∙ ap (λ l. bytes ++ (l ++ incoming r.ep.outcomes))
                (drop-all (off + n) b (leb→le (length b) (off + n) e)),
        λ pos. served_size off want b pos low,
      ))
      (λ e. ((leb→gt (length b) (off + n) e, refl), step, λ pos. served_size off want b pos low))

read_rounds_lem :
    (os : List (Outcome (List ℕ))) (r : BulkReader) (want : ℕ)
    → r.drain ≡ none
    → Gives (incoming os) want (read_rounds os r want)
unfolding read_rounds
read_rounds_lem [] r want h = rw h (tt, refl, λ _. tt)
read_rounds_lem (not_yet ∷ os) r want h = rw h (tt, refl, λ _. tt)
read_rounds_lem (failed ∷ os) r want h = rw h (tt, refl, λ _. tt)
read_rounds_lem (done data_ ∷ os) r want h =
    let r' = after_poll (submit_until_target r) 1 os in
    if_rule (Gives (data_ ++ incoming os) want) (is_empty data_) {x = read_rounds os r' want}
      {y = serve_drain r' want (data_, 0, length data_)}
      (λ e. rw (empty_list data_ e) (read_rounds_lem os r' want h))
      (λ e. serve_drain_lem r' want data_ 0 (some_list data_ e))

drain_or_read :
    (r : BulkReader) (want : ℕ) (d : Option (List ℕ × ℕ × ℕ))
    → r.drain ≡ d
    → IsValidDrain d
    → Gives
        (drain_bytes d ++ incoming r.ep.outcomes)
        want
        (case_option d (read_rounds r.ep.outcomes r want) (λ d. serve_drain r want d))
drain_or_read r want none e v = read_rounds_lem r.ep.outcomes r want e
drain_or_read r want (some (b, off, end)) e (low, same) =
    rw same (serve_drain_lem r want b off (omega (arith, same)))

poll_read_lem :
    (r : BulkReader) (want : ℕ)
    → IsValidDrain r.drain
    → Gives (bulk_stream r) want (poll_read r want)
unfolding poll_read
poll_read_lem r want v = drain_or_read r want r.drain refl v

pub poll_read-IsValidDrain :
    (r : BulkReader) (want : ℕ) → IsValidDrain r.drain → IsValidDrain (poll_read r want).0.drain
poll_read-IsValidDrain r want v = (poll_read_lem r want v).0

pub poll_read-order :
    (r : BulkReader) (want : ℕ)
    → IsValidDrain r.drain
    → bulk_stream r ≡ bytes_of (poll_read r want).1 ++ bulk_stream (poll_read r want).0
poll_read-order r want v = (poll_read_lem r want v).1

pub poll_read-Fits :
    (r : BulkReader) (want : ℕ) → IsValidDrain r.drain → 0 < want → Fits want (poll_read r want).1
poll_read-Fits r want v pos = (poll_read_lem r want v).2 pos

-- The reader of src/usb/bulk_io.rs.
abbrev pub bulk_reader : ByteReader BulkReader
bulk_reader = record {
  poll_read = poll_read;
  stream = bulk_stream;
  IsValid = λ r. IsValidDrain r.drain;
  keeps_valid = λ r want v. poll_read-IsValidDrain r want v;
  in_order = λ r want v. poll_read-order r want v;
  fits = λ r want v pos. poll_read-Fits r want v pos;
}

-- Polled with room for a byte at least, again and again, the bulk reader gives the bytes of its
-- transfers in order and loses none; a poll that gives bytes gives one at least, and no more than
-- there is room for.
pub poll_read-stream :
    (r : BulkReader) (wants : List ℕ)
    → IsValidDrain r.drain
    → All (λ want. 0 < want) wants
    → (bulk_stream r
        ≡ bytes_of_all (read_many bulk_reader r wants).1
          ++ bulk_stream (read_many bulk_reader r wants).0)
      × AllFit wants (read_many bulk_reader r wants).1
poll_read-stream r wants v pos = read_many-stream bulk_reader r wants v pos
