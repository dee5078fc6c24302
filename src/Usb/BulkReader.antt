-- ===== src/Usb/BulkReader.antt =====
-- src/usb/bulk_io.rs: `BulkReader`, an `AsyncRead` over a bulk IN endpoint.
use netmuxd.Base.{
  ℕ, ◌+◌, ◌-◌, ◌*◌, ◌/◌, min, max, List, [], ◌∷◌, Option, none, some, length, is_empty, take, drop,
  leb, if◌then◌else◌, case_option, ok, err,
}
use netmuxd.Usb.Poll.{Poll, pending, ready, PipeResult, usb_in, Outcome, not_yet, done, failed}

-- A bulk IN endpoint: the transfers that it has been given and not completed, and what the polls to
-- come find, a finished transfer with the `actual_len` bytes of its buffer.
pub record InEndpoint : Type 0 where
  pub max_packet_size : ℕ
  pub submitted : ℕ
  pub outcomes : List (Outcome (List ℕ))

-- `drain` is a finished buffer, the read offset and the end.
pub record BulkReader : Type 0 where
  pub ep : InEndpoint
  pub transfer_size : ℕ
  pub in_flight_target : ℕ
  pub drain : Option (List ℕ × ℕ × ℕ)

-- `transfer_size.div_ceil(mp).max(1) * mp`
abbrev pub rounded_up : ℕ → ℕ → ℕ
rounded_up transfer_size mp = max ((transfer_size + (mp - 1)) / mp) 1 * mp

abbrev pub new_reader : InEndpoint → ℕ → BulkReader
new_reader ep transfer_size = record {
  ep = ep;
  transfer_size = rounded_up transfer_size ep.max_packet_size;
  in_flight_target = 1;
  drain = none;
}

abbrev pub with_in_flight : BulkReader → ℕ → BulkReader
with_in_flight r n = record r { in_flight_target = max n 1 }

-- The loop submits one buffer at a time until the target is met.
abbrev pub submit_until_target : BulkReader → BulkReader
submit_until_target r = record r {
  ep = record (r.ep) { submitted = max r.ep.submitted r.in_flight_target };
}

abbrev pub after_poll : BulkReader → ℕ → List (Outcome (List ℕ)) → BulkReader
after_poll r completed outcomes = record r {
  ep = record (r.ep) { submitted = r.ep.submitted - completed; outcomes = outcomes };
}

unfoldable pub serve_drain :
    BulkReader → ℕ → List ℕ × ℕ × ℕ → BulkReader × Poll (PipeResult (List ℕ))
serve_drain r want (b, off, end) =
    let n = min (end - off) want in
    (
      record r { drain = if leb end (off + n) then none else some (b, off + n, end) },
      ready (ok (take n (drop off b))),
    )

-- The rounds of `poll_read` without a buffer to drain. Each takes one outcome of the endpoint.
unfoldable pub read_rounds :
    List (Outcome (List ℕ)) → BulkReader → ℕ → BulkReader × Poll (PipeResult (List ℕ))
read_rounds [] r want = (after_poll (submit_until_target r) 0 [], pending)
read_rounds (not_yet ∷ os) r want = (after_poll (submit_until_target r) 0 os, pending)
read_rounds (failed ∷ os) r want = (after_poll (submit_until_target r) 1 os, ready (err usb_in))
read_rounds (done data_ ∷ os) r want =
    let r' = after_poll (submit_until_target r) 1 os in
    let again = read_rounds os r' want in
    if is_empty data_ then again else serve_drain r' want (data_, 0, length data_)

unfoldable pub poll_read : BulkReader → ℕ → BulkReader × Poll (PipeResult (List ℕ))
poll_read r want = case_option r.drain (read_rounds r.ep.outcomes r want) λ d. serve_drain r want d
