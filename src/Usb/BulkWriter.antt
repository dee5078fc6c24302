-- ===== src/Usb/BulkWriter.antt =====
-- src/usb/bulk_io.rs: `BulkWriter`, an `AsyncWrite` over a bulk OUT endpoint.
use netmuxd.Base.{
  ℕ, zero, suc, ◌+◌, min, max, Bool, true, false, not, ◌&&◌, List, [], ◌∷◌, ◌++◌, length, is_empty,
  take, ltb, if◌then◌else◌, ok, err,
}
use netmuxd.Usb.Poll.{
  Poll, pending, ready, PipeResult, usb_out, Outcome, not_yet, done, failed, is_multiple_of,
}

-- A bulk OUT endpoint: the transfers submitted, oldest first, and what the polls to come find. With
-- nothing to find, a poll finds the transfer in flight forever.
pub record OutEndpoint : Type 0 where
  pub max_packet_size : ℕ
  pub submitted : List (List ℕ)
  pub outcomes : List (Outcome (Unit {0}))

pub record BulkWriter : Type 0 where
  pub ep : OutEndpoint
  pub max_out : ℕ
  pub in_flight : Bool
  pub bytes_since_flush : ℕ
  pub zlp_sent : Bool

-- 64 * 1024
abbrev pub default_max_out : ℕ
default_max_out = 65536

abbrev pub new_writer : OutEndpoint → BulkWriter
new_writer ep = record {
  ep = ep;
  max_out = default_max_out;
  in_flight = false;
  bytes_since_flush = 0;
  zlp_sent = false;
}

abbrev pub with_max_out : BulkWriter → ℕ → BulkWriter
with_max_out w n = record w { max_out = max n 1 }

-- The writer after a poll of its endpoint.
abbrev pub polled : BulkWriter → List (Outcome (Unit {0})) → Bool → BulkWriter
polled w outcomes in_flight = record w {
  ep = record (w.ep) { outcomes = outcomes };
  in_flight = in_flight;
}

unfoldable pub poll_completion :
    BulkWriter → List (Outcome (Unit {0})) → BulkWriter × Poll (PipeResult (Unit {0}))
poll_completion w [] = (w, pending)
poll_completion w (not_yet ∷ os) = (polled w os true, pending)
poll_completion w (done _ ∷ os) = (polled w os false, ready (ok tt))
poll_completion w (failed ∷ os) = (polled w os false, ready (err usb_out))

unfoldable pub poll_drain : BulkWriter → BulkWriter × Poll (PipeResult (Unit {0}))
poll_drain w = if w.in_flight then poll_completion w w.ep.outcomes else (w, ready (ok tt))

-- `ready!(self.poll_drain(cx))?` before `next`
unfoldable pub after_drain :
    {A : Type 0}
    → (BulkWriter → BulkWriter × Poll (PipeResult A))
    → BulkWriter × Poll (PipeResult (Unit {0}))
    → BulkWriter × Poll (PipeResult A)
after_drain next (w, pending) = (w, pending)
after_drain next (w, ready (ok _)) = next w
after_drain next (w, ready (err e)) = (w, ready (err e))

-- `self.ep.submit(out)`
abbrev pub submit : BulkWriter → List ℕ → BulkWriter
submit w out = record w {
  ep = record (w.ep) { submitted = w.ep.submitted ++ out ∷ [] };
  in_flight = true;
}

unfoldable pub accept : List ℕ → BulkWriter → BulkWriter × Poll (PipeResult ℕ)
accept buf w =
    let n = min (length buf) w.max_out in
    if is_empty buf then (w, ready (ok 0)) else (
      record (submit w (take n buf)) {
        bytes_since_flush = w.bytes_since_flush + n;
        zlp_sent = false;
      },
      ready (ok n),
    )

unfoldable pub poll_write : BulkWriter → List ℕ → BulkWriter × Poll (PipeResult ℕ)
poll_write w buf = after_drain (accept buf) (poll_drain w)

-- The bytes since the last flush fill their packets, so that nothing yet tells the device that the
-- message ends.
abbrev pub needs_zlp : BulkWriter → Bool
needs_zlp w =
    not w.zlp_sent
    && ltb 0 w.bytes_since_flush
    && is_multiple_of w.bytes_since_flush w.ep.max_packet_size

abbrev pub send_zlp : BulkWriter → BulkWriter
send_zlp w = submit (record w { zlp_sent = true }) []

-- The loop of `poll_flush` goes round again after a zero-length packet only, and needs none then, so
-- that two rounds are enough.
unfoldable pub flush_rounds : ℕ → BulkWriter → BulkWriter × Poll (PipeResult (Unit {0}))
flush_rounds zero w = (w, pending)
flush_rounds (suc fuel) w =
    after_drain
      (λ w'.
        if needs_zlp w'
        then flush_rounds fuel (send_zlp w')
        else (record w' { bytes_since_flush = 0 }, ready (ok tt)))
      (poll_drain w)

unfoldable pub poll_flush : BulkWriter → BulkWriter × Poll (PipeResult (Unit {0}))
poll_flush w = flush_rounds 2 w
