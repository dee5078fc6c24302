-- ===== src/Usb/Stream.antt =====
-- What the readers of src/usb/bulk_io.rs, src/libusbk/io.rs and src/apple_mux/io.rs have in common:
-- an `AsyncRead` over the bytes that its transfers bring.
use netmuxd.Base.{
  ℕ, ◌≤◌, ◌<◌, ◌≡◌, refl, sym, ap, ◌∙◌, List, [], ◌∷◌, ◌++◌, length, ok, err, append_assoc, All,
}
use netmuxd.Usb.Poll.{Poll, pending, ready, PipeResult, Outcome, not_yet, done, failed}

-- The bytes that a poll hands to the caller.
abbrev pub bytes_of : Poll (PipeResult (List ℕ)) → List ℕ
bytes_of pending = []
bytes_of (ready (ok bytes)) = bytes
bytes_of (ready (err e)) = []

-- The bytes that the transfers to come bring.
abbrev pub incoming : List (Outcome (List ℕ)) → List ℕ
incoming [] = []
incoming (not_yet ∷ os) = incoming os
incoming (done data_ ∷ os) = data_ ++ incoming os
incoming (failed ∷ os) = incoming os

-- A successful read into `want` bytes takes one at least, as no byte means the end of the stream,
-- and at most `want`.
abbrev pub Fits : ℕ → Poll (PipeResult (List ℕ)) → Type 0
Fits want pending = Unit {0}
Fits want (ready (ok bytes)) = (0 < length bytes) × (length bytes ≤ want)
Fits want (ready (err e)) = Unit {0}

abbrev pub bytes_of_all : List (Poll (PipeResult (List ℕ))) → List ℕ
bytes_of_all [] = []
bytes_of_all (result ∷ results) = bytes_of result ++ bytes_of_all results

abbrev pub AllFit : List ℕ → List (Poll (PipeResult (List ℕ))) → Type 0
AllFit (want ∷ wants) (result ∷ results) = Fits want result × AllFit wants results
AllFit _ _ = Unit {0}

-- A reader, the bytes it still has to give, and what a poll does to them.
pub record ByteReader (R : Type 0) : Type 1 where
  pub poll_read : R → ℕ → R × Poll (PipeResult (List ℕ))
  pub stream : R → List ℕ
  pub IsValid : R → Type 0
  pub keeps_valid : (r : R) (want : ℕ) → IsValid r → IsValid (poll_read r want).0
  pub in_order :
      (r : R) (want : ℕ)
      → IsValid r
      → stream r ≡ bytes_of (poll_read r want).1 ++ stream (poll_read r want).0
  pub fits : (r : R) (want : ℕ) → IsValid r → 0 < want → Fits want (poll_read r want).1

module _ {R : Type 0} (reader : ByteReader R) where
  -- Polls one after the other, and what they give.
  abbrev pub read_many : R → List ℕ → R × List (Poll (PipeResult (List ℕ)))
  read_many r [] = (r, [])
  read_many r (want ∷ wants) =
      let (r', result) = reader.poll_read r want in
      let (end, results) = read_many r' wants in (end, result ∷ results)

  pub read_many-stream :
      (r : R) (wants : List ℕ)
      → reader.IsValid r
      → All (λ want. 0 < want) wants
      → (reader.stream r
          ≡ bytes_of_all (read_many r wants).1 ++ reader.stream (read_many r wants).0)
        × AllFit wants (read_many r wants).1
  read_many-stream r [] v pos = (refl, tt)
  read_many-stream r (want ∷ wants) v pos =
      let (r', result) = reader.poll_read r want in
      let (rest, fit) = read_many-stream r' wants (reader.keeps_valid r want v) pos.1 in
      (
        reader.in_order r want v
            ∙ (ap (◌++◌ (bytes_of result)) rest
                ∙ sym (
                    append_assoc (bytes_of result) (bytes_of_all (read_many r' wants).1)
                      (reader.stream (read_many r' wants).0))),
        (reader.fits r want v pos.0, fit),
      )
