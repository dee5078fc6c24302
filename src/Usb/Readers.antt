-- ===== src/Usb/Readers.antt =====
-- src/libusbk/io.rs and src/apple_mux/io.rs: what the readers give of the bytes of their transfers.
use netmuxd.Base.{
  ℕ, zero, suc, ◌+◌, ◌-◌, ◌≤◌, ◌<◌, ◌≡◌, refl, sym, ap, ◌∙◌, min, true, false, List, [], ◌∷◌, ◌++◌,
  length, is_empty, take, drop, ltb, ◌==◌, ok, arith, append_assoc, All, take-append-drop,
  length-take, length-drop, if_rule, ==_iff, ltb→lt, ltb→ge,
}
use mathlib.Core.Bool.{true≢false}
use netmuxd.Usb.Poll.{Poll, ready, PipeResult, Outcome, not_yet, done, failed}
use netmuxd.Usb.Stream.{
  bytes_of, incoming, Fits, ByteReader, read_many, read_many-stream, bytes_of_all, AllFit,
}
use netmuxd.Usb.PipeReader.{PipeReader, serve_leftover, pipe_rounds, poll_pipe, spawn_read, joined}

pub drop-all : (n : ℕ) (xs : List ℕ) → length xs ≤ n → drop n xs ≡ []
drop-all zero [] h = refl
drop-all zero (x ∷ xs) h = absurd (omega arith)
drop-all (suc n) [] h = refl
drop-all (suc n) (x ∷ xs) h = drop-all n xs (omega arith)

drop-drop : (m n : ℕ) (xs : List ℕ) → drop (m + n) xs ≡ drop n (drop m xs)
drop-drop zero n xs = ap (λ k. drop k xs) (sum n)
  where
    sum : (n : ℕ) → 0 + n ≡ n
    sum n = omega arith
drop-drop (suc m) n [] = drop-all (suc m + n) [] (omega arith) ∙ sym (drop-all n [] (omega arith))
drop-drop (suc m) n (x ∷ xs) = ap (λ k. drop k (x ∷ xs)) (sum m n) ∙ drop-drop m n xs
  where
    sum : (m n : ℕ) → suc m + n ≡ suc (m + n)
    sum m n = omega arith

-- What is served, and what stays for the next poll and the ones after it.
pub served :
    (off n : ℕ) (xs more : List ℕ)
    → drop off xs ++ more ≡ take n (drop off xs) ++ (drop (off + n) xs ++ more)
served off n xs more =
    ap (λ l. l ++ more)
      (sym (take-append-drop n (drop off xs))
        ∙ ap (◌++◌ (take n (drop off xs))) (sym (drop-drop off n xs)))
    ∙ append_assoc (take n (drop off xs)) (drop (off + n) xs) more

pub served_size :
    (off want : ℕ) (xs : List ℕ)
    → 0 < want
    → off < length xs
    → (0 < length (take (min (length xs - off) want) (drop off xs)))
      × (length (take (min (length xs - off) want) (drop off xs)) ≤ want)
served_size off want xs pos low =
    let size = length-take (min (length xs - off) want) (drop off xs) in
    let left = length-drop off xs in (omega (arith, size, left), omega (arith, size, left))

abbrev pub pipe_stream : PipeReader → List ℕ
pipe_stream r = drop r.leftover_off r.leftover ++ incoming r.outcomes

-- The bytes of a stream are those that a poll gave and those that are left.
abbrev PipeOrder : List ℕ → PipeReader × Poll (PipeResult (List ℕ)) → Type 0
PipeOrder s (r, result) = s ≡ bytes_of result ++ pipe_stream r

abbrev FitsResult : ℕ → PipeReader × Poll (PipeResult (List ℕ)) → Type 0
FitsResult want (r, result) = Fits want result

serve_leftover-order :
    (r : PipeReader) (want : ℕ) → PipeOrder (pipe_stream r) (serve_leftover r want)
unfolding serve_leftover
serve_leftover-order r want =
    let n = min (length r.leftover - r.leftover_off) want in
    let step = served r.leftover_off n r.leftover (incoming r.outcomes) in
    let bytes = take n (drop r.leftover_off r.leftover) in
    if_rule (PipeOrder (pipe_stream r)) (r.leftover_off + n == length r.leftover)
      {x = (record r { leftover = []; leftover_off = 0 }, ready (ok bytes))}
      {y = (record r { leftover_off = r.leftover_off + n }, ready (ok bytes))}
      (λ e.
        step
        ∙ ap (λ l. bytes ++ (l ++ incoming r.outcomes))
            (drop-all (r.leftover_off + n) r.leftover
              (omega (arith, (==_iff (r.leftover_off + n) (length r.leftover)).0 e))))
      (λ _. step)

serve_leftover-Fits :
    (r : PipeReader) (want : ℕ)
    → 0 < want
    → r.leftover_off < length r.leftover
    → FitsResult want (serve_leftover r want)
unfolding serve_leftover
serve_leftover-Fits r want pos low =
    let n = min (length r.leftover - r.leftover_off) want in
    let bytes = take n (drop r.leftover_off r.leftover) in
    let size = served_size r.leftover_off want r.leftover pos low in
    if_rule (FitsResult want) (r.leftover_off + n == length r.leftover)
      {x = (record r { leftover = []; leftover_off = 0 }, ready (ok bytes))}
      {y = (record r { leftover_off = r.leftover_off + n }, ready (ok bytes))} (λ _. size)
      (λ _. size)

pub empty_list : (xs : List ℕ) → is_empty xs ≡ true → xs ≡ []
empty_list [] h = refl
empty_list (x ∷ xs) h = absurd (true≢false (sym h))

pub some_list : (xs : List ℕ) → is_empty xs ≡ false → 0 < length xs
some_list [] h = absurd (true≢false h)
some_list (x ∷ xs) h = omega arith

pipe_rounds-order :
    (os : List (Outcome (List ℕ))) (r : PipeReader) (size want : ℕ)
    → drop r.leftover_off r.leftover ≡ []
    → PipeOrder (incoming os) (pipe_rounds os r size want)
unfolding pipe_rounds
pipe_rounds-order [] r size want h = rw h refl
pipe_rounds-order (not_yet ∷ os) r size want h = rw h refl
pipe_rounds-order (failed ∷ os) r size want h = rw h refl
pipe_rounds-order (done data_ ∷ os) r size want h =
    let r' = joined (spawn_read r size) os in
    let again = pipe_rounds-order os r' size want h in
    if_rule (PipeOrder (data_ ++ incoming os)) (is_empty data_) {x = pipe_rounds os r' size want}
      {y = serve_leftover (record r' { leftover = data_; leftover_off = 0 }) want}
      (λ e. ap (λ l. l ++ incoming os) (empty_list data_ e) ∙ again)
      (λ _. serve_leftover-order (record r' { leftover = data_; leftover_off = 0 }) want)

pipe_rounds-Fits :
    (os : List (Outcome (List ℕ))) (r : PipeReader) (size want : ℕ)
    → 0 < want
    → FitsResult want (pipe_rounds os r size want)
unfolding pipe_rounds
pipe_rounds-Fits [] r size want pos = tt
pipe_rounds-Fits (not_yet ∷ os) r size want pos = tt
pipe_rounds-Fits (failed ∷ os) r size want pos = tt
pipe_rounds-Fits (done data_ ∷ os) r size want pos =
    let r' = joined (spawn_read r size) os in
    if_rule (FitsResult want) (is_empty data_) {x = pipe_rounds os r' size want}
      {y = serve_leftover (record r' { leftover = data_; leftover_off = 0 }) want}
      (λ _. pipe_rounds-Fits os r' size want pos)
      (λ e.
        serve_leftover-Fits (record r' { leftover = data_; leftover_off = 0 }) want pos
          (some_list data_ e))

nothing_left :
    (r : PipeReader)
    → ltb 0 (length r.leftover - r.leftover_off) ≡ false
    → drop r.leftover_off r.leftover ≡ []
nothing_left r e =
    drop-all r.leftover_off r.leftover
      (omega (arith, ltb→ge 0 (length r.leftover - r.leftover_off) e))

pub poll_pipe-order :
    (buffer : ℕ → ℕ) (r : PipeReader) (want : ℕ)
    → pipe_stream r
      ≡ bytes_of (poll_pipe buffer r want).1 ++ pipe_stream (poll_pipe buffer r want).0
unfolding poll_pipe
poll_pipe-order buffer r want =
    if_rule (PipeOrder (pipe_stream r)) (ltb 0 (length r.leftover - r.leftover_off))
      {x = serve_leftover r want} {y = pipe_rounds r.outcomes r (buffer want) want}
      (λ _. serve_leftover-order r want)
      (λ e.
        ap (λ l. l ++ incoming r.outcomes) (nothing_left r e)
        ∙ pipe_rounds-order r.outcomes r (buffer want) want (nothing_left r e))

pub poll_pipe-Fits :
    (buffer : ℕ → ℕ) (r : PipeReader) (want : ℕ) → 0 < want → Fits want (poll_pipe buffer r want).1
unfolding poll_pipe
poll_pipe-Fits buffer r want pos =
    if_rule (FitsResult want) (ltb 0 (length r.leftover - r.leftover_off))
      {x = serve_leftover r want} {y = pipe_rounds r.outcomes r (buffer want) want}
      (λ e.
        serve_leftover-Fits r want pos
          (omega (arith, ltb→lt 0 (length r.leftover - r.leftover_off) e)))
      (λ _. pipe_rounds-Fits r.outcomes r (buffer want) want pos)

-- The readers of src/libusbk/io.rs and src/apple_mux/io.rs, whatever buffer they read into.
abbrev pub pipe_reader : (ℕ → ℕ) → ByteReader PipeReader
pipe_reader buffer = record {
  poll_read = poll_pipe buffer;
  stream = pipe_stream;
  IsValid = λ r. Unit {0};
  keeps_valid = λ r want v. tt;
  in_order = λ r want v. poll_pipe-order buffer r want;
  fits = λ r want v pos. poll_pipe-Fits buffer r want pos;
}

-- Polled with room for a byte at least, again and again, a blocking pipe reader gives the bytes of
-- its transfers in order and loses none; a poll that gives bytes gives one at least, and no more
-- than there is room for.
pub poll_pipe-stream :
    (buffer : ℕ → ℕ) (r : PipeReader) (wants : List ℕ)
    → All (λ want. 0 < want) wants
    → (pipe_stream r
        ≡ bytes_of_all (read_many (pipe_reader buffer) r wants).1
          ++ pipe_stream (read_many (pipe_reader buffer) r wants).0)
      × AllFit wants (read_many (pipe_reader buffer) r wants).1
poll_pipe-stream buffer r wants pos = read_many-stream (pipe_reader buffer) r wants tt pos
