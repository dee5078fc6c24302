-- ===== src/Usb/Poll.antt =====
-- What the pipes of src/usb/bulk_io.rs, src/libusbk/io.rs and src/apple_mux/io.rs wait for.
use netmuxd.Base.{ℕ, ◌%◌, Bool, Result, ◌==◌, if◌then◌else◌}

-- `std::task::Poll`
pub data Poll {ℓ} (A : Type ℓ) : Type ℓ where
  pending : Poll A
  ready : A → Poll A

-- `usb in: ..`, `usb out: ..`, the error of a blocking call, and the one that `write_all` gives
-- for a write of no byte.
pub data PipeError : Type 0 where
  usb_in usb_out last_os_error write_zero : PipeError

abbrev pub PipeResult : Type 0 → Type 0
PipeResult A = Result PipeError A

-- What a poll of the transfer in flight finds: the transfer goes on, is done, or has failed.
pub data Outcome (A : Type 0) : Type 0 where
  not_yet : Outcome A
  done : A → Outcome A
  failed : Outcome A

-- `usize::is_multiple_of`
abbrev pub is_multiple_of : ℕ → ℕ → Bool
is_multiple_of n m = if m == 0 then n == 0 else n % m == 0
