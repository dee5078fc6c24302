-- ===== src/Base/Bytes.antt =====
-- `to_be_bytes`, `from_be_bytes` and `from_le_bytes` of u16 and u32. A byte is a number below 256.
use netmuxd.Base.Lists.{All, get_or}
use Prim.Native.Nat.{ℕ, ◌+◌, ◌-◌, ◌*◌, ◌/◌, ◌%◌, ◌<◌}
use mathlib.Core.Path.{◌≡◌}
use mathlib.Core.List.{List, [], ◌∷◌}
use native.Mathlib.Omega.{arith}

abbrev pub IsByte : ℕ → Type 0
IsByte b = b < 256

abbrev pub u16_mod : ℕ
u16_mod = 65536

abbrev pub u32_mod : ℕ
u32_mod = 4294967296

abbrev pub u64_mod : ℕ
u64_mod = 18446744073709551616

unfoldable pub u16_be : ℕ → List ℕ
u16_be n = n / 256 % 256 ∷ n % 256 ∷ []

unfoldable pub u32_be : ℕ → List ℕ
u32_be n = n / 16777216 % 256 ∷ n / 65536 % 256 ∷ n / 256 % 256 ∷ n % 256 ∷ []

-- The number in the two or four bytes from offset `i` on.
abbrev pub u16_at : ℕ → List ℕ → ℕ
u16_at i bs = get_or bs i 0 * 256 + get_or bs (1 + i) 0

abbrev pub u32_at : ℕ → List ℕ → ℕ
u32_at i bs =
    get_or bs i 0 * 16777216
    + get_or bs (1 + i) 0 * 65536
    + get_or bs (2 + i) 0 * 256
    + get_or bs (3 + i) 0

abbrev pub u32_le_at : ℕ → List ℕ → ℕ
u32_le_at i bs =
    get_or bs i 0
    + get_or bs (1 + i) 0 * 256
    + get_or bs (2 + i) 0 * 65536
    + get_or bs (3 + i) 0 * 16777216

pub u16_bytes : (n : ℕ) → n < u16_mod → n / 256 % 256 * 256 + n % 256 ≡ n
u16_bytes n h = omega arith

pub u32_bytes :
    (n : ℕ)
    → n < u32_mod
    → n / 16777216 % 256 * 16777216 + n / 65536 % 256 * 65536 + n / 256 % 256 * 256 + n % 256 ≡ n
u32_bytes n h = omega arith

pub u16_be-IsByte : (n : ℕ) → All IsByte (u16_be n)
unfolding u16_be
u16_be-IsByte n = omega arith

pub u32_be-IsByte : (n : ℕ) → All IsByte (u32_be n)
unfolding u32_be
u32_be-IsByte n = omega arith

-- u32 `wrapping_sub`: `-` on ℕ stops at 0, so the modulus comes first.
unfoldable pub wrapping_sub : ℕ → ℕ → ℕ
wrapping_sub a b = (a + u32_mod - b) % u32_mod
