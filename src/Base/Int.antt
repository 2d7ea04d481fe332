-- ===== src/Base/Int.antt =====
-- Go's signed integers: a value is an integer, and a conversion to or from the unsigned type of
-- the same width goes through the two's-complement bit pattern, a number below twice `half`.
use Prim.Native.Nat.{ℕ, ◌+◌, ◌-◌, ◌%◌, ◌<◌, ◌^◌}
use mathlib.Core.Path.{◌≡◌}
use mathlib.Core.Bool.{Bool, true, false}
use native.Mathlib.Omega.{arith}
use gopher_db.Base.Tests.{ltb, ◌==◌, if◌then◌else◌}

-- `negsuc n` is -(n + 1).
pub data ℤ : Type 0 where
  pos : ℕ → ℤ
  negsuc : ℕ → ℤ

-- `uint32(x)` at `half = 2 ^ 31`, and so for the other widths
unfoldable pub unsigned : ℕ → ℤ → ℕ
unsigned half (pos n) = n % (half + half)
unsigned half (negsuc n) = half + half - 1 - n % (half + half)

-- `int32(w)` at `half = 2 ^ 31`
unfoldable pub signed : ℕ → ℕ → ℤ
signed half w = if ltb w half then pos w else negsuc (half + half - 1 - w)

-- The value fits the signed type with this half range.
abbrev pub Fits : ℕ → ℤ → Type 0
Fits half (pos n) = n < half
Fits half (negsuc n) = n < half

abbrev pub half_16 : ℕ
half_16 = 2 ^ 15

abbrev pub half_32 : ℕ
half_32 = 2 ^ 31

abbrev pub half_64 : ℕ
half_64 = 2 ^ 63

abbrev pub lt_ℤ : ℤ → ℤ → Bool
lt_ℤ (pos a) (pos b) = ltb a b
lt_ℤ (pos a) (negsuc b) = false
lt_ℤ (negsuc a) (pos b) = true
lt_ℤ (negsuc a) (negsuc b) = ltb b a

abbrev pub eq_ℤ : ℤ → ℤ → Bool
eq_ℤ (pos a) (pos b) = a == b
eq_ℤ (negsuc a) (negsuc b) = a == b
eq_ℤ (pos a) (negsuc b) = false
eq_ℤ (negsuc a) (pos b) = false

-- Converting a value that fits there and back gives the value, and the pattern is in range.
pub signed-unsigned_16 : (z : ℤ) → Fits half_16 z → signed half_16 (unsigned half_16 z) ≡ z
unfolding signed unsigned
signed-unsigned_16 (pos n) h = ground arith
signed-unsigned_16 (negsuc n) h = ground arith

pub signed-unsigned_32 : (z : ℤ) → Fits half_32 z → signed half_32 (unsigned half_32 z) ≡ z
unfolding signed unsigned
signed-unsigned_32 (pos n) h = ground arith
signed-unsigned_32 (negsuc n) h = ground arith

pub signed-unsigned_64 : (z : ℤ) → Fits half_64 z → signed half_64 (unsigned half_64 z) ≡ z
unfolding signed unsigned
signed-unsigned_64 (pos n) h = ground arith
signed-unsigned_64 (negsuc n) h = ground arith

pub unsigned_32-lt : (z : ℤ) → unsigned half_32 z < 2 ^ 32
unfolding unsigned
unsigned_32-lt (pos n) = omega arith
unsigned_32-lt (negsuc n) = omega arith

pub unsigned_64-lt : (z : ℤ) → unsigned half_64 z < 2 ^ 64
unfolding unsigned
unsigned_64-lt (pos n) = omega arith
unsigned_64-lt (negsuc n) = omega arith

pub unsigned_16-lt : (z : ℤ) → unsigned half_16 z < 2 ^ 16
unfolding unsigned
unsigned_16-lt (pos n) = omega arith
unsigned_16-lt (negsuc n) = omega arith
