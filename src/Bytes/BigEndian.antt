-- ===== src/Bytes/BigEndian.antt =====
-- `binary.BigEndian`: `put_u16`, `put_u32` and `put_u64` are the bytes that `PutUint…` stores, and
-- `be_u16`, `be_u32` and `be_u64` what `Uint…` reads from the start of a slice.
use gopher_db.Base.{ℕ, ◌+◌, ◌*◌, ◌/◌, ◌%◌, ◌^◌, ◌<◌, ◌≡◌, [], ◌∷◌, ◌++◌, arith}
use gopher_db.Bytes.Copy.{Bytes}

abbrev pub put_u16 : ℕ → Bytes
put_u16 v = (v / 256 % 256) ∷ (v % 256) ∷ []

abbrev pub put_u32 : ℕ → Bytes
put_u32 v = (v / 16777216 % 256) ∷ (v / 65536 % 256) ∷ (v / 256 % 256) ∷ (v % 256) ∷ []

-- the high word, then the low word
abbrev pub put_u64 : ℕ → Bytes
put_u64 v = put_u32 (v / 4294967296) ++ put_u32 (v % 4294967296)

-- A slice that is too short is a panic: the callers test for it.
abbrev pub be_u16 : Bytes → ℕ
be_u16 (a ∷ b ∷ _) = a * 256 + b
be_u16 _ = 0

abbrev pub be_u32 : Bytes → ℕ
be_u32 (a ∷ b ∷ c ∷ d ∷ _) = a * 16777216 + b * 65536 + c * 256 + d
be_u32 _ = 0

abbrev pub be_u64 : Bytes → ℕ
be_u64 (a ∷ b ∷ c ∷ d ∷ r) = be_u32 (a ∷ b ∷ c ∷ d ∷ []) * 4294967296 + be_u32 r
be_u64 _ = 0

pub be_u16-put_u16 : (v : ℕ) (rest : Bytes) → v < 2 ^ 16 → be_u16 (put_u16 v ++ rest) ≡ v
be_u16-put_u16 v rest h = omega arith

pub be_u32-put_u32 : (v : ℕ) (rest : Bytes) → v < 2 ^ 32 → be_u32 (put_u32 v ++ rest) ≡ v
be_u32-put_u32 v rest h = omega arith

pub be_u64-put_u64 : (v : ℕ) (rest : Bytes) → v < 2 ^ 64 → be_u64 (put_u64 v ++ rest) ≡ v
be_u64-put_u64 v rest h = omega (
  arith,
  be_u32-put_u32 (v / 4294967296) [] (omega arith),
  be_u32-put_u32 (v % 4294967296) rest (omega arith),
)
