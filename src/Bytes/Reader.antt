-- ===== src/Bytes/Reader.antt =====
-- A decoder that walks a byte slice with an offset (`offset += n` after each field), as a monad.
-- A read past the end is the panic that Go raises.
use gopher_db.Base.{
  ℕ, ◌+◌, ◌^◌, ◌<◌, ◌≡◌, refl, ap, ◌∙◌, [], ◌++◌, arith, length, take, drop, length-append,
  drop-length-append, take-length-append, append_assoc, append-nil, subst, leb, le→leb,
  if◌then◌else◌,
}
use gopher_db.Base.Int.{ℤ, Fits, half_32, signed, unsigned, signed-unsigned_32, unsigned_32-lt}
use gopher_db.Base.Outcome.{Outcome, ok, err, panic}
use gopher_db.Base.Outcome
use gopher_db.Bytes.Copy.{Bytes}
use gopher_db.Bytes.BigEndian.{
  put_u16, put_u32, put_u64, be_u16, be_u32, be_u64, be_u16-put_u16, be_u32-put_u32, be_u64-put_u64,
}

abbrev pub Reader : Type 0 → Type 0 → Type 0
Reader E A = Bytes → ℕ → Outcome E (A × ℕ)

infixl 5 ◌>>=◌
abbrev pub ◌>>=◌ : {E A B : Type 0} → Reader E A → (A → Reader E B) → Reader E B
◌>>=◌ m f buf off = Outcome.◌>>=◌ (m buf off) (λ r. f r.0 buf r.1)

abbrev pub pure : {E A : Type 0} → A → Reader E A
pure a buf off = ok (a, off)

-- `n` bytes from the offset on, taken apart by `get`
field : {E A : Type 0} → ℕ → (Bytes → A) → Reader E A
field n get buf off = if leb (off + n) (length buf) then ok (get (drop off buf), off + n) else panic

module _ {E : Type 0} where
  unfoldable pub read_u16 : Reader E ℕ
  unfolding field
  read_u16 = field 2 be_u16

  unfoldable pub read_u32 : Reader E ℕ
  unfolding field
  read_u32 = field 4 be_u32

  unfoldable pub read_u64 : Reader E ℕ
  unfolding field
  read_u64 = field 8 be_u64

  unfoldable pub read_bytes : ℕ → Reader E Bytes
  unfolding field
  read_bytes n = field n (take n)

-- `int32(binary.BigEndian.Uint32(data[offset:]))`
unfoldable pub read_i32 : {E : Type 0} → Reader E ℤ
unfolding read_u32
read_i32 = read_u32 >>= λ w. pure (signed half_32 w)

abbrev pub put_i32 : ℤ → Bytes
put_i32 z = put_u32 (unsigned half_32 z)

-- Wherever `enc` stands in a buffer, the reader gives `a` there and stops right behind it.
pub record Reads {E A : Type 0} (r : Reader E A) (enc : Bytes) (a : A) : Type 0 where
  pub apply :
      (pre rest : Bytes) → r (pre ++ (enc ++ rest)) (length pre) ≡ ok (a, length pre + length enc)

pub Reads-pure : {E A : Type 0} (a : A) → Reads {E = E} (pure a) [] a
Reads-pure a = record { apply = λ pre rest. ap (λ n. ok (a, n)) (omega arith) }

pub Reads->>= :
    {E A B : Type 0} (r : Reader E A) (f : A → Reader E B) (enc enc' : Bytes) {a : A} {b : B}
    → Reads r enc a
    → Reads (f a) enc' b
    → Reads (r >>= f) (enc ++ enc') b
Reads->>= r f enc enc' {a} {b} h k = record {
  apply = λ pre rest.
      rw (append_assoc enc enc' rest, h.apply pre (enc' ++ rest))
        (rw (← append_assoc pre enc (enc' ++ rest), ← length-append pre enc)
          (k.apply (pre ++ enc) rest
            ∙ ap (λ n. ok (b, n))
                (omega (
                  arith,
                  length-append pre enc,
                  length-append enc enc',
                  length-append (pre ++ enc) enc',
                ))));
}

field-Reads :
    {E A : Type 0} (n : ℕ) (get : Bytes → A) (enc : Bytes) (a : A)
    → n ≡ length enc
    → ((rest : Bytes) → get (enc ++ rest) ≡ a)
    → Reads {E = E} (field n get) enc a
unfolding field
field-Reads n get enc a len h = record {
  apply = λ pre rest. rw (
    drop-length-append pre (enc ++ rest),
    h rest,
    len,
    le→leb (length pre + length enc) (length (pre ++ (enc ++ rest)))
        (omega (arith, length-append pre (enc ++ rest), length-append enc rest)),
  );
}

pub Reads-u16 : {E : Type 0} (v : ℕ) → v < 2 ^ 16 → Reads {E = E} read_u16 (put_u16 v) v
unfolding read_u16
Reads-u16 v h = field-Reads 2 be_u16 (put_u16 v) v refl (λ rest. be_u16-put_u16 v rest h)

pub Reads-u32 : {E : Type 0} (v : ℕ) → v < 2 ^ 32 → Reads {E = E} read_u32 (put_u32 v) v
unfolding read_u32
Reads-u32 v h = field-Reads 4 be_u32 (put_u32 v) v refl (λ rest. be_u32-put_u32 v rest h)

pub Reads-u64 : {E : Type 0} (v : ℕ) → v < 2 ^ 64 → Reads {E = E} read_u64 (put_u64 v) v
unfolding read_u64
Reads-u64 v h = field-Reads 8 be_u64 (put_u64 v) v refl (λ rest. be_u64-put_u64 v rest h)

pub Reads-bytes : {E : Type 0} (n : ℕ) (s : Bytes) → n ≡ length s → Reads {E = E} (read_bytes n) s s
unfolding read_bytes
Reads-bytes n s h = field-Reads n (take n) s s h (λ rest. rw h (take-length-append s rest))

pub Reads-i32 : {E : Type 0} (z : ℤ) → Fits half_32 z → Reads {E = E} read_i32 (put_i32 z) z
unfolding read_i32
Reads-i32 {E} z h =
    subst (λ v. Reads {E = E} read_i32 (put_i32 z) v) (signed-unsigned_32 z h)
      (subst (λ e. Reads {E = E} read_i32 e (signed half_32 (unsigned half_32 z)))
        (append-nil (put_i32 z))
        (Reads->>= read_u32 (λ w. pure (signed half_32 w)) (put_i32 z) []
          (Reads-u32 (unsigned half_32 z) (unsigned_32-lt z))
          (Reads-pure (signed half_32 (unsigned half_32 z)))))

-- A decoder run from the start of a slice
unfoldable pub run : {E A : Type 0} → Reader E A → Bytes → Outcome E A
run r buf = Outcome.◌>>=◌ (r buf 0) (λ p. ok p.0)

-- On exactly what was encoded it gives the value back.
pub run-Reads :
    {E A : Type 0} {r : Reader E A} {enc : Bytes} {a : A} → Reads r enc a → run r enc ≡ ok a
unfolding run
run-Reads {r} {enc} {a} h = rw (rw (append-nil enc) at (h.apply [] []))
