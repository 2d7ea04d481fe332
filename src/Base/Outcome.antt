-- ===== src/Base/Outcome.antt =====
-- What a Go function that returns `(T, error)` comes to: a value, an error, or a run-time panic
-- (a slice or an index out of range, a failed type assertion).
use mathlib.Core.Path.{◌≡◌, refl}
use mathlib.Core.Logic.{◌⊎◌, inl, inr}

pub data Outcome (E A : Type 0) : Type 0 where
  ok : A → Outcome E A
  err : E → Outcome E A
  panic : Outcome E A

infixl 5 ◌>>=◌
abbrev pub ◌>>=◌ : {E A B : Type 0} → Outcome E A → (A → Outcome E B) → Outcome E B
ok a >>= f = f a
err e >>= f = err e
panic >>= f = panic

-- a chain that ends in a value passes through a value
pub ok_parts :
    {E A B : Type 0} {b : B} (next : A → Outcome E B) (first : Outcome E A)
    → (first >>= next) ≡ ok b
    → (a : A) × (next a ≡ ok b) × (first ≡ ok a)
ok_parts next (ok a) e = (a, e, refl)
ok_parts next (err x) e = cc
ok_parts next panic e = cc

pub ok_injective : {E A : Type 0} {a b : A} → ◌≡◌ {A = Outcome E A} (ok a) (ok b) → a ≡ b
ok_injective e = cc

pub err≢ok : {E A : Type 0} {x : E} {a : A} → ◌≡◌ {A = Outcome E A} (err x) (ok a) → ⊥
err≢ok e = cc

pub Outcome-cases :
    {E A : Type 0} (m : Outcome E A)
    → ((a : A) × (m ≡ ok a)) ⊎ (((e : E) × (m ≡ err e)) ⊎ (m ≡ panic))
Outcome-cases (ok a) = inl (a, refl)
Outcome-cases (err e) = inr (inl (e, refl))
Outcome-cases panic = inr (inr refl)

-- a chain that panics does so in its first part or after it
pub panic_parts :
    {E A B : Type 0} (next : A → Outcome E B) (first : Outcome E A)
    → (first >>= next) ≡ panic
    → (first ≡ panic) ⊎ ((a : A) × (next a ≡ panic) × (first ≡ ok a))
panic_parts next (ok a) e = inr (a, e, refl)
panic_parts next (err x) e = inl (absurd (err≢panic e))
  where
    err≢panic : {E B : Type 0} {x : E} → ◌≡◌ {A = Outcome E B} (err x) panic → ⊥
    err≢panic e = cc
panic_parts next panic e = inl refl
