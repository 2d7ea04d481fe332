-- ===== src/Base/Select.antt =====
-- The elements of a list that pass a test, up to order.
use mathlib.Core.List.{Permᴰ, filter_map}
use mathlib.Core.List.Permᴰ
use mathlib.Core.Path.{◌≡◌, refl, subst, ap}
use mathlib.Core.Bool.{Bool, true, false}
use mathlib.Core.List.{List, [], ◌∷◌}
use mathlib.Core.Option.{Option, none, some}
use gopher_db.Base.Tests.{if◌then◌else◌, Bool-cases}
use mathlib.Core.Logic.{inl, inr}

module _ {A : Type 0} where
  unfoldable pub select : (A → Bool) → List A → List A
  select p [] = []
  select p (x ∷ xs) = if p x then x ∷ select p xs else select p xs

  abbrev pub All : (A → Type 0) → List A → Type 0
  All P [] = Unit {0}
  All P (x ∷ xs) = P x × All P xs

  pub All-select : (P : A → Type 0) (p : A → Bool) (xs : List A) → All P xs → All P (select p xs)
  unfolding select
  All-select P p [] h = tt
  All-select P p (x ∷ xs) (h, t) = elim (Bool-cases (p x)) [
    | inl e ↦ rw e (h, All-select P p xs t)
    | inr e ↦ rw e (All-select P p xs t)
  ]

  pub All-map : (P Q : A → Type 0) → ((x : A) → P x → Q x) → (xs : List A) → All P xs → All Q xs
  All-map P Q f [] h = tt
  All-map P Q f (x ∷ xs) (h, t) = (f x h, All-map P Q f xs t)

  pub select_all : (xs : List A) → select (λ _. true) xs ≡ xs
  unfolding select
  select_all [] = refl
  select_all (x ∷ xs) = ap (λ ys. x ∷ ys) (select_all xs)

  pub All-Permᴰ : (P : A → Type 0) {xs ys : List A} → Permᴰ xs ys → All P xs → All P ys
  All-Permᴰ P Permᴰ.nil h = tt
  All-Permᴰ P (Permᴰ.cons e p) (h, t) = (subst P e h, All-Permᴰ P p t)
  All-Permᴰ P (Permᴰ.swap e f) (h, (k, t)) = (subst P f k, (subst P e h, t))
  All-Permᴰ P (Permᴰ.trans p q) h = All-Permᴰ P q (All-Permᴰ P p h)

  -- a test after a weaker one
  pub select-select :
      (p q : A → Bool) (xs : List A)
      → All (λ x. p x ≡ true → q x ≡ true) xs
      → select p (select q xs) ≡ select p xs
  unfolding select
  select-select p q [] h = refl
  select-select p q (x ∷ xs) (h, t) = elim (Bool-cases (q x)) [
    | inl e ↦ rw e (ap (λ ys. if p x then x ∷ ys else ys) (select-select p q xs t))
    | inr e ↦ elim (Bool-cases (p x)) [
      | inl f ↦ absurd (clash (h f) e)
      | inr f ↦ rw (e, f) (select-select p q xs t)
    ]
  ]
    where
      clash : {b : Bool} → b ≡ true → b ≡ false → ⊥
      clash a b = cc

  abbrev kept : (A → Bool) → A → Option A
  kept p x = if p x then some x else none

  select-filter_map : (p : A → Bool) (xs : List A) → select p xs ≡ filter_map (kept p) xs
  unfolding select filter_map
  select-filter_map p [] = refl
  select-filter_map p (x ∷ xs) = elim (Bool-cases (p x)) [
    | inl e ↦ rw e (ap (λ ys. x ∷ ys) (select-filter_map p xs))
    | inr e ↦ rw e (select-filter_map p xs)
  ]

  pub Permᴰ-select :
      (p : A → Bool) {xs ys : List A} → Permᴰ xs ys → Permᴰ (select p xs) (select p ys)
  Permᴰ-select p {xs} {ys} h =
      rw (select-filter_map p xs, select-filter_map p ys) (Permᴰ.filter_map (kept p) h)
