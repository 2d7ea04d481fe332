-- ===== src/Bytes/Compare.antt =====
-- Go's `==` and `<` on strings: byte by byte.
use gopher_db.Base.{
  ◌≡◌, refl, ◌↔◌, Bool, true, false, ◌&&◌, [], ◌∷◌, arith, ltb, ◌==◌, if◌then◌else◌,
}
use gopher_db.Bytes.Copy.{Bytes}

unfoldable pub eq_bytes : Bytes → Bytes → Bool
eq_bytes [] [] = true
eq_bytes (a ∷ as') (b ∷ bs) = a == b && eq_bytes as' bs
eq_bytes _ _ = false

unfoldable pub lt_bytes : Bytes → Bytes → Bool
lt_bytes [] [] = false
lt_bytes [] (b ∷ bs) = true
lt_bytes (a ∷ as') [] = false
lt_bytes (a ∷ as') (b ∷ bs) = if a == b then lt_bytes as' bs else ltb a b

pub eq_bytes_refl : (a : Bytes) → eq_bytes a a ≡ true
unfolding eq_bytes
eq_bytes_refl [] = refl
eq_bytes_refl (a ∷ as') = ground (arith, eq_bytes_refl as')

pub eq_bytes_sound : (a b : Bytes) → eq_bytes a b ≡ true → a ≡ b
unfolding eq_bytes
eq_bytes_sound [] [] h = refl
eq_bytes_sound [] (b ∷ bs) h = cc
eq_bytes_sound (a ∷ as') [] h = cc
eq_bytes_sound (a ∷ as') (b ∷ bs) h = ground (arith, eq_bytes_sound as' bs)

pub eq_bytes_iff : (a b : Bytes) → (eq_bytes a b ≡ true) ↔ (a ≡ b)
eq_bytes_iff a b = (eq_bytes_sound a b, λ e. rw e (eq_bytes_refl b))

-- `<` is a strict total order.
pub lt_bytes_irrefl : (a : Bytes) → lt_bytes a a ≡ false
unfolding lt_bytes
lt_bytes_irrefl [] = refl
lt_bytes_irrefl (a ∷ as') = ground (arith, lt_bytes_irrefl as')

pub lt_bytes_trans :
    (a b c : Bytes) → lt_bytes a b ≡ true → lt_bytes b c ≡ true → lt_bytes a c ≡ true
unfolding lt_bytes
lt_bytes_trans [] [] c h k = cc
lt_bytes_trans [] (b ∷ bs) [] h k = cc
lt_bytes_trans [] (b ∷ bs) (c ∷ cs) h k = refl
lt_bytes_trans (a ∷ as') [] c h k = cc
lt_bytes_trans (a ∷ as') (b ∷ bs) [] h k = cc
lt_bytes_trans (a ∷ as') (b ∷ bs) (c ∷ cs) h k = ground (arith, lt_bytes_trans as' bs cs)

pub lt_bytes_total : (a b : Bytes) → lt_bytes a b ≡ false → lt_bytes b a ≡ false → a ≡ b
unfolding lt_bytes
lt_bytes_total [] [] h k = refl
lt_bytes_total [] (b ∷ bs) h k = cc
lt_bytes_total (a ∷ as') [] h k = cc
lt_bytes_total (a ∷ as') (b ∷ bs) h k = ground (arith, lt_bytes_total as' bs)
