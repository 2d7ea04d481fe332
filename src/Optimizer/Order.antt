-- ===== src/Optimizer/Order.antt =====
-- `compare` on two values of one type is a total order.
use gopher_db.Base.{
  ◌≡◌, refl, sym, ap, ◌∙◌, Bool, true, false, Option, some, arith, Bool-cases, inl, inr,
}
use gopher_db.Base.Int.{ℤ, pos, negsuc, lt_ℤ, eq_ℤ}
use gopher_db.Bytes.Compare.{
  eq_bytes_sound, lt_bytes, lt_bytes_irrefl, lt_bytes_trans, lt_bytes_total,
}
use gopher_db.Bytes.Copy.{Bytes}
use gopher_db.Execution.{eq_value, compare}
use gopher_db.Semantic.Typing.{HasType}
use gopher_db.Semantic.{ExprType, expr_type_int64, expr_type_varchar, expr_type_bool}
use gopher_db.Value.{Value, int64, string}

-- What is known of a comparison and of the one with the operands swapped.
pub data Compared (v w : Value) : Type 0 where
  less : compare v w ≡ some (negsuc 0) → compare w v ≡ some (pos 1) → Compared v w
  same : v ≡ w → compare v w ≡ some (pos 0) → Compared v w
  greater : compare v w ≡ some (pos 1) → compare w v ≡ some (negsuc 0) → Compared v w

lt_ℤ_asym : (a b : ℤ) → lt_ℤ a b ≡ true → lt_ℤ b a ≡ false
lt_ℤ_asym (pos a) (pos b) h = ground arith
lt_ℤ_asym (pos a) (negsuc b) h = cc
lt_ℤ_asym (negsuc a) (pos b) h = refl
lt_ℤ_asym (negsuc a) (negsuc b) h = ground arith

lt_ℤ_total : (a b : ℤ) → lt_ℤ a b ≡ false → lt_ℤ b a ≡ false → a ≡ b
lt_ℤ_total (pos a) (pos b) h k = ground arith
lt_ℤ_total (pos a) (negsuc b) h k = cc
lt_ℤ_total (negsuc a) (pos b) h k = cc
lt_ℤ_total (negsuc a) (negsuc b) h k = ground arith

pub eq_ℤ-sound : (a b : ℤ) → eq_ℤ a b ≡ true → a ≡ b
eq_ℤ-sound (pos a) (pos b) h = ground arith
eq_ℤ-sound (pos a) (negsuc b) h = cc
eq_ℤ-sound (negsuc a) (pos b) h = cc
eq_ℤ-sound (negsuc a) (negsuc b) h = ground arith

lt_bytes_asym : (a b : Bytes) → lt_bytes a b ≡ true → lt_bytes b a ≡ false
lt_bytes_asym a b h = elim (Bool-cases (lt_bytes b a)) [
  | inr ge ↦ ge
  | inl gt ↦ absurd (clash (lt_bytes_trans a b a h gt) (lt_bytes_irrefl a))
]
  where
    clash : {x : Bool} → x ≡ true → x ≡ false → ⊥
    clash e f = cc

Compared-int64 : (a b : ℤ) → Compared (int64 a) (int64 b)
unfolding compare
Compared-int64 a b = elim (Bool-cases (lt_ℤ a b)) [
  | inl lt ↦ less (rw lt) (rw (lt, lt_ℤ_asym a b lt))
  | inr ge ↦ elim (Bool-cases (lt_ℤ b a)) [
    | inl gt ↦ greater (rw (ge, gt)) (rw gt)
    | inr le ↦ same (ap int64 (lt_ℤ_total a b ge le)) (rw (ge, le))
  ]
]

Compared-string : (a b : Bytes) → Compared (string a) (string b)
unfolding compare
Compared-string a b = elim (Bool-cases (lt_bytes a b)) [
  | inl lt ↦ less (rw lt) (rw (lt, lt_bytes_asym a b lt))
  | inr ge ↦ elim (Bool-cases (lt_bytes b a)) [
    | inl gt ↦ greater (rw (ge, gt)) (rw gt)
    | inr le ↦ same (ap string (lt_bytes_total a b ge le)) (rw (ge, le))
  ]
]

-- Two values of one type that is not the Booleans' are compared without a panic, and the result is the
-- sign of a total order.
pub compare-Compared :
    (t : ExprType) (v w : Value) → ¬ (t ≡ expr_type_bool) → HasType t v → HasType t w → Compared v w
compare-Compared expr_type_int64 v w n (a, e) (b, f) = rw (e, f) (Compared-int64 a b)
compare-Compared expr_type_varchar v w n (a, e) (b, f) = rw (e, f) (Compared-string a b)
compare-Compared expr_type_bool v w n hv hw = absurd (n refl)

-- `=` on such values holds only of one value
pub eq_value_sound :
    (t : ExprType) (v w : Value)
    → ¬ (t ≡ expr_type_bool)
    → HasType t v
    → HasType t w
    → eq_value v w ≡ true
    → v ≡ w
eq_value_sound expr_type_int64 v w n (a, e) (b, f) h =
    e ∙ ap int64 (eq_ℤ-sound a b (rw (e, f) at h)) ∙ sym f
eq_value_sound expr_type_varchar v w n (a, e) (b, f) h =
    e ∙ ap string (eq_bytes_sound a b (rw (e, f) at h)) ∙ sym f
eq_value_sound expr_type_bool v w n hv hw h = absurd (n refl)

-- a value is equal to itself
pub compare_refl :
    (t : ExprType) (v : Value) → ¬ (t ≡ expr_type_bool) → HasType t v → compare v v ≡ some (pos 0)
compare_refl t v n h = elim (compare-Compared t v v n h h) [
  | less e f ↦ absurd (clash (sym e ∙ f))
  | same _ e ↦ e
  | greater e f ↦ absurd (clash (sym f ∙ e))
]
  where
    clash : ◌≡◌ {A = Option ℤ} (some (negsuc 0)) (some (pos 1)) → ⊥
    clash e = cc
