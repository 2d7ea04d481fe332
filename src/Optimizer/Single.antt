-- ===== src/Optimizer/Single.antt =====
-- The range of a single comparison holds the values that satisfy it.
use gopher_db.Base.{◌≡◌, sym, subst, ap, ◌∙◌, Bool, true, false, Option, some}
use gopher_db.Base.Int.{pos}
use gopher_db.Catalog.ColumnDefinition.{ColumnDefinition}
use gopher_db.Execution.{compare, eval_binary}
use gopher_db.Optimizer.Order.{less, same, greater, compare-Compared, compare_refl, eq_value_sound}
use gopher_db.Optimizer.{RangeInfo, invert_op, build_range}
use gopher_db.Semantic.Typing.{HasType}
use gopher_db.Semantic.{
  ExprType, expr_type_bool, Op, and_op, or_op, eq_op, ne_op, lt_op, le_op, gt_op, ge_op, other_op,
}
use gopher_db.Value.{Value, boolean}
use gopher_db.Optimizer.Range.{in_lower, in_upper, in_range, not_nil, in_lower_nil, in_upper_nil}

clash : ◌≡◌ {A = Option Value} (some (boolean false)) (some (boolean true)) → ⊥
clash e = cc

some_eq : {x y : RangeInfo} → some x ≡ some y → x ≡ y
some_eq e = cc

abbrev Holds : Op → Value → Value → Type 0
Holds op v w = eval_binary op (some v) (some w) ≡ some (boolean true)

module _ (t : ExprType) (scalar : ¬ (t ≡ expr_type_bool)) (v k : Value) (hv : HasType t v)
    (hk : HasType t k) where
  -- the comparison, as a lower or upper bound
  lower_gt : Holds gt_op v k → in_lower k false v ≡ true
  unfolding in_lower
  lower_gt h = elim (compare-Compared t v k scalar hv hk) [
    | less e _ ↦ absurd (clash (rw e at h))
    | same _ e ↦ absurd (clash (rw e at h))
    | greater e _ ↦ rw (not_nil t k hk, e)
  ]

  lower_ge : Holds ge_op v k → in_lower k true v ≡ true
  unfolding in_lower
  lower_ge h = elim (compare-Compared t v k scalar hv hk) [
    | less e _ ↦ absurd (clash (rw e at h))
    | same _ e ↦ rw (not_nil t k hk, e)
    | greater e _ ↦ rw (not_nil t k hk, e)
  ]

  upper_lt : Holds lt_op v k → in_upper k false v ≡ true
  unfolding in_upper
  upper_lt h = elim (compare-Compared t v k scalar hv hk) [
    | less e _ ↦ rw (not_nil t k hk, e)
    | same _ e ↦ absurd (clash (rw e at h))
    | greater e _ ↦ absurd (clash (rw e at h))
  ]

  upper_le : Holds le_op v k → in_upper k true v ≡ true
  unfolding in_upper
  upper_le h = elim (compare-Compared t v k scalar hv hk) [
    | less e _ ↦ rw (not_nil t k hk, e)
    | same _ e ↦ rw (not_nil t k hk, e)
    | greater e _ ↦ absurd (clash (rw e at h))
  ]

  eq_same : Holds eq_op v k → v ≡ k
  eq_same h = eq_value_sound t v k scalar hv hk (value h)
    where
      value :
          {b : Bool} → ◌≡◌ {A = Option Value} (some (boolean b)) (some (boolean true)) → b ≡ true
      value e = cc

  both_eq : Holds eq_op v k → (in_lower k true v ≡ true) × (in_upper k true v ≡ true)
  unfolding in_lower in_upper
  both_eq h =
      let e : compare v k ≡ some (pos 0) =
        subst (λ x. compare v x ≡ some (pos 0)) (eq_same h) (compare_refl t v scalar hv) in
      (rw (not_nil t k hk, e), rw (not_nil t k hk, e))

  -- with the constant on the left
  swapped_lt : Holds lt_op k v → Holds gt_op v k
  swapped_lt h = elim (compare-Compared t k v scalar hk hv) [
    | less _ f ↦ rw f
    | same _ e ↦ absurd (clash (rw e at h))
    | greater e _ ↦ absurd (clash (rw e at h))
  ]

  swapped_gt : Holds gt_op k v → Holds lt_op v k
  swapped_gt h = elim (compare-Compared t k v scalar hk hv) [
    | less e _ ↦ absurd (clash (rw e at h))
    | same _ e ↦ absurd (clash (rw e at h))
    | greater _ f ↦ rw f
  ]

  swapped_le : Holds le_op k v → Holds ge_op v k
  swapped_le h = elim (compare-Compared t k v scalar hk hv) [
    | less _ f ↦ rw f
    | same s e ↦ rw (ap (λ x. compare x k) (sym s) ∙ compare_refl t k scalar hk)
    | greater e _ ↦ absurd (clash (rw e at h))
  ]

  swapped_ge : Holds ge_op k v → Holds le_op v k
  swapped_ge h = elim (compare-Compared t k v scalar hk hv) [
    | less e _ ↦ absurd (clash (rw e at h))
    | same s e ↦ rw (ap (λ x. compare x k) (sym s) ∙ compare_refl t k scalar hk)
    | greater _ f ↦ rw f
  ]

  swapped_eq : Holds eq_op k v → Holds eq_op v k
  swapped_eq h =
      let e : k ≡ v = eq_value_sound t k v scalar hk hv (value h) in
      subst (λ x. Holds eq_op x k) e (subst (λ x. Holds eq_op k x) (sym e) h)
    where
      value :
          {b : Bool} → ◌≡◌ {A = Option Value} (some (boolean b)) (some (boolean true)) → b ≡ true
      value e = cc

  -- a comparison that holds puts the value into the range that is built for it
  pub Holds-in_range :
      (op : Op) (c : ColumnDefinition) (r : RangeInfo)
      → build_range op c k ≡ some r
      → Holds op v k
      → in_range r v ≡ true
  Holds-in_range and_op c r e h = cc
  Holds-in_range or_op c r e h = cc
  Holds-in_range eq_op c r e h =
      subst (λ r. in_range r v ≡ true) (some_eq e) (rw ((both_eq h).0, (both_eq h).1))
  Holds-in_range ne_op c r e h = cc
  Holds-in_range lt_op c r e h =
      subst (λ r. in_range r v ≡ true) (some_eq e) (rw (in_lower_nil false v, upper_lt h))
  Holds-in_range le_op c r e h =
      subst (λ r. in_range r v ≡ true) (some_eq e) (rw (in_lower_nil false v, upper_le h))
  Holds-in_range gt_op c r e h =
      subst (λ r. in_range r v ≡ true) (some_eq e) (rw (in_upper_nil false v, lower_gt h))
  Holds-in_range ge_op c r e h =
      subst (λ r. in_range r v ≡ true) (some_eq e) (rw (in_upper_nil false v, lower_ge h))
  Holds-in_range (other_op o) c r e h = cc

  pub swapped_in_range :
      (op : Op) (c : ColumnDefinition) (r : RangeInfo)
      → build_range (invert_op op) c k ≡ some r
      → Holds op k v
      → in_range r v ≡ true
  swapped_in_range and_op c r e h = cc
  swapped_in_range or_op c r e h = cc
  swapped_in_range eq_op c r e h = Holds-in_range eq_op c r e (swapped_eq h)
  swapped_in_range ne_op c r e h = cc
  swapped_in_range lt_op c r e h = Holds-in_range gt_op c r e (swapped_lt h)
  swapped_in_range le_op c r e h = Holds-in_range ge_op c r e (swapped_le h)
  swapped_in_range gt_op c r e h = Holds-in_range lt_op c r e (swapped_gt h)
  swapped_in_range ge_op c r e h = Holds-in_range le_op c r e (swapped_ge h)
  swapped_in_range (other_op o) c r e h = cc
