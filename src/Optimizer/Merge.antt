-- ===== src/Optimizer/Merge.antt =====
-- `mergeRanges`: the merged range holds the values that both ranges hold.
use gopher_db.Base.{
  ◌≡◌, refl, sym, subst, ap, ◌∙◌, Bool, true, false, ◌&&◌, Option, none, some, inl, inr,
  if◌then◌else◌,
}
use gopher_db.Base.Int.{ℤ}
use gopher_db.Optimizer.Order.{less, same, greater, compare-Compared}
use gopher_db.Optimizer.Range.{in_lower, in_upper, in_range, Bound, TypedRange, not_nil}
use gopher_db.Optimizer.{RangeInfo, merge_from, merge_to, is_empty, merge_ranges}
use gopher_db.Semantic.Typing.{Schema}
use gopher_db.Semantic.{ExprType, expr_type_bool}
use gopher_db.Value.{Value}

abbrev Merged :
    (Value → Bool → Value → Bool)
    → ExprType
    → Value
    → Bool
    → Value
    → Bool
    → Option (Value × Bool)
    → Type 0
Merged inside t a i b j o =
    (f : Value × Bool) × (o ≡ some f)
    × Bound t f.0
    × ((v : Value) → inside a i v ≡ true → inside b j v ≡ true → inside f.0 f.1 v ≡ true)

-- both of two bounds that are one, with their flags
both_flags :
    (inside : Value → Bool → Value → Bool) (a b : Value) (i j : Bool) (v : Value)
    → a ≡ b
    → inside a i v ≡ true
    → inside b j v ≡ true
    → inside a (i && j) v ≡ true
both_flags inside a b true j v e h k = subst (λ x. inside x j v ≡ true) (sym e) k
both_flags inside a b false j v e h k = h

module _ (t : ExprType) (scalar : ¬ (t ≡ expr_type_bool)) (a : Value) (i : Bool) (b : Value)
    (j : Bool) where
  Merged-lower : Bound t a → Bound t b → Merged in_lower t a i b j (merge_from a i b j)
  Merged-lower (inl e) hb = ((b, j), rw e, hb, λ v h k. k)
  Merged-lower (inr ha) (inl e) = ((a, i), rw (not_nil t a ha, e), inr ha, λ v h k. h)
  Merged-lower (inr ha) (inr hb) = elim (compare-Compared t a b scalar ha hb) [
    | less e _ ↦ ((b, j), rw (not_nil t a ha, not_nil t b hb, e), inr hb, λ v h k. k)
    | same s e ↦ (
      (a, i && j),
      rw (not_nil t a ha, not_nil t b hb, e),
      inr ha,
      λ v h k. both_flags in_lower a b i j v s h k,
    )
    | greater e _ ↦ ((a, i), rw (not_nil t a ha, not_nil t b hb, e), inr ha, λ v h k. h)
  ]

  Merged-upper : Bound t a → Bound t b → Merged in_upper t a i b j (merge_to a i b j)
  Merged-upper (inl e) hb = ((b, j), rw e, hb, λ v h k. k)
  Merged-upper (inr ha) (inl e) = ((a, i), rw (not_nil t a ha, e), inr ha, λ v h k. h)
  Merged-upper (inr ha) (inr hb) = elim (compare-Compared t a b scalar ha hb) [
    | less e _ ↦ ((a, i), rw (not_nil t a ha, not_nil t b hb, e), inr ha, λ v h k. h)
    | same s e ↦ (
      (a, i && j),
      rw (not_nil t a ha, not_nil t b hb, e),
      inr ha,
      λ v h k. both_flags in_upper a b i j v s h k,
    )
    | greater e _ ↦ ((b, j), rw (not_nil t a ha, not_nil t b hb, e), inr hb, λ v h k. k)
  ]

is_empty_total :
    (t : ExprType)
    → ¬ (t ≡ expr_type_bool)
    → (a b : Value) → Bound t a
    → Bound t b
    → (e : Bool) × (is_empty a b ≡ some e)
is_empty_total t scalar a b (inl e) hb = (false, rw e)
is_empty_total t scalar a b (inr ha) (inl e) = (false, rw (not_nil t a ha, e))
is_empty_total t scalar a b (inr ha) (inr hb) = elim (compare-Compared t a b scalar ha hb) [
  | less e _ ↦ (false, rw (not_nil t a ha, not_nil t b hb, e))
  | same s e ↦ (false, rw (not_nil t a ha, not_nil t b hb, e))
  | greater e _ ↦ (true, rw (not_nil t a ha, not_nil t b hb, e))
]

-- what merging comes to: no range, or one that holds what both hold, of the left range's column
pub record MergedRange (schema : Schema) (l r : RangeInfo) (o : Option (Option RangeInfo))
    : Type 0 where
  pub result : Option RangeInfo
  pub result_is : o ≡ some result
  pub range_is :
      (m : RangeInfo)
      → result ≡ some m
      → TypedRange schema m
        × (m.column ≡ l.column)
        × ((v : Value) → in_range l v ≡ true → in_range r v ≡ true → in_range m v ≡ true)

and_split : (a b : Bool) → (a && b) ≡ true → (a ≡ true) × (b ≡ true)
and_split true b e = (refl, e)
and_split false b e = cc

split :
    (r : RangeInfo) (v : Value)
    → in_range r v ≡ true
    → (in_lower r.lower r.lower_inclusive v ≡ true) × (in_upper r.upper r.upper_inclusive v ≡ true)
split r v h =
    and_split (in_lower r.lower r.lower_inclusive v) (in_upper r.upper r.upper_inclusive v) h

-- Merging two ranges of one column does not panic.
pub merge_ranges-MergedRange :
    (schema : Schema) (l r : RangeInfo)
    → TypedRange schema l
    → TypedRange schema r
    → l.column.oid ≡ r.column.oid
    → MergedRange schema l r (merge_ranges l r)
merge_ranges-MergedRange schema l r hl hr oids =
    let t = hl.type_is in
    let types : r_type ≡ t = type_eq (sym hr.column_is ∙ ap schema (sym oids) ∙ hl.column_is) in
    let (f, f_is, f_typed, f_holds) =
      Merged-lower t hl.not_bool l.lower l.lower_inclusive r.lower r.lower_inclusive hl.lower_typed
        (subst (λ t. Bound t r.lower) types hr.lower_typed) in
    let (u, u_is, u_typed, u_holds) =
      Merged-upper t hl.not_bool l.upper l.upper_inclusive r.upper r.upper_inclusive hl.upper_typed
        (subst (λ t. Bound t r.upper) types hr.upper_typed) in
    let (e, e_is) = is_empty_total t hl.not_bool f.0 u.0 f_typed u_typed in
    let m : RangeInfo = record {
      column = l.column;
      lower = f.0;
      lower_inclusive = f.1;
      upper = u.0;
      upper_inclusive = u.1;
    } in
    record {
      result = if e then none else some m;
      result_is = rw (f_is, u_is, e_is);
      range_is = λ m' h.
          subst
            (λ m'.
              TypedRange schema m'
              × (m'.column ≡ l.column)
              × ((v : Value) → in_range l v ≡ true → in_range r v ≡ true → in_range m' v ≡ true))
            (value e m m' h)
            (
              record {
                type_is = t;
                column_is = hl.column_is;
                not_bool = hl.not_bool;
                lower_typed = f_typed;
                upper_typed = u_typed;
              },
              refl,
              λ v a b. rw (
                f_holds v (split l v a).0 (split r v b).0,
                u_holds v (split l v a).1 (split r v b).1,
              ),
            );
    }
  where
    r_type : ExprType
    r_type = hr.type_is

    type_eq :
        {p q : ℤ} {s u : ExprType}
        → ◌≡◌ {A = Option (ℤ × ExprType)} (some (p, s)) (some (q, u))
        → s ≡ u
    type_eq e = cc

    value : (e : Bool) (m m' : RangeInfo) → (if e then none else some m) ≡ some m' → m ≡ m'
    value true m m' h = cc
    value false m m' h = cc
