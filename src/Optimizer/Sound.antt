-- ===== src/Optimizer/Sound.antt =====
-- `extractRange` on a whole predicate.
use gopher_db.Base.{
  ◌≡◌, refl, sym, subst, ap, ◌∙◌, true, false, Option, none, some, Bool-cases, inl, inr,
}
use gopher_db.Base.Int.{ℤ, eq_ℤ}
use gopher_db.Execution.{eval_binary, eval}
use gopher_db.Optimizer.Merge.{merge_ranges-MergedRange}
use gopher_db.Optimizer.Order.{eq_ℤ-sound}
use gopher_db.Optimizer.Range.{TypedRange}
use gopher_db.Optimizer.Extract.{SoundRange, extract_single_range-SoundRange}
use gopher_db.Optimizer.{
  RangeInfo, merge_ranges, merge_and_ranges, extract_single_range, extract_range,
}
use gopher_db.Semantic.Typing.{get_at, Schema, IsTyped}
use gopher_db.Semantic.{
  ExprType, Op, and_op, or_op, eq_op, ne_op, lt_op, le_op, gt_op, ge_op, other_op, ResolvedExpr,
  resolved_const, resolved_column_ref, resolved_binary_expr,
}
use gopher_db.Value.{Value, nil, int64, string, boolean}
use gopher_db.Catalog.ColumnDefinition.{ColumnDefinition}

-- what extraction comes to: no range or a sound one
pub record Extracted (schema : Schema) (e : ResolvedExpr) (o : Option (Option RangeInfo))
    : Type 0 where
  pub result : Option RangeInfo
  pub result_is : o ≡ some result
  pub sound : (r : RangeInfo) → result ≡ some r → SoundRange schema e r

some_eq : {A : Type 0} {x y : A} → some x ≡ some y → x ≡ y
some_eq e = cc

-- a conjunction that is true has true operands
conjuncts :
    (l r : Option Value)
    → eval_binary and_op l r ≡ some (boolean true)
    → (l ≡ some (boolean true)) × (r ≡ some (boolean true))
conjuncts none r h = cc
conjuncts (some (boolean true)) none h = cc
conjuncts (some (boolean true)) (some (boolean true)) h = (refl, refl)
conjuncts (some (boolean true)) (some (boolean false)) h = cc
conjuncts (some (boolean true)) (some nil) h = cc
conjuncts (some (boolean true)) (some (int64 n)) h = cc
conjuncts (some (boolean true)) (some (string s)) h = cc
conjuncts (some (boolean false)) r h = cc
conjuncts (some nil) r h = cc
conjuncts (some (int64 n)) r h = cc
conjuncts (some (string s)) r h = cc

module _ (schema : Schema) (l r : ResolvedExpr) (t : ExprType) where
  abbrev both : ResolvedExpr
  both = resolved_binary_expr and_op l r t

  -- a range of one operand is a range of the conjunction
  from_left : (rng : RangeInfo) → SoundRange schema l rng → SoundRange schema both rng
  unfolding eval
  from_left rng s = record {
    typed = s.typed;
    holds = λ row c h v e. s.holds row c (conjuncts (eval l row) (eval r row) h).0 v e;
  }

  from_right : (rng : RangeInfo) → SoundRange schema r rng → SoundRange schema both rng
  unfolding eval
  from_right rng s = record {
    typed = s.typed;
    holds = λ row c h v e. s.holds row c (conjuncts (eval l row) (eval r row) h).1 v e;
  }

  same_column :
      (a b : RangeInfo)
      → TypedRange schema a
      → TypedRange schema b
      → a.column.oid ≡ b.column.oid
      → a.column.position ≡ b.column.position
  same_column a b ha hb e = position (sym ha.column_is ∙ ap schema e ∙ hb.column_is)
    where
      position :
          {p q : ℤ} {s u : ExprType}
          → ◌≡◌ {A = Option (ℤ × ExprType)} (some (p, s)) (some (q, u))
          → p ≡ q
      position e = cc

  merged_both :
      (a b : RangeInfo)
      → SoundRange schema l a
      → SoundRange schema r b
      → a.column.oid ≡ b.column.oid
      → Extracted schema both (merge_ranges a b)
  unfolding eval
  merged_both a b ha hb oids =
      let m = merge_ranges-MergedRange schema a b ha.typed hb.typed oids in
      record {
        result = m.result;
        result_is = m.result_is;
        sound = λ rng e.
            let (typed, column, inside) = m.range_is rng e in
            record {
              typed = typed;
              holds = λ row c h v at.
                  let (true_left, true_right) = conjuncts (eval l row) (eval r row) h in
                  let at_left : get_at row a.column.position ≡ some v =
                    ap (λ (c : ColumnDefinition). get_at row c.position) (sym column) ∙ at in
                  inside v (ha.holds row c true_left v at_left) (
                    hb.holds row c true_right v
                      (ap (get_at row) (sym (same_column a b ha.typed hb.typed oids)) ∙ at_left));
            };
      }

  merged_option :
      (a b : Option RangeInfo)
      → ((rng : RangeInfo) → a ≡ some rng → SoundRange schema l rng)
      → ((rng : RangeInfo) → b ≡ some rng → SoundRange schema r rng)
      → Extracted schema both (merge_and_ranges a b)
  merged_option none b ha hb = record {
    result = b;
    result_is = refl;
    sound = λ rng e. from_right rng (hb rng e);
  }
  merged_option (some a) none ha hb = record {
    result = some a;
    result_is = refl;
    sound = λ rng e. from_left rng (ha rng e);
  }
  merged_option (some a) (some b) ha hb = elim (Bool-cases (eq_ℤ a.column.oid b.column.oid)) [
    | inl e ↦
        subst (Extracted schema both) (sym (rw e))
          (merged_both a b (ha a refl) (hb b refl) (eq_ℤ-sound _ _ e))
    | inr e ↦ record { result = none; result_is = rw e; sound = λ rng f. absurd (none_some f) }
  ]
    where
      none_some : {x : RangeInfo} → none ≡ some x → ⊥
      none_some f = cc

single :
    (schema : Schema) (op : Op) (l r : ResolvedExpr) (t : ExprType)
    → IsTyped schema (resolved_binary_expr op l r t)
    → Extracted schema (resolved_binary_expr op l r t) (some (extract_single_range op l r))
single schema op l r t h = record {
  result = extract_single_range op l r;
  result_is = refl;
  sound = λ rng e. extract_single_range-SoundRange schema op l r t rng h e;
}

none_sound : (schema : Schema) (e : ResolvedExpr) → Extracted schema e (some none)
none_sound schema e = record {
  result = none;
  result_is = refl;
  sound = λ rng f. absurd (none_some f);
}
  where
    none_some : {x : RangeInfo} → none ≡ some x → ⊥
    none_some f = cc

-- On a well-typed predicate `extractRange` does not panic, and a range that it returns is of a column of
-- the schema, with bounds of the column's type, and holds the column's value on every row that conforms to the
-- schema and satisfies the predicate.
pub extract_range-Extracted :
    (schema : Schema) (e : ResolvedExpr) → IsTyped schema e → Extracted schema e (extract_range e)
unfolding extract_range
extract_range-Extracted schema (resolved_const v t) h = none_sound schema _
extract_range-Extracted schema (resolved_column_ref c t) h = none_sound schema _
extract_range-Extracted schema (resolved_binary_expr and_op l r t) (_, o, hl, hr) =
    let a = extract_range-Extracted schema l hl in
    let b = extract_range-Extracted schema r hr in
    rw (a.result_is, b.result_is) (merged_option schema l r t a.result b.result a.sound b.sound)
extract_range-Extracted schema (resolved_binary_expr or_op l r t) h = single schema or_op l r t h
extract_range-Extracted schema (resolved_binary_expr eq_op l r t) h = single schema eq_op l r t h
extract_range-Extracted schema (resolved_binary_expr ne_op l r t) h = single schema ne_op l r t h
extract_range-Extracted schema (resolved_binary_expr lt_op l r t) h = single schema lt_op l r t h
extract_range-Extracted schema (resolved_binary_expr le_op l r t) h = single schema le_op l r t h
extract_range-Extracted schema (resolved_binary_expr gt_op l r t) h = single schema gt_op l r t h
extract_range-Extracted schema (resolved_binary_expr ge_op l r t) h = single schema ge_op l r t h
extract_range-Extracted schema (resolved_binary_expr (other_op o) l r t) h =
    single schema (other_op o) l r t h
