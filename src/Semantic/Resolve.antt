-- ===== src/Semantic/Resolve.antt =====
-- What the analyzer resolves is well typed.
use gopher_db.Base.{
  ◌≡◌, refl, sym, subst, ap, ◌∙◌, Bool, true, false, Option, some, Option-cases, Bool-cases,
  if◌then◌else◌, inl, inr,
}
use gopher_db.Base.Int.{ℤ}
use gopher_db.Base.Outcome.{Outcome, ok, err, ok_parts, ok_injective, err≢ok}
use gopher_db.Bytes.Copy.{Bytes}
use gopher_db.Catalog.ColumnDefinition.{ColumnDefinition}
use gopher_db.Catalog.TypeDefinition.{TypeDefinition}
use gopher_db.Semantic.Typing.{Schema, Operands, IsTyped}
use gopher_db.Semantic.{
  ExprType, expr_type_int64, expr_type_varchar, expr_type_bool, eq_type, Op, and_op, or_op, eq_op,
  ne_op, lt_op, le_op, gt_op, ge_op, other_op, Expr, column_ref_expr, literal_int64_expr,
  literal_string_expr, binary_expr, ResolvedExpr, resolved_binary_expr, expr_type, SemanticError,
  left_not_bool, right_not_bool, type_mismatch, cannot_compare_bool, to_expr_type, combine,
  typed_column, found_column, resolve,
}

pub eq_type_sound : (s t : ExprType) → eq_type s t ≡ true → s ≡ t
eq_type_sound expr_type_int64 expr_type_int64 e = refl
eq_type_sound expr_type_int64 expr_type_varchar e = cc
eq_type_sound expr_type_int64 expr_type_bool e = cc
eq_type_sound expr_type_varchar expr_type_int64 e = cc
eq_type_sound expr_type_varchar expr_type_varchar e = refl
eq_type_sound expr_type_varchar expr_type_bool e = cc
eq_type_sound expr_type_bool expr_type_int64 e = cc
eq_type_sound expr_type_bool expr_type_varchar e = cc
eq_type_sound expr_type_bool expr_type_bool e = refl

not_bool : (t : ExprType) → eq_type t expr_type_bool ≡ false → ¬ (t ≡ expr_type_bool)
not_bool t e same = cc

-- two nested tests that both have to hold
both_tests :
    {A : Type 0} (a b : Bool) (e f : SemanticError) (x y : A)
    → ◌≡◌ {A = Outcome SemanticError A} (if a then (if b then ok x else err e) else err f) (ok y)
    → (a ≡ true) × (b ≡ true) × (x ≡ y)
both_tests true true e f x y h = (refl, refl, cc)
both_tests true false e f x y h = cc
both_tests false b e f x y h = cc

module _ (schema : Schema) where
  logical-IsTyped :
      (op : Op) (l r x : ResolvedExpr)
      → Operands op expr_type_bool expr_type_bool
      → IsTyped schema l
      → IsTyped schema r
      → (if eq_type (expr_type l) expr_type_bool
          then (if eq_type (expr_type r) expr_type_bool
              then ok (resolved_binary_expr op l r expr_type_bool)
              else err right_not_bool)
          else err left_not_bool)
        ≡ ok x
      → IsTyped schema x
  logical-IsTyped op l r x o hl hr h =
      let (a, b, same) = both_tests _ _ _ _ _ _ h in
      subst (IsTyped schema) same (refl, rw (eq_type_sound _ _ a, eq_type_sound _ _ b) o, hl, hr)

  comparison-IsTyped :
      (op : Op) (l r x : ResolvedExpr)
      → ((s t : ExprType) → s ≡ t → ¬ (s ≡ expr_type_bool) → Operands op s t)
      → IsTyped schema l
      → IsTyped schema r
      → (if eq_type (expr_type l) (expr_type r)
          then (if eq_type (expr_type l) expr_type_bool
              then err cannot_compare_bool
              else ok (resolved_binary_expr op l r expr_type_bool))
          else err type_mismatch)
        ≡ ok x
      → IsTyped schema x
  comparison-IsTyped op l r x o hl hr h = elim (Bool-cases (eq_type (expr_type l) (expr_type r))) [
    | inr ne ↦ absurd (err≢ok (rw ne at h))
    | inl same ↦ elim (Bool-cases (eq_type (expr_type l) expr_type_bool)) [
      | inl bool ↦ absurd (err≢ok (rw (same, bool) at h))
      | inr ne ↦
          subst (IsTyped schema) (ok_injective (rw (same, ne) at h))
            (refl, o _ _ (eq_type_sound _ _ same) (not_bool _ ne), hl, hr)
    ]
  ]

  combine-IsTyped :
      (op : Op) (l r x : ResolvedExpr)
      → IsTyped schema l
      → IsTyped schema r
      → combine op l r ≡ ok x
      → IsTyped schema x
  combine-IsTyped and_op l r x hl hr h = logical-IsTyped and_op l r x (refl, refl) hl hr h
  combine-IsTyped or_op l r x hl hr h = logical-IsTyped or_op l r x (refl, refl) hl hr h
  combine-IsTyped eq_op l r x hl hr h = comparison-IsTyped eq_op l r x (λ s t e n. (e, n)) hl hr h
  combine-IsTyped ne_op l r x hl hr h = comparison-IsTyped ne_op l r x (λ s t e n. (e, n)) hl hr h
  combine-IsTyped lt_op l r x hl hr h = comparison-IsTyped lt_op l r x (λ s t e n. (e, n)) hl hr h
  combine-IsTyped le_op l r x hl hr h = comparison-IsTyped le_op l r x (λ s t e n. (e, n)) hl hr h
  combine-IsTyped gt_op l r x hl hr h = comparison-IsTyped gt_op l r x (λ s t e n. (e, n)) hl hr h
  combine-IsTyped ge_op l r x hl hr h = comparison-IsTyped ge_op l r x (λ s t e n. (e, n)) hl hr h
  combine-IsTyped (other_op o) l r x hl hr h = cc

module _ (get_column : Bytes → Option ColumnDefinition) (get_type : ℤ → Option TypeDefinition)
    (schema : Schema)
    (described : (name : Bytes) (c : ColumnDefinition) (td : TypeDefinition)
      → get_column name ≡ some c
      → get_type c.type_oid ≡ some td
      → schema c.oid ≡ some (c.position, to_expr_type td)) where
  column-IsTyped :
      (name : Bytes) (x : ResolvedExpr)
      → found_column get_column get_type name (get_column name) ≡ ok x
      → IsTyped schema x
  column-IsTyped name x h = elim (Option-cases (get_column name)) [
    | inl e ↦ absurd (err≢ok (sym (ap (found_column get_column get_type name) e) ∙ h))
    | inr (c, e) ↦ elim (Option-cases (get_type c.type_oid)) [
      | inl e' ↦ absurd (
          err≢ok (
            sym (
              ap (found_column get_column get_type name) e
              ∙ ap (typed_column get_column get_type c) e')
            ∙ h))
      | inr (td, e') ↦
          subst (IsTyped schema)
            (ok_injective (
              sym (
                ap (found_column get_column get_type name) e
                ∙ ap (typed_column get_column get_type c) e')
              ∙ h))
            (described name c td e e')
    ]
  ]

  -- An expression that the analyzer resolves is well typed, for every schema that gives each column that
  -- the catalog finds its position and the type of its type definition.
  pub resolve-IsTyped :
      (e : Expr) (x : ResolvedExpr) → resolve get_column get_type e ≡ ok x → IsTyped schema x
  unfolding resolve
  resolve-IsTyped (column_ref_expr name) x h = column-IsTyped name x h
  resolve-IsTyped (literal_int64_expr n) x h = subst (IsTyped schema) (ok_injective h) (n, refl)
  resolve-IsTyped (literal_string_expr s) x h = subst (IsTyped schema) (ok_injective h) (s, refl)
  resolve-IsTyped (binary_expr op l r) x h =
      let (left, rest, hl) = ok_parts _ (resolve get_column get_type l) h in
      let (right, done, hr) = ok_parts _ (resolve get_column get_type r) rest in
      combine-IsTyped schema op left right x (resolve-IsTyped l left hl)
        (resolve-IsTyped r right hr) done
