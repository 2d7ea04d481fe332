-- ===== src/Optimizer/Extract.antt =====
-- The range of a comparison of a column and a constant.
use gopher_db.Base.{◌≡◌, refl, sym, subst, ap, ◌∙◌, Bool, true, false, some, inl, inr}
use gopher_db.Catalog.ColumnDefinition.{ColumnDefinition}
use gopher_db.Execution.{eval}
use gopher_db.Optimizer.{
  RangeInfo, invert_op, build_range, try_extract_col_val, extract_single_range,
}
use gopher_db.Semantic.Typing.{Row, get_at, HasType, Schema, Operands, IsTyped, Conforms}
use gopher_db.Semantic.{
  ExprType, expr_type_bool, Op, and_op, or_op, eq_op, ne_op, lt_op, le_op, gt_op, ge_op, other_op,
  ResolvedExpr, resolved_const, resolved_column_ref, resolved_binary_expr,
}
use gopher_db.Value.{Value, nil, boolean}
use gopher_db.Optimizer.Range.{in_range, TypedRange}
use gopher_db.Optimizer.Single.{Holds-in_range, swapped_in_range}

some_eq : {x y : RangeInfo} → some x ≡ some y → x ≡ y
some_eq e = cc

module _ (schema : Schema) (c : ColumnDefinition) (t : ExprType)
    (at_column : schema c.oid ≡ some (c.position, t)) (scalar : ¬ (t ≡ expr_type_bool)) (k : Value)
    (hk : HasType t k) where
  typed_lower :
      (i j : Bool)
      → TypedRange schema
          (record { column = c; lower = k; lower_inclusive = i; upper = nil; upper_inclusive = j })
  typed_lower i j = record {
    type_is = t;
    column_is = at_column;
    not_bool = scalar;
    lower_typed = inr hk;
    upper_typed = inl refl;
  }

  typed_upper :
      (i j : Bool)
      → TypedRange schema
          (record { column = c; lower = nil; lower_inclusive = i; upper = k; upper_inclusive = j })
  typed_upper i j = record {
    type_is = t;
    column_is = at_column;
    not_bool = scalar;
    lower_typed = inl refl;
    upper_typed = inr hk;
  }

  pub build_range-TypedRange :
      (op : Op) (r : RangeInfo) → build_range op c k ≡ some r → TypedRange schema r
  build_range-TypedRange and_op r e = cc
  build_range-TypedRange or_op r e = cc
  build_range-TypedRange eq_op r e = subst (TypedRange schema) (some_eq e) (record {
    type_is = t;
    column_is = at_column;
    not_bool = scalar;
    lower_typed = inr hk;
    upper_typed = inr hk;
  })
  build_range-TypedRange ne_op r e = cc
  build_range-TypedRange lt_op r e = subst (TypedRange schema) (some_eq e) (typed_upper false false)
  build_range-TypedRange le_op r e = subst (TypedRange schema) (some_eq e) (typed_upper false true)
  build_range-TypedRange gt_op r e = subst (TypedRange schema) (some_eq e) (typed_lower false false)
  build_range-TypedRange ge_op r e = subst (TypedRange schema) (some_eq e) (typed_lower true false)
  build_range-TypedRange (other_op o) r e = cc

build_range-column :
    (op : Op) (c : ColumnDefinition) (k : Value) (r : RangeInfo)
    → build_range op c k ≡ some r
    → c ≡ r.column
build_range-column and_op c k r e = cc
build_range-column or_op c k r e = cc
build_range-column eq_op c k r e = ap (λ (r : RangeInfo). r.column) (some_eq e)
build_range-column ne_op c k r e = cc
build_range-column lt_op c k r e = ap (λ (r : RangeInfo). r.column) (some_eq e)
build_range-column le_op c k r e = ap (λ (r : RangeInfo). r.column) (some_eq e)
build_range-column gt_op c k r e = ap (λ (r : RangeInfo). r.column) (some_eq e)
build_range-column ge_op c k r e = ap (λ (r : RangeInfo). r.column) (some_eq e)
build_range-column (other_op o) c k r e = cc

-- an operator with a range compares two values of one type
range_operands :
    (op : Op) (c : ColumnDefinition) (k : Value) (r : RangeInfo) (s t : ExprType)
    → build_range op c k ≡ some r
    → Operands op s t
    → (s ≡ t) × ¬ (s ≡ expr_type_bool)
range_operands and_op c k r s t e o = cc
range_operands or_op c k r s t e o = cc
range_operands eq_op c k r s t e o = o
range_operands ne_op c k r s t e o = o
range_operands lt_op c k r s t e o = o
range_operands le_op c k r s t e o = o
range_operands gt_op c k r s t e o = o
range_operands ge_op c k r s t e o = o
range_operands (other_op b) c k r s t e o = absurd o

invert_operands : (op : Op) (s t : ExprType) → Operands op s t → Operands (invert_op op) s t
invert_operands and_op s t o = o
invert_operands or_op s t o = o
invert_operands eq_op s t o = o
invert_operands ne_op s t o = o
invert_operands lt_op s t o = o
invert_operands le_op s t o = o
invert_operands gt_op s t o = o
invert_operands ge_op s t o = o
invert_operands (other_op b) s t o = o

-- The range is of a column of the schema, and on every row on which the expression is true the column's
-- value is in the range.
pub record SoundRange (schema : Schema) (e : ResolvedExpr) (r : RangeInfo) : Type 0 where
  pub typed : TypedRange schema r
  pub holds :
      (row : Row)
      → Conforms schema row
      → eval e row ≡ some (boolean true)
      → (v : Value) → get_at row r.column.position ≡ some v
      → in_range r v ≡ true

module _ (schema : Schema) (op : Op) (c : ColumnDefinition) (k : Value) (s u t : ExprType)
    (at_column : schema c.oid ≡ some (c.position, s)) (hk : HasType u k) (r : RangeInfo) where
  value_typed :
      (row : Row) → Conforms schema row → (v : Value) → get_at row c.position ≡ some v → HasType s v
  value_typed row conforms v e =
      let (w, f, h) = conforms c.oid c.position s at_column in
      subst (HasType s) (unique (sym f ∙ e)) h
    where
      unique : {x y : Value} → some x ≡ some y → x ≡ y
      unique e = cc

  direct :
      Operands op s u
      → build_range op c k ≡ some r
      → SoundRange schema
          (resolved_binary_expr op (resolved_column_ref c s) (resolved_const k u) t)
          r
  unfolding eval
  direct o e =
      let (s≡u, scalar) = range_operands op c k r s u e o in
      let hk' = subst (λ t. HasType t k) (sym s≡u) hk in
      record {
        typed = build_range-TypedRange schema c s at_column scalar k hk' op r e;
        holds = λ row conforms h v f.
            let at : get_at row c.position ≡ some v =
              ap (λ (c : ColumnDefinition). get_at row c.position) (build_range-column op c k r e)
              ∙ f in
            Holds-in_range s scalar v k (value_typed row conforms v at) hk' op c r e (rw at at h);
      }

  inverted :
      Operands op u s
      → build_range (invert_op op) c k ≡ some r
      → SoundRange schema
          (resolved_binary_expr op (resolved_const k u) (resolved_column_ref c s) t)
          r
  unfolding eval
  inverted o e =
      let (u≡s, scalar') = range_operands (invert_op op) c k r u s e (invert_operands op u s o) in
      let scalar = λ (b : s ≡ expr_type_bool). scalar' (u≡s ∙ b) in
      let hk' = subst (λ t. HasType t k) u≡s hk in
      record {
        typed = build_range-TypedRange schema c s at_column scalar k hk' (invert_op op) r e;
        holds = λ row conforms h v f.
            let at : get_at row c.position ≡ some v =
              ap (λ (c : ColumnDefinition). get_at row c.position)
                (build_range-column (invert_op op) c k r e)
              ∙ f in
            swapped_in_range s scalar v k (value_typed row conforms v at) hk' op c r e (rw at at h);
      }

-- A comparison of a column and a constant, either way round
pub extract_single_range-SoundRange :
    (schema : Schema) (op : Op) (l r : ResolvedExpr) (t : ExprType) (rng : RangeInfo)
    → IsTyped schema (resolved_binary_expr op l r t)
    → extract_single_range op l r ≡ some rng
    → SoundRange schema (resolved_binary_expr op l r t) rng
unfolding extract_single_range try_extract_col_val
extract_single_range-SoundRange schema op (resolved_column_ref c s) (resolved_const k u) t rng
      (_, o, hc, hk) e =
    direct schema op c k s u t hc hk rng o e
extract_single_range-SoundRange schema op (resolved_const k u) (resolved_column_ref c s) t rng
      (_, o, hk, hc) e =
    inverted schema op c k s u t hc hk rng o e
extract_single_range-SoundRange schema op (resolved_column_ref c s) (resolved_column_ref d u) t rng
      h e =
    cc
extract_single_range-SoundRange schema op (resolved_column_ref c s) (resolved_binary_expr o a b u) t
      rng h e =
    cc
extract_single_range-SoundRange schema op (resolved_const k u) (resolved_const j s) t rng h e = cc
extract_single_range-SoundRange schema op (resolved_const k u) (resolved_binary_expr o a b s) t rng
      h e =
    cc
extract_single_range-SoundRange schema op (resolved_binary_expr o a b s) (resolved_column_ref d u) t
      rng h e =
    cc
extract_single_range-SoundRange schema op (resolved_binary_expr o a b s) (resolved_const j u) t rng
      h e =
    cc
extract_single_range-SoundRange schema op (resolved_binary_expr o a b s)
      (resolved_binary_expr p c d u) t rng h e =
    cc
