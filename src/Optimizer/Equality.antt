-- ===== src/Optimizer/Equality.antt =====
-- `extractEquality` and `findIndex`.
use gopher_db.Base.{
  ℕ, suc, ◌≡◌, sym, subst, ap, ◌∙◌, Bool, true, List, [], ◌∷◌, Option, some, get_elem?, Bool-cases,
  inl, inr,
}
use gopher_db.Base.Int.{eq_ℤ}
use gopher_db.Catalog.ColumnDefinition.{ColumnDefinition}
use gopher_db.Catalog.IndexDefinition.{IndexDefinition, IndexType}
use gopher_db.Execution.{eq_value, eval}
use gopher_db.Optimizer.Order.{eq_ℤ-sound, eq_value_sound}
use gopher_db.Optimizer.{or_else, try_extract_col_val, extract_equality, find_index}
use gopher_db.Semantic.Typing.{Row, get_at, HasType, Schema, IsTyped, Conforms}
use gopher_db.Semantic.{
  ExprType, expr_type_bool, and_op, or_op, eq_op, ne_op, lt_op, le_op, gt_op, ge_op, other_op,
  ResolvedExpr, resolved_const, resolved_column_ref, resolved_binary_expr,
}
use gopher_db.Value.{Value, boolean}

-- The column and constant that an equality fixes.
pub record SoundEquality (schema : Schema) (e : ResolvedExpr) (c : ColumnDefinition) (k : Value)
    : Type 0 where
  pub type_is : ExprType
  pub column_is : schema c.oid ≡ some (c.position, type_is)
  pub value_typed : HasType type_is k
  pub holds :
      (row : Row)
      → Conforms schema row
      → eval e row ≡ some (boolean true)
      → (v : Value) × (get_at row c.position ≡ some v) × (eq_value v k ≡ true)

true_flag : {b : Bool} → ◌≡◌ {A = Option Value} (some (boolean b)) (some (boolean true)) → b ≡ true
true_flag e = cc

module _ (schema : Schema) (c : ColumnDefinition) (k : Value) (s u t : ExprType)
    (at_column : schema c.oid ≡ some (c.position, s)) (hk : HasType u k) where
  direct :
      s ≡ u
      → SoundEquality schema
          (resolved_binary_expr eq_op (resolved_column_ref c s) (resolved_const k u) t)
          c
          k
  unfolding eval
  direct s≡u = record {
    type_is = s;
    column_is = at_column;
    value_typed = subst (λ t. HasType t k) (sym s≡u) hk;
    holds = λ row conforms h.
        let (v, e, _) = conforms c.oid c.position s at_column in (v, e, true_flag (rw e at h));
  }

  inverted :
      u ≡ s
      → ¬ (u ≡ expr_type_bool)
      → SoundEquality schema
          (resolved_binary_expr eq_op (resolved_const k u) (resolved_column_ref c s) t)
          c
          k
  unfolding eval
  inverted u≡s scalar = record {
    type_is = s;
    column_is = at_column;
    value_typed = subst (λ t. HasType t k) u≡s hk;
    holds = λ row conforms h.
        let (v, e, hv) = conforms c.oid c.position s at_column in
        let eq : eq_value k v ≡ true = true_flag (rw e at h) in
        let one : k ≡ v =
          eq_value_sound u k v scalar hk (subst (λ t. HasType t v) (sym u≡s) hv) eq in
        (
          v,
          e,
          subst (λ x. eq_value x k ≡ true) one (subst (λ x. eq_value k x ≡ true) (sym one) eq),
        );
  }

pair_eq :
    (P : ColumnDefinition → Value → Type 0) {a c : ColumnDefinition} {b k : Value}
    → ◌≡◌ {A = Option (ColumnDefinition × Value)} (some (a, b)) (some (c, k))
    → P a b
    → P c k
pair_eq P {a} {c} {b} {k} e h = subst (P c) (second e) (subst (λ x. P x b) (first e) h)
  where
    first :
        {a c : ColumnDefinition} {b k : Value}
        → ◌≡◌ {A = Option (ColumnDefinition × Value)} (some (a, b)) (some (c, k))
        → a ≡ c
    first e = cc

    second :
        {a c : ColumnDefinition} {b k : Value}
        → ◌≡◌ {A = Option (ColumnDefinition × Value)} (some (a, b)) (some (c, k))
        → b ≡ k
    second e = cc

equality_pair :
    (schema : Schema) (l r : ResolvedExpr) (t : ExprType) (c : ColumnDefinition) (k : Value)
    → IsTyped schema (resolved_binary_expr eq_op l r t)
    → or_else (try_extract_col_val l r) (try_extract_col_val r l) ≡ some (c, k)
    → SoundEquality schema (resolved_binary_expr eq_op l r t) c k
unfolding try_extract_col_val
equality_pair schema (resolved_column_ref d s) (resolved_const j u) t c k (_, o, hc, hk) e =
    pair_eq
      (SoundEquality schema
        (resolved_binary_expr eq_op (resolved_column_ref d s) (resolved_const j u) t))
      e (direct schema d j s u t hc hk o.0)
equality_pair schema (resolved_const j u) (resolved_column_ref d s) t c k (_, o, hk, hc) e =
    pair_eq
      (SoundEquality schema
        (resolved_binary_expr eq_op (resolved_const j u) (resolved_column_ref d s) t))
      e (inverted schema d j s u t hc hk o.0 o.1)
equality_pair schema (resolved_column_ref d s) (resolved_column_ref d' u) t c k h e = cc
equality_pair schema (resolved_column_ref d s) (resolved_binary_expr o a b u) t c k h e = cc
equality_pair schema (resolved_const j u) (resolved_const j' s) t c k h e = cc
equality_pair schema (resolved_const j u) (resolved_binary_expr o a b s) t c k h e = cc
equality_pair schema (resolved_binary_expr o a b s) (resolved_column_ref d u) t c k h e = cc
equality_pair schema (resolved_binary_expr o a b s) (resolved_const j u) t c k h e = cc
equality_pair schema (resolved_binary_expr o a b s) (resolved_binary_expr p a' b' u) t c k h e = cc

-- A column and a constant that `extractEquality` takes from a well-typed predicate have one type, the column
-- is the schema's, and on every conforming row that satisfies the predicate the column's value equals the
-- constant.
pub extract_equality-SoundEquality :
    (schema : Schema) (e : ResolvedExpr) (c : ColumnDefinition) (k : Value)
    → IsTyped schema e
    → extract_equality e ≡ some (c, k)
    → SoundEquality schema e c k
unfolding extract_equality
extract_equality-SoundEquality schema (resolved_const v t) c k h e = cc
extract_equality-SoundEquality schema (resolved_column_ref d t) c k h e = cc
extract_equality-SoundEquality schema (resolved_binary_expr eq_op l r t) c k h e =
    equality_pair schema l r t c k h e
extract_equality-SoundEquality schema (resolved_binary_expr and_op l r t) c k h e = cc
extract_equality-SoundEquality schema (resolved_binary_expr or_op l r t) c k h e = cc
extract_equality-SoundEquality schema (resolved_binary_expr ne_op l r t) c k h e = cc
extract_equality-SoundEquality schema (resolved_binary_expr lt_op l r t) c k h e = cc
extract_equality-SoundEquality schema (resolved_binary_expr le_op l r t) c k h e = cc
extract_equality-SoundEquality schema (resolved_binary_expr gt_op l r t) c k h e = cc
extract_equality-SoundEquality schema (resolved_binary_expr ge_op l r t) c k h e = cc
extract_equality-SoundEquality schema (resolved_binary_expr (other_op o) l r t) c k h e = cc

-- The index found is in the list, of the type asked for, and on the column.
pub find_index_lem :
    (indexes : List IndexDefinition) (col : ColumnDefinition) (t : IndexType)
    (idx : IndexDefinition)
    → find_index indexes col t ≡ some idx
    → ((i : ℕ) × (get_elem? indexes i ≡ some idx))
      × (idx.index_type ≡ t)
      × (idx.column_oid ≡ col.oid)
unfolding find_index
find_index_lem [] col t idx e = cc
find_index_lem (x ∷ rest) col t idx e = elim (Bool-cases (eq_ℤ x.index_type t)) [
  | inr ne ↦ let ((i, f), g, g') = find_index_lem rest col t idx (rw ne at e) in ((suc i, f), g, g')
  | inl eq ↦ elim (Bool-cases (eq_ℤ x.column_oid col.oid)) [
    | inr ne ↦
        let ((i, f), g, g') = find_index_lem rest col t idx (rw (eq, ne) at e) in
        ((suc i, f), g, g')
    | inl at ↦
        let found : x ≡ idx = value (rw (eq, at) at e) in
        (
          (0, ap some found),
          ap (λ (d : IndexDefinition). d.index_type) (sym found) ∙ eq_ℤ-sound _ _ eq,
          ap (λ (d : IndexDefinition). d.column_oid) (sym found) ∙ eq_ℤ-sound _ _ at,
        )
  ]
]
  where
    value : {a b : IndexDefinition} → some a ≡ some b → a ≡ b
    value e = cc
