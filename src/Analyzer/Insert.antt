-- ===== src/Analyzer/Insert.antt =====
-- An analysed `INSERT` has a value of the right type for every column.
use gopher_db.Base.{
  ◌≡◌, refl, sym, subst, ap, ◌∙◌, Bool, true, false, not, List, [], ◌∷◌, Option, none, some,
  Bool-cases, inl, inr, length, ◌==◌, ==_iff, arith, if◌then◌else◌,
}
use gopher_db.Base.Outcome.{
  Outcome, ok, err, panic, ◌>>=◌, panic_parts, ok_parts, ok_injective, err≢ok,
}
use gopher_db.Catalog.ColumnDefinition.{ColumnDefinition}
use gopher_db.Catalog.TypeDefinition.{TypeDefinition}
use gopher_db.Planner.{InsertQueryTree}
use gopher_db.Semantic.Resolve.{eq_type_sound}
use gopher_db.Semantic.Typing.{HasType}
use gopher_db.Semantic.{
  ExprType, eq_type, Expr, literal_int64_expr, literal_string_expr, column_ref_expr, binary_expr,
  to_expr_type,
}
use gopher_db.Value.{Value}
use gopher_db.Analyzer.Select.{require-ok}
use gopher_db.Catalog.TableDefinition.{TableDefinition}
use gopher_db.Ast.{InsertStmt}
use gopher_db.Analyzer.{
  AnalyzeError, count_mismatch, value_type_mismatch, Lookups, require, resolve_literal,
  insert_value, insert_values, analyze_insert,
}

-- the values stand under the columns, each of its column's type
pub ValuesTyped : Lookups → List ColumnDefinition → List Value → Type 0
ValuesTyped C [] [] = Unit {0}
ValuesTyped C (c ∷ cs) (v ∷ vs) =
    ((td : TypeDefinition) × (C.get_type c.type_oid ≡ some td) × HasType (to_expr_type td) v)
    × ValuesTyped C cs vs
ValuesTyped C _ _ = ⊥

module _ (C : Lookups) where
  literal_typed :
      (e : Expr) (v : Value) (t : ExprType) → resolve_literal e ≡ ok (v, t) → HasType t v
  literal_typed (literal_int64_expr n) v t h =
      subst (λ (p : Value × ExprType). HasType p.1 p.0) (ok_injective h) (n, refl)
  literal_typed (literal_string_expr s) v t h =
      subst (λ (p : Value × ExprType). HasType p.1 p.0) (ok_injective h) (s, refl)
  literal_typed (column_ref_expr c) v t h = cc
  literal_typed (binary_expr o a b) v t h = cc

  insert_value_typed :
      (c : ColumnDefinition) (e : Expr) (v : Value)
      → insert_value C c e ≡ ok v
      → (td : TypeDefinition) × (C.get_type c.type_oid ≡ some td) × HasType (to_expr_type td) v
  insert_value_typed c e v h =
      let (td, rest, found) = ok_parts _ (require _ (C.get_type c.type_oid)) h in
      let (literal, checked, is) = ok_parts _ (resolve_literal e) rest in
      elim (Bool-cases (eq_type literal.1 (to_expr_type td))) [
        | inl b ↦ (
          td,
          require-ok _ _ td found,
          subst (HasType (to_expr_type td)) (ok_injective (rw b at checked)) (
              subst (λ t. HasType t literal.0) (eq_type_sound _ _ b)
                (literal_typed e literal.0 literal.1 is)),
        )
        | inr b ↦ absurd (err≢ok (rw b at checked))
      ]

  insert_values-ValuesTyped :
      (cs : List ColumnDefinition) (es : List Expr) (vs : List Value)
      → insert_values C cs es ≡ ok vs
      → ValuesTyped C cs vs
  unfolding insert_values ValuesTyped
  insert_values-ValuesTyped [] es vs h = subst (ValuesTyped C []) (ok_injective h) tt
  insert_values-ValuesTyped (c ∷ cs) [] vs h = cc
  insert_values-ValuesTyped (c ∷ cs) (e ∷ es) vs h =
      let (v, rest, value) = ok_parts _ (insert_value C c e) h in
      let (vs', done, values) = ok_parts _ (insert_values C cs es) rest in
      subst (ValuesTyped C (c ∷ cs)) (ok_injective done)
        (insert_value_typed c e v value, insert_values-ValuesTyped cs es vs' values)

  require≢panic : {A : Type 0} (e : AnalyzeError) (o : Option A) → ¬ (require e o ≡ panic)
  require≢panic e none h = cc
  require≢panic e (some a) h = cc

  literal≢panic : (e : Expr) → ¬ (resolve_literal e ≡ panic)
  literal≢panic (literal_int64_expr n) h = cc
  literal≢panic (literal_string_expr s) h = cc
  literal≢panic (column_ref_expr c) h = cc
  literal≢panic (binary_expr o a b) h = cc

  checked≢panic : (b : Bool) (v : Value) → ¬ ((if b then ok v else err value_type_mismatch) ≡ panic)
  checked≢panic true v h = cc
  checked≢panic false v h = cc

  insert_value≢panic : (c : ColumnDefinition) (e : Expr) → ¬ (insert_value C c e ≡ panic)
  insert_value≢panic c e h = elim (panic_parts _ (require _ (C.get_type c.type_oid)) h) [
    | inl p ↦ require≢panic _ _ p
    | inr (td, rest, _) ↦ elim (panic_parts _ (resolve_literal e) rest) [
      | inl p ↦ literal≢panic e p
      | inr (literal, checked, _) ↦ checked≢panic _ _ checked
    ]
  ]

  insert_values≢panic :
      (cs : List ColumnDefinition) (es : List Expr)
      → length es ≡ length cs
      → ¬ (insert_values C cs es ≡ panic)
  unfolding insert_values
  insert_values≢panic [] es n h = cc
  insert_values≢panic (c ∷ cs) [] n h = cc
  insert_values≢panic (c ∷ cs) (e ∷ es) n h = elim (panic_parts _ (insert_value C c e) h) [
    | inl p ↦ insert_value≢panic c e p
    | inr (v, rest, _) ↦ elim (panic_parts _ (insert_values C cs es) rest) [
      | inl p ↦ insert_values≢panic cs es (omega (arith, n)) p
      | inr (vs, done, _) ↦ ok≢panic done
    ]
  ]
    where
      ok≢panic : {vs : List Value} → ◌≡◌ {A = Outcome AnalyzeError (List Value)} (ok vs) panic → ⊥
      ok≢panic e = cc

  -- the number of values has been checked when the loop runs
  counted :
      (table : TableDefinition) (s : InsertStmt) (cols : List ColumnDefinition)
      → Outcome AnalyzeError InsertQueryTree
  counted table s cols =
      if not (length s.values == length cols)
      then err count_mismatch
      else insert_values C cols s.values >>= λ values.
          ok (record { table = table; target_columns = cols; values = values })

  counted≢panic :
      (table : TableDefinition) (s : InsertStmt) (cols : List ColumnDefinition)
      → ¬ (counted table s cols ≡ panic)
  unfolding counted
  counted≢panic table s cols h = elim (Bool-cases (length s.values == length cols)) [
    | inr ne ↦ err≢panic (rw ne at h)
    | inl eq ↦ elim (panic_parts _ (insert_values C cols s.values) (rw eq at h)) [
      | inl p ↦ insert_values≢panic cols s.values ((==_iff (length s.values) (length cols)).0 eq) p
      | inr (vs, done, _) ↦ ok≢panic done
    ]
  ]
    where
      ok≢panic :
          {q : InsertQueryTree} → ◌≡◌ {A = Outcome AnalyzeError InsertQueryTree} (ok q) panic → ⊥
      ok≢panic e = cc

      err≢panic :
          {x : AnalyzeError} → ◌≡◌ {A = Outcome AnalyzeError InsertQueryTree} (err x) panic → ⊥
      err≢panic e = cc

  counted-ValuesTyped :
      (table : TableDefinition) (s : InsertStmt) (cols : List ColumnDefinition)
      (q : InsertQueryTree)
      → counted table s cols ≡ ok q
      → (q.table ≡ table) × (q.target_columns ≡ cols) × ValuesTyped C q.target_columns q.values
  unfolding counted
  counted-ValuesTyped table s cols q h = elim (Bool-cases (length s.values == length cols)) [
    | inr ne ↦ absurd (err≢ok (rw ne at h))
    | inl eq ↦
        let (vs, done, values) = ok_parts _ (insert_values C cols s.values) (rw eq at h) in
        subst
          (λ (q : InsertQueryTree).
            (q.table ≡ table) × (q.target_columns ≡ cols) × ValuesTyped C q.target_columns q.values)
          (ok_injective done) (refl, refl, insert_values-ValuesTyped cols s.values vs values)
  ]

  -- Analysing an `INSERT` does not panic, whatever the number of its values; and one that is accepted has, for
  -- the columns of its table in their order, one value each, of the Go type of the column's type.
  pub analyze_insert-ValuesTyped :
      (s : InsertStmt)
      → ¬ (analyze_insert C s ≡ panic)
        × ((q : InsertQueryTree)
            → analyze_insert C s ≡ ok q
            → (C.get_columns q.table ≡ some q.target_columns)
              × ValuesTyped C q.target_columns q.values)
  unfolding analyze_insert counted
  analyze_insert-ValuesTyped s = (
    λ h. elim (panic_parts _ (require _ (C.get_table s.table_name)) h) [
      | inl p ↦ require≢panic _ _ p
      | inr (table, rest, _) ↦ elim (panic_parts _ (require _ (C.get_columns table)) rest) [
        | inl p ↦ require≢panic _ _ p
        | inr (cols, checked, _) ↦ counted≢panic table s cols checked
      ]
    ],
    λ q h.
        let (table, rest, _) = ok_parts _ (require _ (C.get_table s.table_name)) h in
        let (cols, checked, found) = ok_parts _ (require _ (C.get_columns table)) rest in
        let (t, c, typed) = counted-ValuesTyped table s cols q checked in
        (ap C.get_columns t ∙ require-ok _ _ cols found ∙ ap some (sym c), typed),
  )
