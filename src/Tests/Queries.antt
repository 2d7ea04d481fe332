-- ===== src/Tests/Queries.antt =====
-- A query on a table of two rows with an index.
use mathlib.Core.List.{Permᴰ, Perm}
use mathlib.Core.List.Permᴰ
use gopher_db.Analyzer.Insert.{ValuesTyped, analyze_insert-ValuesTyped}
use gopher_db.Analyzer.Select.{Describes, optimize-analyze_select}
use gopher_db.Ast.{SelectStmt, InsertStmt}
use gopher_db.Analyzer.{Lookups, analyze_select, analyze_insert, find_columns}
use gopher_db.Base.Outcome.{ok, panic}
use gopher_db.Base.{
  subst, ◌≡◌, refl, sym, ap, Bool, false, ◌&&◌, List, [], ◌∷◌, Option, none, some, if◌then◌else◌,
  Bool-cases, inl, inr,
}
use gopher_db.Base.Int.{ℤ, pos, eq_ℤ}
use gopher_db.Base.Select.{select, All}
use gopher_db.Bytes.Compare.{eq_bytes}
use gopher_db.Bytes.Copy.{Bytes}
use gopher_db.Catalog.ColumnDefinition.{ColumnDefinition}
use gopher_db.Catalog.IndexDefinition.{IndexDefinition}
use gopher_db.Catalog.TableDefinition.{TableDefinition}
use gopher_db.Catalog.TypeDefinition.{TypeDefinition}
use gopher_db.Execution.Typed.{eval-HasType}
use gopher_db.Execution.{eq_value, eval}
use gopher_db.Optimizer.Answer.{InSchema, answer, optimize-plan}
use gopher_db.Optimizer.Equality.{SoundEquality, extract_equality-SoundEquality}
use gopher_db.Optimizer.Plans.{Returns}
use gopher_db.Optimizer.Range.{in_lower, in_upper}
use gopher_db.Optimizer.Sound.{Extracted, extract_range-Extracted}
use gopher_db.Optimizer.Store.{Store, at_key}
use gopher_db.Optimizer.{
  PhysicalPlan, extract_equality, extract_range, optimize, try_extract_col_val,
}
use gopher_db.Planner.{InsertQueryTree, SelectQueryTree, select_query, plan}
use gopher_db.Semantic.Resolve.{resolve-IsTyped}
use gopher_db.Semantic.Typing.{Row, get_at, HasType, Schema, IsTyped, Conforms}
use gopher_db.Semantic.{
  ExprType, expr_type_int64, expr_type_bool, eq_op, ge_op, column_ref_expr, literal_int64_expr,
  binary_expr, ResolvedExpr, resolved_const, resolved_column_ref, resolved_binary_expr,
  to_expr_type, resolve,
}
use gopher_db.Tests.Codecs.{a_column, a_table, an_index}
use gopher_db.Value.{Value, int64}

abbrev one_column : Schema
one_column oid = if eq_ℤ oid (pos 3) then some (pos 0, expr_type_int64) else none

abbrev two_rows : List Row
two_rows = (int64 (pos 5) ∷ []) ∷ (int64 (pos 9) ∷ []) ∷ []

conforms : (n : ℤ) → Conforms one_column (int64 n ∷ [])
conforms n oid position t e = elim (Bool-cases (eq_ℤ oid (pos 3))) [
  | inr no_column ↦ absurd (clash (rw no_column at e))
  | inl at ↦ at_first position t (rw at at e)
]
  where
    clash : {p : ℤ × ExprType} → none ≡ some p → ⊥
    clash e = cc

    first :
        {p q : ℤ} {s t : ExprType}
        → ◌≡◌ {A = Option (ℤ × ExprType)} (some (p, s)) (some (q, t))
        → p ≡ q
    first e = cc

    second :
        {p q : ℤ} {s t : ExprType}
        → ◌≡◌ {A = Option (ℤ × ExprType)} (some (p, s)) (some (q, t))
        → s ≡ t
    second e = cc

    at_first :
        (position : ℤ) (t : ExprType)
        → ◌≡◌ {A = Option (ℤ × ExprType)} (some (pos 0, expr_type_int64)) (some (position, t))
        → (v : Value) × (get_at (int64 n ∷ []) position ≡ some v) × HasType t v
    at_first position t e = (
      int64 n,
      ap (get_at (int64 n ∷ [])) (sym (first e)),
      subst (λ t. HasType t (int64 n)) (second e) (n, refl),
    )

abbrev indexes : TableDefinition → List IndexDefinition
indexes _ = an_index ∷ []

abbrev by_key : (Value → Bool) → ℤ → List Row
by_key f position = select (λ row. at_key f (get_at row position)) two_rows

-- the position of the index's column
abbrev position_of : IndexDefinition → ℤ
position_of idx = pos 0

at_zero :
    (idx : IndexDefinition) (position : ℤ) (t : ExprType)
    → one_column idx.column_oid ≡ some (position, t)
    → position ≡ pos 0
at_zero idx position t e = elim (Bool-cases (eq_ℤ idx.column_oid (pos 3))) [
  | inr no_column ↦ absurd (clash (rw no_column at e))
  | inl at ↦ first (rw at at e)
]
  where
    clash : {p : ℤ × ExprType} → none ≡ some p → ⊥
    clash e = cc

    first :
        {p q : ℤ} {s t : ExprType}
        → ◌≡◌ {A = Option (ℤ × ExprType)} (some (p, s)) (some (q, t))
        → q ≡ p
    first e = cc

two_row_store : Store indexes
two_row_store = record {
  schema = λ _. one_column;
  rows = λ _. two_rows;
  rows_conform = λ _. (conforms (pos 5), (conforms (pos 9), tt));
  search = λ _ idx v. by_key (λ k. eq_value k v) (pos 0);
  range_search = λ _ idx a i b j. by_key (λ k. in_lower a i k && in_upper b j k) (pos 0);
  search-Permᴰ = λ table idx position t v l h c d.
      subst (λ p. Permᴰ (by_key (λ k. eq_value k v) (pos 0)) (by_key (λ k. eq_value k v) p))
        (sym (at_zero idx position t c)) (Permᴰ.refl (by_key (λ k. eq_value k v) (pos 0)));
  range_search-Permᴰ = λ table idx position t a i b j l h c d e.
      subst
        (λ p.
          Permᴰ (by_key (λ k. in_lower a i k && in_upper b j k) (pos 0))
            (by_key (λ k. in_lower a i k && in_upper b j k) p))
        (sym (at_zero idx position t c))
        (Permᴰ.refl (by_key (λ k. in_lower a i k && in_upper b j k) (pos 0)));
}

-- `a >= 7`
abbrev at_least_seven : ResolvedExpr
at_least_seven =
    resolved_binary_expr ge_op (resolved_column_ref a_column expr_type_int64)
      (resolved_const (int64 (pos 7)) expr_type_int64) expr_type_bool

not_bool : ¬ (expr_type_int64 ≡ expr_type_bool)
not_bool e = cc

at_least_seven-IsTyped : IsTyped one_column at_least_seven
at_least_seven-IsTyped = (refl, (refl, not_bool), refl, (pos 7, refl))

abbrev a_query : SelectQueryTree
a_query = record { table = a_table; target_columns = a_column ∷ []; filter = some at_least_seven }

optimize-plan_example :
    (p : PhysicalPlan) × (optimize indexes (plan (select_query a_query)) ≡ some p)
    × (out : List Row) × Returns indexes two_row_store p out
    × Perm out (answer a_query two_rows)
unfolding two_row_store
optimize-plan_example =
    optimize-plan indexes two_row_store a_query (at_least_seven-IsTyped, refl)
      ((expr_type_int64, refl), tt)

extract_range-Extracted_example : Extracted one_column at_least_seven (extract_range at_least_seven)
extract_range-Extracted_example =
    extract_range-Extracted one_column at_least_seven at_least_seven-IsTyped

-- `7 = a`
abbrev equal_seven : ResolvedExpr
equal_seven =
    resolved_binary_expr eq_op (resolved_const (int64 (pos 7)) expr_type_int64)
      (resolved_column_ref a_column expr_type_int64) expr_type_bool

extract_equality-SoundEquality_example :
    SoundEquality one_column equal_seven a_column (int64 (pos 7))
unfolding extract_equality try_extract_col_val
extract_equality-SoundEquality_example =
    extract_equality-SoundEquality one_column equal_seven a_column (int64 (pos 7))
      (refl, (refl, not_bool), (pos 7, refl), refl) refl

eval-HasType_example :
    (v : Value) × (eval at_least_seven (int64 (pos 9) ∷ []) ≡ some v) × HasType expr_type_bool v
eval-HasType_example =
    eval-HasType one_column at_least_seven (int64 (pos 9) ∷ []) at_least_seven-IsTyped
      (conforms (pos 9))

abbrev int64_def : TypeDefinition
int64_def = record {
  oid = pos 1;
  name = b'I' ∷ b'N' ∷ b'T' ∷ b'6' ∷ b'4' ∷ [];
  byte_length = pos 8;
}

abbrev find_column : Bytes → Option ColumnDefinition
find_column name = if eq_bytes name (b'a' ∷ []) then some a_column else none

abbrev find_type : ℤ → Option TypeDefinition
find_type oid = some int64_def

described :
    (name : Bytes) (c : ColumnDefinition) (td : TypeDefinition)
    → find_column name ≡ some c
    → find_type c.type_oid ≡ some td
    → one_column c.oid ≡ some (c.position, to_expr_type td)
unfolding eq_bytes
described name c td e f = elim (Bool-cases (eq_bytes name (b'a' ∷ []))) [
  | inr other ↦ absurd (clash (rw other at e))
  | inl at ↦
      subst (λ td. one_column c.oid ≡ some (c.position, to_expr_type td)) (type f)
        (subst
          (λ (c : ColumnDefinition). one_column c.oid ≡ some (c.position, to_expr_type int64_def))
          (column (rw at at e)) base)
]
  where
    clash : {c : ColumnDefinition} → none ≡ some c → ⊥
    clash e = cc

    column : {c d : ColumnDefinition} → some c ≡ some d → c ≡ d
    column e = cc

    type : {c d : TypeDefinition} → some c ≡ some d → c ≡ d
    type e = cc

    base : one_column a_column.oid ≡ some (a_column.position, to_expr_type int64_def)
    base = refl

resolve-IsTyped_example : IsTyped one_column at_least_seven
unfolding resolve eq_bytes
resolve-IsTyped_example =
    resolve-IsTyped find_column find_type one_column described
      (binary_expr ge_op (column_ref_expr (b'a' ∷ [])) (literal_int64_expr (pos 7))) at_least_seven
      refl

abbrev one_table : Lookups
one_table = record {
  get_table = λ _. some a_table;
  get_columns = λ _. some (a_column ∷ []);
  get_column = λ _ name. find_column name;
  get_type = find_type;
  get_type_by_name = λ _. none;
  get_index = λ _. none;
}

column_found :
    (name : Bytes) (c : ColumnDefinition) → find_column name ≡ some c → InSchema one_column c
column_found name c e = elim (Bool-cases (eq_bytes name (b'a' ∷ []))) [
  | inr other ↦ absurd (clash (rw other at e))
  | inl at ↦ subst (InSchema one_column) (column (rw at at e)) (expr_type_int64, refl)
]
  where
    clash : {c : ColumnDefinition} → none ≡ some c → ⊥
    clash e = cc

    column : {c d : ColumnDefinition} → some c ≡ some d → c ≡ d
    column e = cc

one_table-Describes : Describes one_table (λ _. one_column)
one_table-Describes = record {
  column_typed = λ table name c td e f. described name c td e f;
  column_in = λ table name c e. column_found name c e;
  columns_in =
      λ table cols e. subst (All (InSchema one_column)) (columns e) ((expr_type_int64, refl), tt);
}
  where
    columns : {c d : List ColumnDefinition} → some c ≡ some d → c ≡ d
    columns e = cc

-- `SELECT a FROM t WHERE a >= 7`
abbrev a_select : SelectStmt
a_select = record {
  table_name = b't' ∷ [];
  select_all = false;
  columns = (b'a' ∷ []) ∷ [];
  condition = some (binary_expr ge_op (column_ref_expr (b'a' ∷ [])) (literal_int64_expr (pos 7)));
}

a_select-analyzed : analyze_select one_table a_select ≡ ok a_query
unfolding analyze_select find_columns resolve eq_bytes
a_select-analyzed = refl

optimize-analyze_select_example :
    (p : PhysicalPlan) × (optimize indexes (plan (select_query a_query)) ≡ some p)
    × (out : List Row) × Returns indexes two_row_store p out
    × Perm out (answer a_query two_rows)
unfolding two_row_store
optimize-analyze_select_example =
    optimize-analyze_select one_table indexes two_row_store one_table-Describes a_select a_query
      a_select-analyzed

-- `INSERT INTO t VALUES (7)`
abbrev an_insert : InsertStmt
an_insert = record { table_name = b't' ∷ []; values = literal_int64_expr (pos 7) ∷ [] }

analyze_insert-ValuesTyped_example :
    ¬ (analyze_insert one_table an_insert ≡ panic)
    × ((q : InsertQueryTree)
        → analyze_insert one_table an_insert ≡ ok q
        → (some (a_column ∷ []) ≡ some q.target_columns)
          × ValuesTyped one_table q.target_columns q.values)
analyze_insert-ValuesTyped_example = analyze_insert-ValuesTyped one_table an_insert
