-- ===== src/Analyzer/Select.antt =====
-- An analysed `SELECT` is well typed, so that it is answered.
use mathlib.Core.List.{Perm}
use gopher_db.Base.{◌≡◌, subst, List, [], ◌∷◌, Option, none, some, Bool-cases, inl, inr}
use gopher_db.Base.Outcome.{Outcome, ok, err, panic, ok_parts, ok_injective, err≢ok}
use gopher_db.Base.Select.{All}
use gopher_db.Bytes.Copy.{Bytes}
use gopher_db.Catalog.ColumnDefinition.{ColumnDefinition}
use gopher_db.Catalog.IndexDefinition.{IndexDefinition}
use gopher_db.Catalog.TableDefinition.{TableDefinition}
use gopher_db.Catalog.TypeDefinition.{TypeDefinition}
use gopher_db.Optimizer.Answer.{InSchema, FilterTyped, answer, optimize-plan}
use gopher_db.Optimizer.Plans.{Returns}
use gopher_db.Optimizer.Store.{Store}
use gopher_db.Optimizer.{PhysicalPlan, optimize}
use gopher_db.Planner.{SelectQueryTree, select_query, plan}
use gopher_db.Semantic.Resolve.{resolve-IsTyped, eq_type_sound}
use gopher_db.Semantic.Typing.{Row, Schema, IsTyped}
use gopher_db.Semantic.{
  expr_type_bool, eq_type, Expr, ResolvedExpr, expr_type, SemanticError, to_expr_type, resolve,
}
use gopher_db.Ast.{SelectStmt}
use gopher_db.Analyzer.{
  AnalyzeError, Lookups, require, lift, find_columns, target_columns, checked_filter,
  resolve_filter, analyze_select,
}

-- The catalog agrees with a schema of each table: the columns that it finds are the table's, with their
-- positions and the types of their type definitions.
pub record Describes (C : Lookups) (schema : TableDefinition → Schema) : Type 0 where
  pub column_typed :
      (table : TableDefinition) (name : Bytes) (c : ColumnDefinition) (td : TypeDefinition)
      → C.get_column table name ≡ some c
      → C.get_type c.type_oid ≡ some td
      → schema table c.oid ≡ some (c.position, to_expr_type td)
  pub column_in :
      (table : TableDefinition) (name : Bytes) (c : ColumnDefinition)
      → C.get_column table name ≡ some c
      → InSchema (schema table) c
  pub columns_in :
      (table : TableDefinition) (cols : List ColumnDefinition)
      → C.get_columns table ≡ some cols
      → All (InSchema (schema table)) cols

pub require-ok :
    {A : Type 0} (e : AnalyzeError) (o : Option A) (a : A) → require e o ≡ ok a → o ≡ some a
require-ok e none a h = cc
require-ok e (some x) a h = cc

lift-ok : {A : Type 0} (o : Outcome SemanticError A) (a : A) → lift o ≡ ok a → o ≡ ok a
lift-ok (ok x) a h = cc
lift-ok (err e) a h = cc
lift-ok panic a h = cc

module _ (C : Lookups) (schema : TableDefinition → Schema) (D : Describes C schema) where
  find_columns-InSchema :
      (table : TableDefinition) (names : List Bytes) (cols : List ColumnDefinition)
      → find_columns C table names ≡ ok cols
      → All (InSchema (schema table)) cols
  unfolding find_columns
  find_columns-InSchema table [] cols h = subst (All (InSchema (schema table))) (ok_injective h) tt
  find_columns-InSchema table (name ∷ names) cols h =
      let (col, rest, found) = ok_parts _ (require _ (C.get_column table name)) h in
      let (cols', done, found') = ok_parts _ (find_columns C table names) rest in
      subst (All (InSchema (schema table))) (ok_injective done) (
        D.column_in table name col (require-ok _ _ col found),
        find_columns-InSchema table names cols' found',
      )

  target_columns-InSchema :
      (s : SelectStmt) (table : TableDefinition) (cols : List ColumnDefinition)
      → target_columns C s table ≡ ok cols
      → All (InSchema (schema table)) cols
  target_columns-InSchema s table cols h = elim (Bool-cases s.select_all) [
    | inl e ↦ D.columns_in table cols (require-ok _ _ cols (rw e at h))
    | inr e ↦ find_columns-InSchema table s.columns cols (rw e at h)
  ]

  checked_filter-FilterTyped :
      (table : TableDefinition) (e : ResolvedExpr) (f : Option ResolvedExpr)
      → IsTyped (schema table) e
      → checked_filter C e ≡ ok f
      → FilterTyped (schema table) f
  checked_filter-FilterTyped table e f typed h =
      elim (Bool-cases (eq_type (expr_type e) expr_type_bool)) [
        | inl b ↦
            subst (FilterTyped (schema table)) (ok_injective (rw b at h))
              (typed, eq_type_sound _ _ b)
        | inr b ↦ absurd (err≢ok (rw b at h))
      ]

  resolve_filter-FilterTyped :
      (table : TableDefinition) (w : Option Expr) (f : Option ResolvedExpr)
      → resolve_filter C table w ≡ ok f
      → FilterTyped (schema table) f
  resolve_filter-FilterTyped table none f h = subst (FilterTyped (schema table)) (ok_injective h) tt
  resolve_filter-FilterTyped table (some e) f h =
      let (x, checked, resolved) =
        ok_parts (checked_filter C) (lift (resolve (C.get_column table) C.get_type e)) h in
      checked_filter-FilterTyped table x f
        (resolve-IsTyped (C.get_column table) C.get_type (schema table) (D.column_typed table) e x
          (lift-ok _ x resolved))
        checked

  -- A `SELECT` that the analyzer accepts has a filter that is well typed and Boolean, or none, and target columns
  -- of its table, over every catalog that agrees with the schema.
  pub analyze_select-FilterTyped :
      (s : SelectStmt) (q : SelectQueryTree)
      → analyze_select C s ≡ ok q
      → FilterTyped (schema q.table) q.filter × All (InSchema (schema q.table)) q.target_columns
  unfolding analyze_select
  analyze_select-FilterTyped s q h =
      let (table, h₁, _) = ok_parts _ (require _ (C.get_table s.table_name)) h in
      let (cols, h₂, columns) = ok_parts _ (target_columns C s table) h₁ in
      let (f, h₃, filter) = ok_parts _ (resolve_filter C table s.condition) h₂ in
      subst
        (λ (q : SelectQueryTree).
          FilterTyped (schema q.table) q.filter × All (InSchema (schema q.table)) q.target_columns)
        (ok_injective h₃)
        (
          resolve_filter-FilterTyped table s.condition f filter,
          target_columns-InSchema s table cols columns,
        )

module _ (C : Lookups) (list_indexes : TableDefinition → List IndexDefinition)
    (S : Store list_indexes) (D : Describes C S.schema) where
  -- Every `SELECT` that the analyzer accepts is answered: planning, optimizing and executing it does not panic,
  -- and gives, in some order, exactly the rows of the table that satisfy the filter, projected to the target
  -- columns; over every store with its index contract and every catalog that agrees with its schema.
  pub optimize-analyze_select :
      (s : SelectStmt) (q : SelectQueryTree)
      → analyze_select C s ≡ ok q
      → (p : PhysicalPlan) × (optimize list_indexes (plan (select_query q)) ≡ some p)
        × (out : List Row) × Returns list_indexes S p out
        × Perm out (answer q (S.rows q.table))
  optimize-analyze_select s q h =
      let (filter, columns) = analyze_select-FilterTyped C S.schema D s q h in
      optimize-plan list_indexes S q filter columns
