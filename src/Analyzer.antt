-- ===== src/Analyzer.antt =====
-- `internal/core/sql/semantic/analyzer.go`: the statements.
pub mod Select
pub mod Insert
pub mod CreateTable
use gopher_db.Ast.{
  SelectStmt, InsertStmt, CreateIndexStmt, CreateTableStmt, ColumnDef, Statement, select_stmt,
  insert_stmt, create_index_stmt, create_table_stmt, explain_stmt,
}
use gopher_db.Base.{
  ◌≡◌, Bool, true, false, not, ◌||◌, List, [], ◌∷◌, Option, none, some, length, ◌==◌, if◌then◌else◌,
}
use gopher_db.Base.Int.{ℤ}
use gopher_db.Base.Outcome.{Outcome, ok, err, panic, ◌>>=◌}
use gopher_db.Base.Text.{codes, upper}
use gopher_db.Bytes.Compare.{eq_bytes}
use gopher_db.Bytes.Copy.{Bytes}
use gopher_db.Catalog.ColumnDefinition.{ColumnDefinition}
use gopher_db.Catalog.IndexDefinition.{IndexDefinition, IndexType}
use gopher_db.Catalog.TableDefinition.{TableDefinition}
use gopher_db.Catalog.TypeDefinition.{TypeDefinition}
use gopher_db.Planner.{
  QueryTree, select_query, insert_query, create_index_query, create_table_query, explain_query,
  CreateTableQueryTree, SelectQueryTree, InsertQueryTree, CreateIndexQueryTree,
}
use gopher_db.Semantic.{
  ExprType, expr_type_int64, expr_type_varchar, expr_type_bool, eq_type, Expr, literal_int64_expr,
  literal_string_expr, ResolvedExpr, expr_type, SemanticError, to_expr_type, resolve,
}
use gopher_db.Value.{Value, int64, string}

-- the messages of the statements, and those of the expressions
pub data AnalyzeError : Type 0 where
  table_not_found column_of_table_not_found index_already_exists table_already_exists
        duplicate_column unknown_type :
      Bytes → AnalyzeError
  columns_failed where_not_bool count_mismatch value_type_mismatch only_literals : AnalyzeError
  type_oid_unknown : ℤ → AnalyzeError
  in_expression : SemanticError → AnalyzeError

-- What the analyzer asks the catalog manager; `none` is an error or a nil result.
pub record Lookups : Type 0 where
  pub get_table : Bytes → Option TableDefinition
  pub get_columns : TableDefinition → Option (List ColumnDefinition)
  pub get_column : TableDefinition → Bytes → Option ColumnDefinition
  pub get_type : ℤ → Option TypeDefinition
  pub get_type_by_name : Bytes → Option TypeDefinition
  pub get_index : Bytes → Option IndexDefinition

abbrev pub require : {A : Type 0} → AnalyzeError → Option A → Outcome AnalyzeError A
require e none = err e
require e (some a) = ok a

abbrev pub lift : {A : Type 0} → Outcome SemanticError A → Outcome AnalyzeError A
lift (ok a) = ok a
lift (err e) = err (in_expression e)
lift panic = panic

-- `resolveLiteral`
abbrev pub resolve_literal : Expr → Outcome AnalyzeError (Value × ExprType)
resolve_literal (literal_int64_expr n) = ok (int64 n, expr_type_int64)
resolve_literal (literal_string_expr s) = ok (string s, expr_type_varchar)
resolve_literal _ = err only_literals

-- `normalizeTypeName`, through the map `typeNames`; a type name of the syntax is ASCII
abbrev pub normalized : Bytes → Bytes
normalized name =
    if eq_bytes name (codes "INT") || eq_bytes name (codes "INTEGER") then codes "INT64" else name

abbrev pub normalize_type_name : Bytes → Bytes
normalize_type_name name = normalized (upper name)

-- the map `seen`, by the names in it
unfoldable pub seen_name : Bytes → List Bytes → Bool
seen_name name [] = false
seen_name name (s ∷ seen) = eq_bytes s name || seen_name name seen

module _ (C : Lookups) where
  -- the loop of `analyzeCreateTable`
  unfoldable pub create_columns :
      List Bytes → List ColumnDef → Outcome AnalyzeError (List (Bytes × TypeDefinition))
  create_columns seen [] = ok []
  create_columns seen (cd ∷ cds) =
      if seen_name cd.name seen
      then err (duplicate_column cd.name)
      else require (unknown_type cd.type_name)
          (C.get_type_by_name (normalize_type_name cd.type_name))
        >>= λ type_def.
            create_columns (cd.name ∷ seen) cds >>= λ cols. ok ((cd.name, type_def) ∷ cols)

  abbrev pub table_absent : Bytes → Option TableDefinition → Outcome AnalyzeError (Unit {0})
  table_absent name none = ok tt
  table_absent name (some _) = err (table_already_exists name)

  unfoldable pub analyze_create_table : CreateTableStmt → Outcome AnalyzeError CreateTableQueryTree
  analyze_create_table s = table_absent s.table_name (C.get_table s.table_name) >>= λ _.
      create_columns [] s.columns >>= λ cols.
      ok (record { table_name = s.table_name; columns = cols })

  -- the loop over the named columns of a `SELECT`
  unfoldable pub find_columns :
      TableDefinition → List Bytes → Outcome AnalyzeError (List ColumnDefinition)
  find_columns table [] = ok []
  find_columns table (name ∷ names) =
      require (column_of_table_not_found name) (C.get_column table name) >>= λ col.
      find_columns table names >>= λ cols. ok (col ∷ cols)

  abbrev pub target_columns :
      SelectStmt → TableDefinition → Outcome AnalyzeError (List ColumnDefinition)
  target_columns s table =
      if s.select_all
      then require columns_failed (C.get_columns table)
      else find_columns table s.columns

  abbrev pub checked_filter : ResolvedExpr → Outcome AnalyzeError (Option ResolvedExpr)
  checked_filter e =
      if not (eq_type (expr_type e) expr_type_bool) then err where_not_bool else ok (some e)

  abbrev pub resolve_filter :
      TableDefinition → Option Expr → Outcome AnalyzeError (Option ResolvedExpr)
  resolve_filter table none = ok none
  resolve_filter table (some e) =
      lift (resolve (C.get_column table) C.get_type e) >>= checked_filter

  unfoldable pub analyze_select : SelectStmt → Outcome AnalyzeError SelectQueryTree
  analyze_select s = require (table_not_found s.table_name) (C.get_table s.table_name) >>= λ table.
      target_columns s table >>= λ cols. resolve_filter table s.condition >>= λ filter.
      ok (record { table = table; target_columns = cols; filter = filter })

  -- one round of the loop of `analyzeInsert`
  abbrev pub insert_value : ColumnDefinition → Expr → Outcome AnalyzeError Value
  insert_value col e =
      require (type_oid_unknown col.type_oid) (C.get_type col.type_oid) >>= λ type_def.
      resolve_literal e >>= λ literal.
      if eq_type literal.1 (to_expr_type type_def) then ok literal.0 else err value_type_mismatch

  -- The loop, over columns and values of one number; with fewer values `s.Values()[i]` would panic.
  unfoldable pub insert_values :
      List ColumnDefinition → List Expr → Outcome AnalyzeError (List Value)
  insert_values [] es = ok []
  insert_values (col ∷ cols) [] = panic
  insert_values (col ∷ cols) (e ∷ es) =
      insert_value col e >>= λ v. insert_values cols es >>= λ vs. ok (v ∷ vs)

  unfoldable pub analyze_insert : InsertStmt → Outcome AnalyzeError InsertQueryTree
  analyze_insert s = require (table_not_found s.table_name) (C.get_table s.table_name) >>= λ table.
      require columns_failed (C.get_columns table) >>= λ cols.
      if not (length s.values == length cols)
      then err count_mismatch
      else insert_values cols s.values >>= λ values.
          ok (record { table = table; target_columns = cols; values = values })

  abbrev pub index_absent : Bytes → Option IndexDefinition → Outcome AnalyzeError (Unit {0})
  index_absent name none = ok tt
  index_absent name (some _) = err (index_already_exists name)

  unfoldable pub analyze_create_index : CreateIndexStmt → Outcome AnalyzeError CreateIndexQueryTree
  analyze_create_index s = index_absent s.index_name (C.get_index s.index_name) >>= λ _.
      require (table_not_found s.table_name) (C.get_table s.table_name) >>= λ table.
      require (column_of_table_not_found s.column_name) (C.get_column table s.column_name)
      >>= λ col. ok (record {
        index_name = s.index_name;
        table = table;
        column = col;
        index_type = s.index_type;
      })

  unfoldable pub analyze : Statement → Outcome AnalyzeError QueryTree
  analyze (select_stmt s) = analyze_select s >>= λ q. ok (select_query q)
  analyze (insert_stmt s) = analyze_insert s >>= λ q. ok (insert_query q)
  analyze (create_index_stmt s) = analyze_create_index s >>= λ q. ok (create_index_query q)
  analyze (create_table_stmt s) = analyze_create_table s >>= λ q. ok (create_table_query q)
  analyze (explain_stmt s) = analyze s >>= λ q. ok (explain_query q)
