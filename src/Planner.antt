-- ===== src/Planner.antt =====
-- `internal/core/planner`: the logical plan of a query, and the query trees of `internal/core/sql/semantic` that it is
-- made from.
use gopher_db.Base.{List, Option, none, some}
use gopher_db.Bytes.Copy.{Bytes}
use gopher_db.Catalog.ColumnDefinition.{ColumnDefinition}
use gopher_db.Catalog.IndexDefinition.{IndexType}
use gopher_db.Catalog.TableDefinition.{TableDefinition}
use gopher_db.Catalog.TypeDefinition.{TypeDefinition}
use gopher_db.Semantic.{ResolvedExpr}
use gopher_db.Value.{Value}

pub record CreateTableQueryTree : Type 0 where
  pub table_name : Bytes
  pub columns : List (Bytes × TypeDefinition)

pub record CreateIndexQueryTree : Type 0 where
  pub index_name : Bytes
  pub table : TableDefinition
  pub column : ColumnDefinition
  pub index_type : IndexType

pub record InsertQueryTree : Type 0 where
  pub table : TableDefinition
  pub target_columns : List ColumnDefinition
  pub values : List Value

-- the filter is nil without a `WHERE`
pub record SelectQueryTree : Type 0 where
  pub table : TableDefinition
  pub target_columns : List ColumnDefinition
  pub filter : Option ResolvedExpr

pub data QueryTree : Type 0 where
  create_table_query : CreateTableQueryTree → QueryTree
  create_index_query : CreateIndexQueryTree → QueryTree
  insert_query : InsertQueryTree → QueryTree
  select_query : SelectQueryTree → QueryTree
  explain_query : QueryTree → QueryTree

pub data LogicalPlan : Type 0 where
  create_table_node : CreateTableQueryTree → LogicalPlan
  create_index_node : CreateIndexQueryTree → LogicalPlan
  insert_node : InsertQueryTree → LogicalPlan
  scan_node : TableDefinition → LogicalPlan
  filter_node : LogicalPlan → ResolvedExpr → LogicalPlan
  project_node : LogicalPlan → List ColumnDefinition → LogicalPlan
  explain_node : LogicalPlan → LogicalPlan

abbrev pub filtered : Option ResolvedExpr → LogicalPlan → LogicalPlan
filtered none node = node
filtered (some pred) node = filter_node node pred

-- `planSelect`
abbrev pub plan_select : SelectQueryTree → LogicalPlan
plan_select sel = project_node (filtered sel.filter (scan_node sel.table)) sel.target_columns

unfoldable pub plan : QueryTree → LogicalPlan
plan (create_table_query q) = create_table_node q
plan (create_index_query q) = create_index_node q
plan (insert_query q) = insert_node q
plan (select_query q) = plan_select q
plan (explain_query q) = explain_node (plan q)
