-- ===== src/Ast.antt =====
-- `internal/core/sql/ast`: the statements; the expressions are in Semantic. An identifier is its text.
use gopher_db.Base.{Bool, List, Option}
use gopher_db.Bytes.Copy.{Bytes}
use gopher_db.Catalog.IndexDefinition.{IndexType}
use gopher_db.Semantic.{Expr}

-- `where` is nil without the clause
pub record SelectStmt : Type 0 where
  pub table_name : Bytes
  pub select_all : Bool
  pub columns : List Bytes
  pub condition : Option Expr

pub record InsertStmt : Type 0 where
  pub table_name : Bytes
  pub values : List Expr

pub record CreateIndexStmt : Type 0 where
  pub index_name : Bytes
  pub table_name : Bytes
  pub column_name : Bytes
  pub index_type : IndexType

pub record ColumnDef : Type 0 where
  pub name : Bytes
  pub type_name : Bytes

pub record CreateTableStmt : Type 0 where
  pub table_name : Bytes
  pub columns : List ColumnDef

pub data Statement : Type 0 where
  create_table_stmt : CreateTableStmt → Statement
  select_stmt : SelectStmt → Statement
  insert_stmt : InsertStmt → Statement
  create_index_stmt : CreateIndexStmt → Statement
  explain_stmt : Statement → Statement
