-- ===== src/Semantic.antt =====
-- Expressions: `internal/core/sql/ast` (the expressions), `internal/core/sql/semantic`'s resolved expressions, and
-- the resolution of one into the other in `analyzer.go`.
pub mod Typing
pub mod Resolve
use gopher_db.Base.{◌≡◌, Bool, true, false, [], ◌∷◌, Option, none, some, if◌then◌else◌}
use gopher_db.Base.Int.{ℤ}
use gopher_db.Base.Outcome.{Outcome, ok, err, ◌>>=◌}
use gopher_db.Bytes.Compare.{eq_bytes}
use gopher_db.Bytes.Copy.{Bytes}
use gopher_db.Catalog.ColumnDefinition.{ColumnDefinition}
use gopher_db.Catalog.TypeDefinition.{TypeDefinition}
use gopher_db.Value.{Value, int64, string}

pub data ExprType : Type 0 where
  expr_type_int64 expr_type_varchar expr_type_bool : ExprType

abbrev pub eq_type : ExprType → ExprType → Bool
eq_type expr_type_int64 expr_type_int64 = true
eq_type expr_type_varchar expr_type_varchar = true
eq_type expr_type_bool expr_type_bool = true
eq_type _ _ = false

-- The operator strings that the analyzer, the executor and the optimizer look for, and any other.
pub data Op : Type 0 where
  and_op or_op eq_op ne_op lt_op le_op gt_op ge_op : Op
  other_op : Bytes → Op

-- `ast.Expr`; an identifier is its text.
pub data Expr : Type 0 where
  column_ref_expr : Bytes → Expr
  literal_int64_expr : ℤ → Expr
  literal_string_expr : Bytes → Expr
  binary_expr : Op → Expr → Expr → Expr

-- `ResolvedConst`, `ResolvedColumnRef` and `ResolvedBinaryExpr`
pub data ResolvedExpr : Type 0 where
  resolved_const : Value → ExprType → ResolvedExpr
  resolved_column_ref : ColumnDefinition → ExprType → ResolvedExpr
  resolved_binary_expr : Op → ResolvedExpr → ResolvedExpr → ExprType → ResolvedExpr

abbrev pub expr_type : ResolvedExpr → ExprType
expr_type (resolved_const v t) = t
expr_type (resolved_column_ref c t) = t
expr_type (resolved_binary_expr op l r t) = t

-- `logicalOps` and `comparisonOps`
abbrev pub is_logical : Op → Bool
is_logical and_op = true
is_logical or_op = true
is_logical _ = false

abbrev pub is_comparison : Op → Bool
is_comparison eq_op = true
is_comparison ne_op = true
is_comparison lt_op = true
is_comparison le_op = true
is_comparison gt_op = true
is_comparison ge_op = true
is_comparison _ = false

-- `SemanticError`, one constructor for each message that resolution can give
pub data SemanticError : Type 0 where
  column_not_found : Bytes → SemanticError
  unknown_type_oid : ℤ → SemanticError
  left_not_bool right_not_bool type_mismatch cannot_compare_bool : SemanticError
  unsupported_operator : Op → SemanticError

abbrev int64_name : Bytes
int64_name = b'I' ∷ b'N' ∷ b'T' ∷ b'6' ∷ b'4' ∷ []

abbrev varchar_name : Bytes
varchar_name = b'V' ∷ b'A' ∷ b'R' ∷ b'C' ∷ b'H' ∷ b'A' ∷ b'R' ∷ []

-- `toExprType`, through the map `exprTypes`
abbrev pub to_expr_type : TypeDefinition → ExprType
to_expr_type type_def =
    if eq_bytes type_def.name int64_name
    then expr_type_int64
    else if eq_bytes type_def.name varchar_name
    then expr_type_varchar
    else expr_type_int64

-- the end of `resolveBinary`, on the resolved operands
abbrev pub combine : Op → ResolvedExpr → ResolvedExpr → Outcome SemanticError ResolvedExpr
combine op left right =
    if is_logical op
    then (if eq_type (expr_type left) expr_type_bool
        then (if eq_type (expr_type right) expr_type_bool
            then ok (resolved_binary_expr op left right expr_type_bool)
            else err right_not_bool)
        else err left_not_bool)
    else if is_comparison op
    then (if eq_type (expr_type left) (expr_type right)
        then (if eq_type (expr_type left) expr_type_bool
            then err cannot_compare_bool
            else ok (resolved_binary_expr op left right expr_type_bool))
        else err type_mismatch)
    else err (unsupported_operator op)

-- what the analyzer asks the catalog: `GetColumn` on the statement's table, and `GetTypeByOid`, where `none`
-- is an error or a nil result
module _ (get_column : Bytes → Option ColumnDefinition) (get_type : ℤ → Option TypeDefinition) where
  abbrev pub typed_column :
      ColumnDefinition → Option TypeDefinition → Outcome SemanticError ResolvedExpr
  typed_column col none = err (unknown_type_oid col.type_oid)
  typed_column col (some type_def) = ok (resolved_column_ref col (to_expr_type type_def))

  abbrev pub found_column : Bytes → Option ColumnDefinition → Outcome SemanticError ResolvedExpr
  found_column name none = err (column_not_found name)
  found_column name (some col) = typed_column col (get_type col.type_oid)

  -- `resolveExpr`
  unfoldable pub resolve : Expr → Outcome SemanticError ResolvedExpr
  resolve (column_ref_expr name) = found_column name (get_column name)
  resolve (literal_int64_expr n) = ok (resolved_const (int64 n) expr_type_int64)
  resolve (literal_string_expr s) = ok (resolved_const (string s) expr_type_varchar)
  resolve (binary_expr op l r) = resolve l >>= λ left. resolve r >>= λ right. combine op left right
