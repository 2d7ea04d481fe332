-- ===== src/Semantic/Typing.antt =====
-- Well-typed expressions, and rows that fit the types.
use gopher_db.Base.{ℕ, ◌≡◌, Bool, List, Option, none, some, get_elem?}
use gopher_db.Base.Int.{ℤ, pos, negsuc}
use gopher_db.Semantic.{
  ExprType, expr_type_int64, expr_type_varchar, expr_type_bool, Op, and_op, or_op, other_op,
  ResolvedExpr, resolved_const, resolved_column_ref, resolved_binary_expr, expr_type,
}
use gopher_db.Value.{Value, int64, string, boolean}

abbrev pub Row : Type 0
Row = List Value

-- `row[position]`, where `none` is the run-time panic of an index out of range
abbrev pub get_at : Row → ℤ → Option Value
get_at row (pos n) = get_elem? row n
get_at row (negsuc n) = none

-- the value has the Go type that stands for the expression type
abbrev pub HasType : ExprType → Value → Type 0
HasType expr_type_int64 v = (n : ℤ) × (v ≡ int64 n)
HasType expr_type_varchar v = (s : List ℕ) × (v ≡ string s)
HasType expr_type_bool v = (b : Bool) × (v ≡ boolean b)

-- A schema gives each column, by its oid, its position in a row and its type.
abbrev pub Schema : Type 0
Schema = ℤ → Option (ℤ × ExprType)

-- Operands that the operator takes.
abbrev pub Operands : Op → ExprType → ExprType → Type 0
Operands and_op s t = (s ≡ expr_type_bool) × (t ≡ expr_type_bool)
Operands or_op s t = (s ≡ expr_type_bool) × (t ≡ expr_type_bool)
Operands (other_op _) s t = ⊥
Operands _ s t = (s ≡ t) × ¬ (s ≡ expr_type_bool)

abbrev pub IsTyped : Schema → ResolvedExpr → Type 0
IsTyped schema (resolved_const v t) = HasType t v
IsTyped schema (resolved_column_ref c t) = schema c.oid ≡ some (c.position, t)
IsTyped schema (resolved_binary_expr op l r t) =
    (t ≡ expr_type_bool)
    × Operands op (expr_type l) (expr_type r)
    × IsTyped schema l
    × IsTyped schema r

-- The row has a value of the right type for each column of the schema.
abbrev pub Conforms : Schema → Row → Type 0
Conforms schema row =
    (oid position : ℤ) (t : ExprType)
    → schema oid ≡ some (position, t)
    → (v : Value) × (get_at row position ≡ some v) × HasType t v
