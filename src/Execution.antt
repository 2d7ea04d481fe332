-- ===== src/Execution.antt =====
-- `internal/core/execution/executors`: the evaluation of a predicate in `filter_executor.go`, and the rows that the
-- filter and the projection (`project_executor.go`) return. `none` is a run-time panic.
pub mod Typed
use gopher_db.Base.{
  ◌≡◌, Bool, true, false, not, ◌&&◌, List, [], ◌∷◌, Option, none, some, if◌then◌else◌, map,
}
use gopher_db.Base.Int.{ℤ, pos, negsuc, lt_ℤ, eq_ℤ}
use gopher_db.Bytes.Compare.{eq_bytes, lt_bytes}
use gopher_db.Bytes.Copy.{Bytes}
use gopher_db.Catalog.ColumnDefinition.{ColumnDefinition}
use gopher_db.Semantic.Typing.{Row, get_at}
use gopher_db.Semantic.{
  Op, and_op, or_op, eq_op, ne_op, lt_op, le_op, gt_op, ge_op, other_op, ResolvedExpr,
  resolved_const, resolved_column_ref, resolved_binary_expr,
}
use gopher_db.Value.{Value, nil, int64, string, boolean}

infixl 5 ◌>>=◌
abbrev pub ◌>>=◌ : {A B : Type 0} → Option A → (A → Option B) → Option B
none >>= f = none
some a >>= f = f a

-- Go's `==` on two `any` values
abbrev pub eq_value : Value → Value → Bool
eq_value nil nil = true
eq_value (int64 a) (int64 b) = eq_ℤ a b
eq_value (string a) (string b) = eq_bytes a b
eq_value (boolean a) (boolean b) = if a then b else not b
eq_value _ _ = false

abbrev pub compare_int64 : ℤ → ℤ → ℤ
compare_int64 a b = if lt_ℤ a b then negsuc 0 else if lt_ℤ b a then pos 1 else pos 0

abbrev pub compare_string : Bytes → Bytes → ℤ
compare_string a b = if lt_bytes a b then negsuc 0 else if lt_bytes b a then pos 1 else pos 0

-- `compare`: a type assertion on the second value fails with a panic.
unfoldable pub compare : Value → Value → Option ℤ
compare (int64 a) (int64 b) = some (compare_int64 a b)
compare (int64 a) _ = none
compare (string a) (string b) = some (compare_string a b)
compare (string a) _ = none
compare _ _ = some (pos 0)

-- the type assertion in `evalBool`
abbrev pub is_true : Value → Bool
is_true (boolean b) = b
is_true _ = false

-- what a comparison operator makes of the result of `compare`
abbrev pub test : Op → ℤ → Bool
test lt_op cmp = lt_ℤ cmp (pos 0)
test le_op cmp = not (lt_ℤ (pos 0) cmp)
test gt_op cmp = lt_ℤ (pos 0) cmp
test ge_op cmp = not (lt_ℤ cmp (pos 0))
test _ cmp = false

-- `evalBinary` on the results of the operands; `AND` and `OR` look at the second only if they have to.
abbrev pub eval_binary : Op → Option Value → Option Value → Option Value
eval_binary and_op left right = left >>= λ a.
    if is_true a then (right >>= λ b. some (boolean (is_true b))) else some (boolean false)
eval_binary or_op left right = left >>= λ a.
    if is_true a then some (boolean true) else (right >>= λ b. some (boolean (is_true b)))
eval_binary eq_op left right = left >>= λ a. right >>= λ b. some (boolean (eq_value a b))
eval_binary ne_op left right = left >>= λ a. right >>= λ b. some (boolean (not (eq_value a b)))
eval_binary op left right =
    left >>= λ a. right >>= λ b. compare a b >>= λ cmp. some (boolean (test op cmp))

unfoldable pub eval : ResolvedExpr → Row → Option Value
eval (resolved_const v t) row = some v
eval (resolved_column_ref c t) row = get_at row c.position
eval (resolved_binary_expr op l r t) row = eval_binary op (eval l row) (eval r row)

unfoldable pub eval_bool : ResolvedExpr → Row → Option Bool
eval_bool e row = eval e row >>= λ v. some (is_true v)

-- The rows that `FilterExecutor.Next` returns one after the other, from those that its child returns.
unfoldable pub filter_rows : ResolvedExpr → List Row → Option (List Row)
filter_rows pred [] = some []
filter_rows pred (row ∷ rows) = eval_bool pred row >>= λ keep.
    filter_rows pred rows >>= λ kept. some (if keep then row ∷ kept else kept)

-- `ProjectExecutor.Next` on a row: the values at the positions of the columns
unfoldable pub project_row : List ColumnDefinition → Row → Option Row
project_row [] row = some []
project_row (c ∷ columns) row =
    get_at row c.position >>= λ v. project_row columns row >>= λ out. some (v ∷ out)

unfoldable pub project_rows : List ColumnDefinition → List Row → Option (List Row)
project_rows columns [] = some []
project_rows columns (row ∷ rows) =
    project_row columns row >>= λ out. project_rows columns rows >>= λ outs. some (out ∷ outs)
