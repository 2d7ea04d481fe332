-- ===== src/Execution/Typed.antt =====
-- Evaluation of well-typed expressions does not panic.
use gopher_db.Base.{◌≡◌, refl, sym, subst, Bool, true, false, not, Option, some}
use gopher_db.Base.Int.{ℤ}
use gopher_db.Execution.{
  ◌>>=◌, eq_value, compare, compare_int64, compare_string, test, eval_binary, eval,
}
use gopher_db.Semantic.Typing.{Row, HasType, Schema, Operands, IsTyped, Conforms}
use gopher_db.Semantic.{
  ExprType, expr_type_int64, expr_type_varchar, expr_type_bool, Op, and_op, or_op, eq_op, ne_op,
  lt_op, le_op, gt_op, ge_op, other_op, ResolvedExpr, resolved_const, resolved_column_ref,
  resolved_binary_expr, expr_type,
}
use gopher_db.Value.{Value, boolean}

-- two values of one type that is not the Booleans' are compared
pub compare_typed :
    (t : ExprType) (v w : Value)
    → ¬ (t ≡ expr_type_bool)
    → HasType t v
    → HasType t w
    → (cmp : ℤ) × (compare v w ≡ some cmp)
unfolding compare
compare_typed expr_type_int64 v w n (a, e) (b, f) = (compare_int64 a b, rw (e, f))
compare_typed expr_type_varchar v w n (a, e) (b, f) = (compare_string a b, rw (e, f))
compare_typed expr_type_bool v w n hv hw = absurd (n refl)

-- what an evaluation comes to: a value of the type
abbrev Evaluates : ExprType → Option Value → Type 0
Evaluates t o = (v : Value) × (o ≡ some v) × HasType t v

bool_value : (o : Option Value) (b : Bool) → o ≡ some (boolean b) → Evaluates expr_type_bool o
bool_value o b e = (boolean b, e, (b, refl))

logical_and :
    (l r : Option Value)
    → Evaluates expr_type_bool l
    → Evaluates expr_type_bool r
    → Evaluates expr_type_bool (eval_binary and_op l r)
logical_and l r (v, e, (true, h)) (w, f, (b, k)) = bool_value _ b (rw (e, h, f, k))
logical_and l r (v, e, (false, h)) (w, f, (b, k)) = bool_value _ false (rw (e, h))

logical_or :
    (l r : Option Value)
    → Evaluates expr_type_bool l
    → Evaluates expr_type_bool r
    → Evaluates expr_type_bool (eval_binary or_op l r)
logical_or l r (v, e, (true, h)) (w, f, (b, k)) = bool_value _ true (rw (e, h))
logical_or l r (v, e, (false, h)) (w, f, (b, k)) = bool_value _ b (rw (e, h, f, k))

equality :
    (op : Op) (s t : ExprType) (l r : Option Value)
    → Evaluates s l
    → Evaluates t r
    → Evaluates expr_type_bool (eval_binary eq_op l r)
      × Evaluates expr_type_bool (eval_binary ne_op l r)
equality op s t l r (v, e, h) (w, f, k) =
    (bool_value _ (eq_value v w) (rw (e, f)), bool_value _ (not (eq_value v w)) (rw (e, f)))

ordered :
    (s : ExprType) (l r : Option Value) (op : Op)
    → ¬ (s ≡ expr_type_bool)
    → Evaluates s l
    → Evaluates s r
    → Evaluates expr_type_bool
        (l >>= λ a. r >>= λ b. compare a b >>= λ cmp. some (boolean (test op cmp)))
ordered s l r op n (v, e, h) (w, f, k) =
    let (cmp, g) = compare_typed s v w n h k in bool_value _ (test op cmp) (rw (e, f, g))

binary :
    (op : Op) (s t : ExprType) (l r : Option Value)
    → Operands op s t
    → Evaluates s l
    → Evaluates t r
    → Evaluates expr_type_bool (eval_binary op l r)
binary and_op s t l r (e, f) hl hr =
    logical_and l r (subst (λ t. Evaluates t l) e hl) (subst (λ t. Evaluates t r) f hr)
binary or_op s t l r (e, f) hl hr =
    logical_or l r (subst (λ t. Evaluates t l) e hl) (subst (λ t. Evaluates t r) f hr)
binary eq_op s t l r o hl hr = (equality eq_op s t l r hl hr).0
binary ne_op s t l r o hl hr = (equality eq_op s t l r hl hr).1
binary lt_op s t l r (e, n) hl hr = ordered s l r lt_op n hl (subst (λ t. Evaluates t r) (sym e) hr)
binary le_op s t l r (e, n) hl hr = ordered s l r le_op n hl (subst (λ t. Evaluates t r) (sym e) hr)
binary gt_op s t l r (e, n) hl hr = ordered s l r gt_op n hl (subst (λ t. Evaluates t r) (sym e) hr)
binary ge_op s t l r (e, n) hl hr = ordered s l r ge_op n hl (subst (λ t. Evaluates t r) (sym e) hr)
binary (other_op o) s t l r h hl hr = absurd h

-- A well-typed expression evaluates, without a panic, to a value of its type on every row that conforms
-- to the schema.
pub eval-HasType :
    (schema : Schema) (e : ResolvedExpr) (row : Row)
    → IsTyped schema e
    → Conforms schema row
    → (v : Value) × (eval e row ≡ some v) × HasType (expr_type e) v
unfolding eval
eval-HasType schema (resolved_const v t) row h c = (v, refl, h)
eval-HasType schema (resolved_column_ref col t) row h c = c col.oid col.position t h
eval-HasType schema (resolved_binary_expr op l r t) row (e, o, hl, hr) c =
    subst (λ t. Evaluates t (eval_binary op (eval l row) (eval r row))) (sym e)
      (binary op (expr_type l) (expr_type r) (eval l row) (eval r row) o
        (eval-HasType schema l row hl c) (eval-HasType schema r row hr c))
