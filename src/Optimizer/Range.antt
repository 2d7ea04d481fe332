-- ===== src/Optimizer/Range.antt =====
-- What an index range promises, and the range of a single comparison.
use gopher_db.Base.{◌≡◌, refl, Bool, true, false, not, ◌&&◌, ◌⊎◌, Option, none, some, if◌then◌else◌}
use gopher_db.Base.Int.{ℤ, pos, lt_ℤ}
use gopher_db.Execution.{compare}
use gopher_db.Optimizer.{RangeInfo, is_nil}
use gopher_db.Semantic.Typing.{HasType, Schema}
use gopher_db.Semantic.{ExprType, expr_type_int64, expr_type_varchar, expr_type_bool}
use gopher_db.Value.{Value, nil}

-- a comparison with a bound, given its result: greater, or equal where that is allowed
abbrev pub past : Bool → Option ℤ → Bool
past inclusive none = false
past inclusive (some cmp) = if inclusive then not (lt_ℤ cmp (pos 0)) else lt_ℤ (pos 0) cmp

abbrev pub below : Bool → Option ℤ → Bool
below inclusive none = false
below inclusive (some cmp) = if inclusive then not (lt_ℤ (pos 0) cmp) else lt_ℤ cmp (pos 0)

unfoldable pub in_lower : Value → Bool → Value → Bool
in_lower a inclusive v = if is_nil a then true else past inclusive (compare v a)

unfoldable pub in_upper : Value → Bool → Value → Bool
in_upper a inclusive v = if is_nil a then true else below inclusive (compare v a)

-- The keys that a range scan is asked for.
abbrev pub in_range : RangeInfo → Value → Bool
in_range r v = in_lower r.lower r.lower_inclusive v && in_upper r.upper r.upper_inclusive v

-- a bound is nil or of the type
abbrev pub Bound : ExprType → Value → Type 0
Bound t a = (a ≡ nil) ⊎ HasType t a

-- The range is of a column of the schema, and its bounds are of the column's type.
pub record TypedRange (schema : Schema) (r : RangeInfo) : Type 0 where
  pub type_is : ExprType
  pub column_is : schema r.column.oid ≡ some (r.column.position, type_is)
  pub not_bool : ¬ (type_is ≡ expr_type_bool)
  pub lower_typed : Bound type_is r.lower
  pub upper_typed : Bound type_is r.upper

pub not_nil : (t : ExprType) (a : Value) → HasType t a → is_nil a ≡ false
not_nil expr_type_int64 a (n, e) = rw e
not_nil expr_type_varchar a (n, e) = rw e
not_nil expr_type_bool a (n, e) = rw e

pub in_lower_nil : (i : Bool) (v : Value) → in_lower nil i v ≡ true
unfolding in_lower
in_lower_nil i v = refl

pub in_upper_nil : (i : Bool) (v : Value) → in_upper nil i v ≡ true
unfolding in_upper
in_upper_nil i v = refl
