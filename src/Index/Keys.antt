-- ===== src/Index/Keys.antt =====
-- The keys of an index: `compareKeys`, `lowerBound` and `upperBound` of `internal/core/index/disk_btree_index.go`. `none` is
-- a run-time panic, of a type assertion or of an index out of range.
use gopher_db.Base.Int.{ℤ, pos, lt_ℤ}
use gopher_db.Base.Text.{codes}
use gopher_db.Base.{
  ℕ, zero, suc, ◌+◌, ◌/◌, Bool, not, List, Option, none, some, length, get_elem?, ltb,
  if◌then◌else◌,
}
use gopher_db.Bytes.Compare.{eq_bytes}
use gopher_db.Bytes.Copy.{Bytes}
use gopher_db.Catalog.TypeDefinition.{TypeDefinition}
use gopher_db.Execution.{compare_int64, compare_string, ◌>>=◌}
use gopher_db.Value.{Value, int64, string}

-- what the switches on `keyType.Name()` tell apart
pub data KeyKind : Type 0 where
  int64_key varchar_key other_key : KeyKind

abbrev pub kind_of_name : Bytes → KeyKind
kind_of_name name =
    if eq_bytes name (codes "INT64")
    then int64_key
    else if eq_bytes name (codes "VARCHAR")
    then varchar_key
    else other_key

abbrev pub key_kind : TypeDefinition → KeyKind
key_kind type_def = kind_of_name type_def.name

unfoldable pub compare_keys : KeyKind → Value → Value → Option ℤ
compare_keys int64_key (int64 a) (int64 b) = some (compare_int64 a b)
compare_keys int64_key _ _ = none
compare_keys varchar_key (string a) (string b) = some (compare_string a b)
compare_keys varchar_key _ _ = none
compare_keys other_key a b = some (pos 0)

-- The loop of `lowerBound` and `upperBound`: `moves_right` is the test of the sign, `< 0` or `<= 0`.
unfoldable pub bound_loop : ℕ → (ℤ → Bool) → KeyKind → List Value → Value → ℕ → ℕ → Option ℕ
bound_loop zero moves_right kind keys key lo hi = none
bound_loop (suc fuel) moves_right kind keys key lo hi =
    let mid = (lo + hi) / 2 in
    let next = get_elem? keys mid >>= λ k. compare_keys kind k key >>= λ sign.
    bound_loop fuel moves_right kind keys key (if moves_right sign then mid + 1 else lo)
      (if moves_right sign then hi else mid) in
    if ltb lo hi then next else some lo

abbrev pub is_negative : ℤ → Bool
is_negative sign = lt_ℤ sign (pos 0)

abbrev pub is_not_positive : ℤ → Bool
is_not_positive sign = not (lt_ℤ (pos 0) sign)

-- Each round at least halves the interval, so its length and one more rounds are enough.
unfoldable pub lower_bound : KeyKind → List Value → Value → Option ℕ
lower_bound kind keys key = bound_loop (suc (length keys)) is_negative kind keys key 0 (length keys)

unfoldable pub upper_bound : KeyKind → List Value → Value → Option ℕ
upper_bound kind keys key =
    bound_loop (suc (length keys)) is_not_positive kind keys key 0 (length keys)
