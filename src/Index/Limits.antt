-- ===== src/Index/Limits.antt =====
-- What a range of keys is, by the order of numbers and of strings, and that the tests in the loop of `RangeSearch`
-- in `internal/core/index/disk_btree_index.go` leave out the keys outside of it.
use gopher_db.Base.Int.{lt_ℤ}
use gopher_db.Base.{
  and_false, ◌≡◌, refl, sym, ap, ◌∙◌, ◌⊎◌, inl, inr, Bool, true, false, ◌&&◌, not, Option, some,
  if◌then◌else◌,
}
use gopher_db.Bytes.Compare.{lt_bytes}
use gopher_db.Index.Keys.{KeyKind, int64_key, varchar_key, other_key, compare_keys}
use gopher_db.Index.Order.{IsKey, lt_ℤ-IsOrder, lt_bytes-IsOrder, asymmetric, sign_of}
use gopher_db.Index.Search.{Limits, is_bound, on_bound, is_before, is_behind}
use gopher_db.Value.{Value, nil, int64, string}

-- no bound, or one of the index's type
abbrev pub IsLimit : KeyKind → Value → Type 0
IsLimit kind b = (b ≡ nil) ⊎ IsKey kind b

-- numbers by their order, strings by the order of their bytes
abbrev pub key_lt : Value → Value → Bool
key_lt (int64 a) (int64 b) = lt_ℤ a b
key_lt (string a) (string b) = lt_bytes a b
key_lt _ _ = false

-- `bound ≤ k`, or `bound < k` where the bound is excluded; nil is no bound
abbrev pub from_allows : Value → Bool → Value → Bool
from_allows nil inclusive k = true
from_allows bound inclusive k = if inclusive then not (key_lt k bound) else key_lt bound k

-- `k ≤ bound`, or `k < bound` where the bound is excluded
abbrev pub to_allows : Value → Bool → Value → Bool
to_allows nil inclusive k = true
to_allows bound inclusive k = if inclusive then not (key_lt bound k) else key_lt k bound

-- the key is in the range
unfoldable pub in_limits : Limits → Value → Bool
in_limits limits k =
    from_allows limits.from limits.from_inclusive k && to_allows limits.to limits.to_inclusive k

pub IsKey-is_bound : (kind : KeyKind) (b : Value) → IsKey kind b → is_bound b ≡ true
IsKey-is_bound int64_key b (n, e) = rw e refl
IsKey-is_bound varchar_key b (s, e) = rw e refl
IsKey-is_bound other_key b h = absurd h

-- the tests of a sign, on the sign of two tests of which at most one holds
is_before-sign_of :
    (inclusive lt gt : Bool)
    → (lt ≡ true → gt ≡ false)
    → is_before inclusive (sign_of lt gt) ≡ not (if inclusive then not lt else gt)
is_before-sign_of true true gt h = refl
is_before-sign_of true false true h = refl
is_before-sign_of true false false h = refl
is_before-sign_of false true gt h = rw (h refl) refl
is_before-sign_of false false true h = refl
is_before-sign_of false false false h = refl

is_behind-sign_of :
    (inclusive lt gt : Bool)
    → (lt ≡ true → gt ≡ false)
    → is_behind inclusive (sign_of lt gt) ≡ not (if inclusive then not gt else lt)
is_behind-sign_of true true gt h = rw (h refl) refl
is_behind-sign_of true false true h = refl
is_behind-sign_of true false false h = refl
is_behind-sign_of false true gt h = refl
is_behind-sign_of false false true h = refl
is_behind-sign_of false false false h = refl

-- a key is skipped just if the lower bound excludes it
pub on_bound-is_before :
    (kind : KeyKind) (k b : Value) (inclusive : Bool)
    → IsKey kind k
    → IsLimit kind b
    → on_bound kind k b (is_before inclusive) ≡ some (not (from_allows b inclusive k))
unfolding compare_keys
on_bound-is_before kind k b inclusive hk (inl e) = rw e refl
on_bound-is_before int64_key k b inclusive hk (inr hb) =
    let (m, e) = hk in
    let (n, f) = hb in
    rw (e, f)
      ((ap some
        (is_before-sign_of inclusive (lt_ℤ m n) (lt_ℤ n m) (asymmetric lt_ℤ lt_ℤ-IsOrder m n))))
on_bound-is_before varchar_key k b inclusive hk (inr hb) =
    let (m, e) = hk in
    let (n, f) = hb in
    rw (e, f)
      (ap some (
        is_before-sign_of inclusive (lt_bytes m n) (lt_bytes n m)
          (asymmetric lt_bytes lt_bytes-IsOrder m n)))
on_bound-is_before other_key k b inclusive hk (inr hb) = absurd hk

-- the scan stops at a key just if the upper bound excludes it
pub on_bound-is_behind :
    (kind : KeyKind) (k b : Value) (inclusive : Bool)
    → IsKey kind k
    → IsLimit kind b
    → on_bound kind k b (is_behind inclusive) ≡ some (not (to_allows b inclusive k))
unfolding compare_keys
on_bound-is_behind kind k b inclusive hk (inl e) = rw e refl
on_bound-is_behind int64_key k b inclusive hk (inr hb) =
    let (m, e) = hk in
    let (n, f) = hb in
    rw (e, f)
      ((ap some
        (is_behind-sign_of inclusive (lt_ℤ m n) (lt_ℤ n m) (asymmetric lt_ℤ lt_ℤ-IsOrder m n))))
on_bound-is_behind varchar_key k b inclusive hk (inr hb) =
    let (m, e) = hk in
    let (n, f) = hb in
    rw (e, f)
      (ap some (
        is_behind-sign_of inclusive (lt_bytes m n) (lt_bytes n m)
          (asymmetric lt_bytes lt_bytes-IsOrder m n)))
on_bound-is_behind other_key k b inclusive hk (inr hb) = absurd hk

not-true : {b : Bool} → ◌≡◌ {A = Option Bool} (some (not b)) (some true) → b ≡ false
not-true {b = true} h = cc
not-true {b = false} h = refl

not-false : {b : Bool} → ◌≡◌ {A = Option Bool} (some (not b)) (some false) → b ≡ true
not-false {b = true} h = refl
not-false {b = false} h = cc

module _ (kind : KeyKind) (limits : Limits) (k : Value) (hk : IsKey kind k) where
  pub before-outside :
      IsLimit kind limits.from
      → on_bound kind k limits.from (is_before limits.from_inclusive) ≡ some true
      → in_limits limits k ≡ false
  unfolding in_limits
  before-outside hfrom h =
      rw (not-true (sym (on_bound-is_before kind k limits.from limits.from_inclusive hk hfrom) ∙ h))
        refl

  pub behind-outside :
      IsLimit kind limits.to
      → on_bound kind k limits.to (is_behind limits.to_inclusive) ≡ some true
      → in_limits limits k ≡ false
  unfolding in_limits
  behind-outside hto h =
      rw (not-true (sym (on_bound-is_behind kind k limits.to limits.to_inclusive hk hto) ∙ h))
        (and_false _)

  pub in_limits-inside :
      IsLimit kind limits.from
      → IsLimit kind limits.to
      → on_bound kind k limits.from (is_before limits.from_inclusive) ≡ some false
      → on_bound kind k limits.to (is_behind limits.to_inclusive) ≡ some false
      → in_limits limits k ≡ true
  unfolding in_limits
  in_limits-inside hfrom hto h g =
      rw
        (
          not-false
              (sym (on_bound-is_before kind k limits.from limits.from_inclusive hk hfrom) ∙ h),
          not-false (sym (on_bound-is_behind kind k limits.to limits.to_inclusive hk hto) ∙ g),
        )
        refl
