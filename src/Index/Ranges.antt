-- ===== src/Index/Ranges.antt =====
-- The scan of a chain of leaves in `RangeSearch` gives the tuples of the keys in the range.
use gopher_db.Base.Int.{negsuc}
use gopher_db.Base.Select.{All}
use gopher_db.Base.{
  ◌≡◌, refl, subst, inl, inr, Bool, true, false, List, [], ◌∷◌, ◌++◌, Option, some, arith, length,
  if◌then◌else◌,
}
use gopher_db.Index.Keys.{KeyKind}
use gopher_db.Index.Limits.{
  IsLimit, in_limits, IsKey-is_bound, on_bound-is_before, on_bound-is_behind, before-outside,
  behind-outside, in_limits-inside,
}
use gopher_db.Index.Node.{Tid}
use gopher_db.Index.Order.{
  IsKey, Below, KeyOrder, below, equal, above, compare_keys-KeyOrder, Below-trans, Ascending,
  Below-flip,
}
use gopher_db.Index.Search.{Limits, on_bound, is_before, is_behind, scan_leaf}
use gopher_db.Value.{Value}

-- the tuples of the keys in the range, by a walk over all keys
unfoldable pub tids_within : Limits → List Value → List (List Tid) → List Tid
tids_within limits (k ∷ ks) (v ∷ vs) =
    if in_limits limits k then v ++ tids_within limits ks vs else tids_within limits ks vs
tids_within limits _ _ = []

-- what is behind a key that is behind the range is behind the range
behind-Below :
    (kind : KeyKind) (k j b : Value) (inclusive : Bool)
    → IsKey kind k
    → IsKey kind j
    → IsLimit kind b
    → on_bound kind k b (is_behind inclusive) ≡ some true
    → Below kind k j
    → on_bound kind j b (is_behind inclusive) ≡ some true
behind-Below kind k j b inclusive hk hj (inl e) h lt = absurd (false_true (rw e at h))
  where
    false_true : ◌≡◌ {A = Option Bool} (some false) (some true) → ⊥
    false_true h = cc
behind-Below kind k j b inclusive hk hj (inr hb) h lt =
    by_order (compare_keys-KeyOrder kind k b hk hb)
  where
    behind : Below kind b j → on_bound kind j b (is_behind inclusive) ≡ some true
    behind lt' = rw (IsKey-is_bound kind b hb, Below-flip kind b j hb hj lt') refl

    by_order : KeyOrder kind k b → on_bound kind j b (is_behind inclusive) ≡ some true
    by_order (below less _) =
        absurd (not_behind inclusive (rw (IsKey-is_bound kind b hb, less) at h))
      where
        not_behind :
            (i : Bool) → ◌≡◌ {A = Option Bool} (some (is_behind i (negsuc 0))) (some true) → ⊥
        not_behind true h = cc
        not_behind false h = cc
    by_order (equal e _) = behind (subst (λ x. Below kind x j) e lt)
    by_order (above _ less) = behind (Below-trans kind b k j hb hk hj less lt)

module _ (kind : KeyKind) (limits : Limits) (hfrom : IsLimit kind limits.from)
    (hto : IsLimit kind limits.to) where
  abbrev pub IsBehind : Value → Type 0
  IsBehind k = on_bound kind k limits.to (is_behind limits.to_inclusive) ≡ some true

  pub All-IsBehind :
      (k : Value) (ks : List Value)
      → IsKey kind k
      → IsBehind k
      → All (IsKey kind) ks
      → All (Below kind k) ks
      → All IsBehind ks
  All-IsBehind k [] hk h hks lts = tt
  All-IsBehind k (j ∷ ks) hk h (hj, hks) (lt, lts) = (
    behind-Below kind k j limits.to limits.to_inclusive hk hj hto h lt,
    All-IsBehind k ks hk h hks lts,
  )

  pub tids_within-nil :
      (ks : List Value) (vs : List (List Tid))
      → All (λ k. in_limits limits k ≡ false) ks
      → tids_within limits ks vs ≡ []
  unfolding tids_within
  tids_within-nil [] vs h = refl
  tids_within-nil (k ∷ ks) [] h = refl
  tids_within-nil (k ∷ ks) (v ∷ vs) (h, hs) = rw h (tids_within-nil ks vs hs)

  pub All-outside :
      (ks : List Value)
      → All (IsKey kind) ks
      → All IsBehind ks
      → All (λ k. in_limits limits k ≡ false) ks
  All-outside [] hks h = tt
  All-outside (k ∷ ks) (hk, hks) (h, hs) =
      (behind-outside kind limits k hk hto h, All-outside ks hks hs)

  -- what the inner loop comes to: the walk's tuples and, where it returned from the whole, a key behind the range
  pub record Scanned (ks : List Value) (vs : List (List Tid)) : Type 0 where
    pub on : Bool
    pub scans : scan_leaf kind limits ks vs ≡ some (tids_within limits ks vs, on)
    pub stopped :
        on ≡ false
        → (k : Value) × IsKey kind k
          × IsBehind k
          × ((j : Value) → All (λ i. Below kind i j) ks → Below kind k j)

  pub scan_leaf-Scanned :
      (ks : List Value) (vs : List (List Tid))
      → All (IsKey kind) ks
      → Ascending kind ks
      → length vs ≡ length ks
      → Scanned ks vs
  unfolding scan_leaf tids_within
  scan_leaf-Scanned [] vs hks asc len = record { on = true; scans = refl; stopped = λ e. cc }
  scan_leaf-Scanned (k ∷ ks) [] hks asc len = absurd (omega (arith, len))
  scan_leaf-Scanned (k ∷ ks) (v ∷ vs) (hk, hks) (first, asc) len =
      by_tests _ _ (on_bound-is_before kind k limits.from limits.from_inclusive hk hfrom)
        (on_bound-is_behind kind k limits.to limits.to_inclusive hk hto)
        (scan_leaf-Scanned ks vs hks asc (omega (arith, len)))
    where
      by_tests :
          (skips stops : Bool)
          → on_bound kind k limits.from (is_before limits.from_inclusive) ≡ some skips
          → on_bound kind k limits.to (is_behind limits.to_inclusive) ≡ some stops
          → Scanned ks vs
          → Scanned (k ∷ ks) (v ∷ vs)
      by_tests true stops e f rest = record {
        on = rest.on;
        scans = rw (e, before-outside kind limits k hk hfrom e) rest.scans;
        stopped =
            λ off. let (i, hi, b, later) = rest.stopped off in (i, hi, b, λ j all. later j all.1);
      }
      by_tests false true e f rest = record {
        on = false;
        scans =
            rw
              (
                e,
                f,
                behind-outside kind limits k hk hto f,
                tids_within-nil ks vs (All-outside ks hks (All-IsBehind k ks hk f hks first)),
              )
              refl;
        stopped = λ off. (k, hk, f, λ j all. all.0);
      }
      by_tests false false e f rest = record {
        on = rest.on;
        scans = rw (e, f, in_limits-inside kind limits k hk hfrom hto e f, rest.scans) refl;
        stopped =
            λ off. let (i, hi, b, later) = rest.stopped off in (i, hi, b, λ j all. later j all.1);
      }
