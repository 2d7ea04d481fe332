-- ===== src/Index/Chain.antt =====
-- The outer loop of `RangeSearch` follows the right siblings of a chain of leaves to its end.
use gopher_db.Base.Int.{ℤ, negsuc, eq_ℤ}
use gopher_db.Base.Outcome.{Outcome, ok, err, panic}
use gopher_db.Base.Select.{All}
use gopher_db.Base.{
  ℕ, zero, suc, ◌<◌, ◌≡◌, refl, sym, ap, ◌∙◌, inl, inr, false, List, [], ◌∷◌, ◌++◌, arith, length,
  drop, if◌then◌else◌, Bool-cases, append-nil, append_assoc,
}
use gopher_db.Base.Outcome
use gopher_db.Index.Keys.{KeyKind}
use gopher_db.Index.Limits.{IsLimit, in_limits}
use gopher_db.Index.Node.{Tid, BtreeNode}
use gopher_db.Index.Order.{IsKey, Below, Ascending}
use gopher_db.Index.Ranges.{
  tids_within, tids_within-nil, All-IsBehind, All-outside, Scanned, scan_leaf-Scanned,
}
use gopher_db.Index.Search.{Limits, scan_leaf, scan_chain, after_leaf, or_panic}
use gopher_db.Value.{Value}

unfoldable pub leaf_keys : List BtreeNode → List Value
leaf_keys [] = []
leaf_keys (leaf ∷ leaves) = leaf.keys ++ leaf_keys leaves

unfoldable pub leaf_values : List BtreeNode → List (List Tid)
leaf_values [] = []
leaf_values (leaf ∷ leaves) = leaf.values ++ leaf_values leaves

-- The page's number starts a chain of these leaves, which `-1` ends. Each leaf has a list for each key.
abbrev pub Chain : {E : Type 0} → (ℤ → Outcome E BtreeNode) → ℤ → List BtreeNode → Type 0
Chain read id [] = id ≡ negsuc 0
Chain {E} read id (leaf ∷ leaves) =
    (eq_ℤ id (negsuc 0) ≡ false)
    × (◌≡◌ {A = Outcome E BtreeNode} (read id) (ok leaf))
    × (length leaf.values ≡ length leaf.keys)
    × Chain read leaf.right_sib_page_id leaves

pub All-append :
    {A : Type 0} (P : A → Type 0) (xs ys : List A) → All P (xs ++ ys) → All P xs × All P ys
All-append P [] ys h = (tt, h)
All-append P (x ∷ xs) ys (h, hs) = let (a, b) = All-append P xs ys hs in ((h, a), b)

pub Ascending-append :
    (kind : KeyKind) (ks js : List Value)
    → Ascending kind (ks ++ js)
    → Ascending kind ks × Ascending kind js × All (λ j. All (λ k. Below kind k j) ks) js
Ascending-append kind [] js h = (tt, h, no_keys js)
  where
    no_keys : (js : List Value) → All (λ j. All (λ k. Below kind k j) []) js
    no_keys [] = tt
    no_keys (j ∷ js) = (tt, no_keys js)
Ascending-append kind (k ∷ ks) js (first, h) =
    let (own, later) = All-append (Below kind k) ks js first in
    let (a, b, all) = Ascending-append kind ks js h in ((own, a), b, both js later all)
  where
    both :
        (js : List Value)
        → All (Below kind k) js
        → All (λ j. All (λ i. Below kind i j) ks) js
        → All (λ j. All (λ i. Below kind i j) (k ∷ ks)) js
    both [] h all = tt
    both (j ∷ js) (h, hs) (all, alls) = ((h, all), both js hs alls)

pub tids_within-append :
    (limits : Limits) (ks js : List Value) (vs us : List (List Tid))
    → length vs ≡ length ks
    → tids_within limits (ks ++ js) (vs ++ us)
      ≡ tids_within limits ks vs ++ tids_within limits js us
unfolding tids_within
tids_within-append limits [] js [] us len = refl
tids_within-append limits [] js (v ∷ vs) us len = absurd (omega (arith, len))
tids_within-append limits (k ∷ ks) js [] us len = absurd (omega (arith, len))
tids_within-append limits (k ∷ ks) js (v ∷ vs) us len =
    let ih = tids_within-append limits ks js vs us (omega (arith, len)) in
    elim (Bool-cases (in_limits limits k)) [
      | inl e ↦ rw (e, ih) (sym (append_assoc v _ _))
      | inr e ↦ rw (e, ih) refl
    ]

module _ {E : Type 0} (read : ℤ → Outcome E BtreeNode) (kind : KeyKind) (limits : Limits)
    (hfrom : IsLimit kind limits.from) (hto : IsLimit kind limits.to) where
  -- one leaf from a position on, with what the rest of the chain gives
  pub scan_chain-leaf :
      (fuel n : ℕ) (id : ℤ) (leaf : BtreeNode) (js : List Value) (us : List (List Tid))
      → eq_ℤ id (negsuc 0) ≡ false
      → read id ≡ ok leaf
      → length (drop n leaf.values) ≡ length (drop n leaf.keys)
      → All (IsKey kind) (drop n leaf.keys ++ js)
      → Ascending kind (drop n leaf.keys ++ js)
      → scan_chain fuel read kind limits leaf.right_sib_page_id 0 ≡ ok (tids_within limits js us)
      → scan_chain (suc fuel) read kind limits id n
        ≡ ok
            (tids_within limits (drop n leaf.keys) (drop n leaf.values) ++ tids_within limits js us)
  unfolding scan_chain
  scan_chain-leaf fuel n id leaf js us stays reads len typed asc rest =
      let (typed_here, typed_later) = All-append (IsKey kind) (drop n leaf.keys) js typed in
      let (asc_here, _, all) = Ascending-append kind (drop n leaf.keys) js asc in
      by_scan typed_later all (
        scan_leaf-Scanned kind limits hfrom hto (drop n leaf.keys) (drop n leaf.values) typed_here
          asc_here len)
    where
      here : List Tid
      here = tids_within limits (drop n leaf.keys) (drop n leaf.values)

      later_Below :
          (k : Value) (js : List Value)
          → ((j : Value) → All (λ i. Below kind i j) (drop n leaf.keys) → Below kind k j)
          → All (λ j. All (λ i. Below kind i j) (drop n leaf.keys)) js
          → All (Below kind k) js
      later_Below k [] h all = tt
      later_Below k (j ∷ js) h (a, all) = (h j a, later_Below k js h all)

      by_scan :
          All (IsKey kind) js
          → All (λ j. All (λ i. Below kind i j) (drop n leaf.keys)) js
          → Scanned kind limits hfrom hto (drop n leaf.keys) (drop n leaf.values)
          → (if eq_ℤ id (negsuc 0)
              then ok []
              else (Outcome.◌>>=◌ (read id) λ leaf.
                  Outcome.◌>>=◌
                    (or_panic (scan_leaf kind limits (drop n leaf.keys) (drop n leaf.values)))
                    λ r. after_leaf r (scan_chain fuel read kind limits leaf.right_sib_page_id 0)))
            ≡ ok (here ++ tids_within limits js us)
      by_scan typed_later all s =
          rw (stays, reads, s.scans)
            (elim (Bool-cases s.on) [
              | inl on ↦ rw (on, rest) refl
              | inr off ↦
                  let (k, hk, behind, below_later) = s.stopped off in
                  let nothing : tids_within limits js us ≡ [] =
                    tids_within-nil kind limits hfrom hto js us (
                      All-outside kind limits hfrom hto js typed_later (
                        All-IsBehind kind limits hfrom hto k js hk behind typed_later
                          (later_Below k js below_later all))) in
                  rw (off, nothing) (ap ok (sym (append-nil here)))
            ])

  -- a whole chain
  pub scan_chain-Chain :
      (leaves : List BtreeNode) (fuel : ℕ) (id : ℤ)
      → length leaves < fuel
      → Chain read id leaves
      → All (IsKey kind) (leaf_keys leaves)
      → Ascending kind (leaf_keys leaves)
      → scan_chain fuel read kind limits id 0
        ≡ ok (tids_within limits (leaf_keys leaves) (leaf_values leaves))
  unfolding scan_chain leaf_keys leaf_values tids_within
  scan_chain-Chain leaves zero id h chain typed asc = absurd (omega arith)
  scan_chain-Chain [] (suc fuel) id h chain typed asc = rw chain refl
  scan_chain-Chain (leaf ∷ leaves) (suc fuel) id h (stays, reads, len, chain) typed asc =
      let (_, typed_later) = All-append (IsKey kind) leaf.keys (leaf_keys leaves) typed in
      let (_, asc_later, _) = Ascending-append kind leaf.keys (leaf_keys leaves) asc in
      scan_chain-leaf fuel 0 id leaf (leaf_keys leaves) (leaf_values leaves) stays reads len typed
        asc
        (scan_chain-Chain leaves fuel leaf.right_sib_page_id (omega (arith, h)) chain typed_later
          asc_later)
      ∙ ap ok (
          sym (
            tids_within-append limits leaf.keys (leaf_keys leaves) leaf.values (leaf_values leaves)
              len))
