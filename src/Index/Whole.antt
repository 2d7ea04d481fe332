-- ===== src/Index/Whole.antt =====
-- A tree with the chain of its leaves, and the keys of a leaf that a lower bound passes over.
use gopher_db.Base.Int.{ℤ}
use gopher_db.Base.Outcome.{Outcome, ok}
use gopher_db.Base.Select.{All}
use gopher_db.Base.{
  ℕ, zero, suc, ◌≡◌, refl, sym, ap, subst, ◌∙◌, inr, false, List, [], ◌∷◌, ◌++◌, arith, length,
  drop, append_assoc, length-append,
}
use gopher_db.Index.Bounds.{SplitsAt}
use gopher_db.Index.Chain.{leaf_keys, leaf_values, Chain}
use gopher_db.Index.Keys.{KeyKind, is_negative}
use gopher_db.Index.Node.{Tid, BtreeNode}
use gopher_db.Index.Order.{
  IsKey, Below, Above, KeyOrder, below, equal, above, compare_keys-KeyOrder, Below-trans, Ascending,
  Below-flip,
}
use gopher_db.Index.Position.{moved-Below}
use gopher_db.Index.Ranges.{tids_within}
use gopher_db.Index.Limits.{in_limits, IsKey-is_bound, before-outside, behind-outside}
use gopher_db.Index.Search.{BtreeMeta, Limits}
use gopher_db.Index.Tree.{IsTree}
use gopher_db.Value.{Value}

pub leaf_values-append :
    (xs ys : List BtreeNode) → leaf_values (xs ++ ys) ≡ leaf_values xs ++ leaf_values ys
unfolding leaf_values
leaf_values-append [] ys = refl
leaf_values-append (x ∷ xs) ys =
    ap (λ more. x.values ++ more) (leaf_values-append xs ys)
    ∙ sym (append_assoc x.values (leaf_values xs) (leaf_values ys))

pub All-drop :
    {A : Type 0} (P : A → Type 0) (n : ℕ) (xs ys : List A)
    → All P (xs ++ ys)
    → All P (drop n xs ++ ys)
All-drop P zero xs ys h = h
All-drop P (suc n) [] ys h = h
All-drop P (suc n) (x ∷ xs) ys (h, hs) = All-drop P n xs ys hs

pub Ascending-drop :
    (kind : KeyKind) (n : ℕ) (ks js : List Value)
    → Ascending kind (ks ++ js)
    → Ascending kind (drop n ks ++ js)
Ascending-drop kind zero ks js h = h
Ascending-drop kind (suc n) [] js h = h
Ascending-drop kind (suc n) (k ∷ ks) js (h, hs) = Ascending-drop kind n ks js hs

module _ {E : Type 0} (read : ℤ → Outcome E BtreeNode) where
  -- a chain from one of its leaves on
  pub Chain-after :
      (before after : List BtreeNode) (id : ℤ)
      → Chain read id (before ++ after)
      → (start : ℤ) × Chain read start after
        × (length (leaf_values before) ≡ length (leaf_keys before))
  unfolding leaf_keys leaf_values
  Chain-after [] after id chain = (id, chain, refl)
  Chain-after (leaf ∷ before) after id (stays, reads, len, chain) =
      let (start, rest, same) = Chain-after before after leaf.right_sib_page_id chain in
      (
        start,
        rest,
        omega (
          arith,
          len,
          same,
          length-append leaf.values (leaf_values before),
          length-append leaf.keys (leaf_keys before),
        ),
      )

-- The leaves of the tree are a chain from the meta page's leftmost leaf on, and their keys ascend.
pub record IsIndex {E : Type 0} (read : ℤ → Outcome E BtreeNode) (kind : KeyKind) (meta : BtreeMeta)
    (height : ℕ) (leaves : List BtreeNode) : Type 0 where
  pub tree : IsTree read kind height meta.root_page_id leaves
  pub chain : Chain read meta.leftmost_leaf_id leaves
  pub typed : All (IsKey kind) (leaf_keys leaves)
  pub ascending : Ascending kind (leaf_keys leaves)
  pub numbered : (id : ℤ) (node : BtreeNode) → read id ≡ ok node → node.page_id ≡ id

module _ (kind : KeyKind) (limits : Limits) (hfrom : IsKey kind limits.from) where
  pub Below-outside :
      (k : Value) → IsKey kind k → Below kind k limits.from → in_limits limits k ≡ false
  Below-outside k hk h =
      before-outside kind limits k hk (inr hfrom)
        (rw (IsKey-is_bound kind limits.from hfrom, h) refl)

  -- the keys in front of the start are in front of the range
  pub tids_within-drop :
      (ks : List Value) (vs : List (List Tid)) (n : ℕ)
      → All (IsKey kind) ks
      → SplitsAt is_negative kind limits.from ks n
      → length vs ≡ length ks
      → tids_within limits (drop n ks) (drop n vs) ≡ tids_within limits ks vs
  unfolding tids_within
  tids_within-drop ks vs zero hks s len = refl
  tids_within-drop [] vs (suc n) hks s len = refl
  tids_within-drop (k ∷ ks) [] (suc n) hks s len = absurd (omega (arith, len))
  tids_within-drop (k ∷ ks) (v ∷ vs) (suc n) (hk, hks) (m, s) len =
      rw (Below-outside k hk (moved-Below kind limits.from hfrom k hk m))
        (tids_within-drop ks vs n hks s (omega (arith, len)))

  pub All-outside :
      (ks : List Value)
      → All (IsKey kind) ks
      → All (λ k. Below kind k limits.from) ks
      → All (λ k. in_limits limits k ≡ false) ks
  All-outside [] hks h = tt
  All-outside (k ∷ ks) (hk, hks) (h, hs) = (Below-outside k hk h, All-outside ks hks hs)

  -- nothing is in a range whose bounds are the wrong way round
  pub reversed-outside :
      IsKey kind limits.to
      → Above kind limits.from limits.to
      → Below kind limits.to limits.from
      → (ks : List Value) → All (IsKey kind) ks
      → All (λ k. in_limits limits k ≡ false) ks
  reversed-outside hto gt lt [] h = tt
  reversed-outside hto gt lt (k ∷ ks) (hk, hks) = (
    by_order (compare_keys-KeyOrder kind k limits.from hk hfrom),
    reversed-outside hto gt lt ks hks,
  )
    where
      behind : Above kind k limits.to → in_limits limits k ≡ false
      behind h =
          behind-outside kind limits k hk (inr hto) (rw (IsKey-is_bound kind limits.to hto, h) refl)

      by_order : KeyOrder kind k limits.from → in_limits limits k ≡ false
      by_order (below less _) = Below-outside k hk less
      by_order (equal e _) = behind (subst (λ x. Above kind x limits.to) (sym e) gt)
      by_order (above _ less) = behind (
          Below-flip kind limits.to k hto hk
            (Below-trans kind limits.to limits.from k hto hfrom hk lt less))
