-- ===== src/Index/Lookup.antt =====
-- `Search` over a whole tree.
use gopher_db.Base.Int.{ℤ}
use gopher_db.Base.Outcome.{Outcome, ok}
use gopher_db.Base.Select.{All}
use gopher_db.Base.{
  ℕ, ◌<◌, ◌≡◌, refl, sym, ap, subst, ◌∙◌, List, [], ◌∷◌, ◌++◌, arith, length, if◌then◌else◌,
}
use gopher_db.Index.Chain.{leaf_keys, leaf_values, Chain, All-append, Ascending-append}
use gopher_db.Index.Insertion.{search_leaf-tids_of}
use gopher_db.Index.Keys.{KeyKind, compare_keys}
use gopher_db.Index.Node.{Tid, BtreeNode}
use gopher_db.Index.Order.{IsKey, Below, Above, Ascending}
use gopher_db.Index.Position.{is_same, tids_of, tids_of-Above}
use gopher_db.Index.Whole.{IsIndex, Chain-after, leaf_values-append}
use gopher_db.Index.Search.{BtreeMeta, search}
use gopher_db.Index.Descent.{find_leaf-Around}
use gopher_db.Index.Tree.{leaf_keys-append}
use gopher_db.Value.{Value}

module _ (kind : KeyKind) (key : Value) (hkey : IsKey kind key) where
  -- lower keys in front do not matter
  tids_of-behind :
      (ks js : List Value) (vs us : List (List Tid))
      → length vs ≡ length ks
      → All (λ k. Below kind k key) ks
      → tids_of kind (ks ++ js) (vs ++ us) key ≡ tids_of kind js us key
  unfolding tids_of
  tids_of-behind [] js [] us len h = refl
  tids_of-behind [] js (v ∷ vs) us len h = absurd (omega (arith, len))
  tids_of-behind (k ∷ ks) js [] us len h = absurd (omega (arith, len))
  tids_of-behind (k ∷ ks) js (v ∷ vs) us len (h, hs) =
      rw h (tids_of-behind ks js vs us (omega (arith, len)) hs)

  -- nor do higher keys behind
  tids_of-before :
      (ks js : List Value) (vs us : List (List Tid))
      → length vs ≡ length ks
      → All (λ k. Above kind k key) js
      → tids_of kind (ks ++ js) (vs ++ us) key ≡ tids_of kind ks vs key
  unfolding tids_of
  tids_of-before [] js [] us len h = tids_of-Above kind key hkey js us h
  tids_of-before [] js (v ∷ vs) us len h = absurd (omega (arith, len))
  tids_of-before (k ∷ ks) js [] us len h = absurd (omega (arith, len))
  tids_of-before (k ∷ ks) js (v ∷ vs) us len h =
      ap (λ more. if is_same (compare_keys kind k key) then v else more)
        (tids_of-before ks js vs us (omega (arith, len)) h)

-- In an index whose leaves are a chain under a tree and whose keys ascend and are of the index's type, `Search` of a key of
-- the type returns, without an error or a panic, the tuples that a walk over the keys of all leaves finds, as
-- soon as the fuel is above the tree's height.
pub search-tids_of :
    {E : Type 0} (read : ℤ → Outcome E BtreeNode) (kind : KeyKind) (meta : BtreeMeta) (key : Value)
    (height fuel : ℕ) (leaves : List BtreeNode)
    → IsKey kind key
    → height < fuel
    → IsIndex read kind meta height leaves
    → search fuel read kind meta key ≡ ok (tids_of kind (leaf_keys leaves) (leaf_values leaves) key)
unfolding search leaf_keys leaf_values
search-tids_of read kind meta key height fuel leaves hkey h ix =
    let (leaf, found, a) =
      find_leaf-Around kind key hkey read fuel height meta.root_page_id leaves h ix.tree ix.typed in
    let (start, (_, _, len, _), same) =
      Chain-after read a.before (leaf ∷ a.after) meta.leftmost_leaf_id
        (subst (Chain read meta.leftmost_leaf_id) a.parts ix.chain) in
    let keys : leaf_keys leaves ≡ leaf_keys a.before ++ (leaf.keys ++ leaf_keys a.after) =
      ap leaf_keys a.parts ∙ leaf_keys-append a.before (leaf ∷ a.after) in
    let values : leaf_values leaves ≡ leaf_values a.before ++ (leaf.values ++ leaf_values a.after) =
      ap leaf_values a.parts ∙ leaf_values-append a.before (leaf ∷ a.after) in
    let (_, typed) =
      All-append (IsKey kind) (leaf_keys a.before) _ (subst (All (IsKey kind)) keys ix.typed) in
    let (typed_leaf, _) = All-append (IsKey kind) leaf.keys (leaf_keys a.after) typed in
    let (_, asc, _) =
      Ascending-append kind (leaf_keys a.before) _ (subst (Ascending kind) keys ix.ascending) in
    let (asc_leaf, _, _) = Ascending-append kind leaf.keys (leaf_keys a.after) asc in
    let here =
      search_leaf-tids_of kind leaf
        (record { typed = typed_leaf; ascending = asc_leaf; paired = len }) key hkey in
    let all : tids_of kind (leaf_keys leaves) (leaf_values leaves) key
        ≡ tids_of kind leaf.keys leaf.values key =
      ap (λ ks. tids_of kind ks (leaf_values leaves) key) keys
      ∙ ap (λ vs. tids_of kind (leaf_keys a.before ++ (leaf.keys ++ leaf_keys a.after)) vs key)
          values
      ∙ tids_of-behind kind key hkey (leaf_keys a.before) _ (leaf_values a.before) _ same
          a.all_below
      ∙ tids_of-before kind key hkey leaf.keys (leaf_keys a.after) leaf.values (leaf_values a.after)
          len a.all_above in
    rw (found, here) (ap ok (sym all))
