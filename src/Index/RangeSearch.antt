-- ===== src/Index/RangeSearch.antt =====
-- `RangeSearch` over a whole tree and the chain of its leaves.
use gopher_db.Base.Int.{ℤ, pos, negsuc, lt_ℤ}
use gopher_db.Base.Outcome.{Outcome, ok}
use gopher_db.Base.Select.{All}
use gopher_db.Base.{
  ℕ, zero, suc, ◌<◌, ◌≡◌, refl, sym, ap, subst, ◌∙◌, inl, inr, true, false, List, [], ◌∷◌, ◌++◌,
  some, arith, length, length-append, length-drop,
}
use gopher_db.Index.Bounds.{SplitsAt, lower_bound-upper_bound, Ascending-SplitsAt}
use gopher_db.Index.Chain.{
  leaf_keys, leaf_values, Chain, All-append, Ascending-append, tids_within-append, scan_chain-leaf,
  scan_chain-Chain,
}
use gopher_db.Index.Keys.{KeyKind, compare_keys, is_negative}
use gopher_db.Index.Node.{Tid, BtreeNode}
use gopher_db.Index.Order.{
  IsKey, Below, KeyOrder, below, equal, above, compare_keys-KeyOrder, Ascending,
}
use gopher_db.Index.Ranges.{tids_within, tids_within-nil}
use gopher_db.Index.Limits.{IsLimit, IsKey-is_bound}
use gopher_db.Index.Search.{BtreeMeta, Limits, scan_chain, is_reversed, scan_start, range_search}
use gopher_db.Index.Descent.{find_leaf-Around}
use gopher_db.Index.Tree.{leaf_keys-append}
use gopher_db.Value.{nil}
use gopher_db.Index.Whole.{
  leaf_values-append, All-drop, Ascending-drop, Chain-after, IsIndex, tids_within-drop, All-outside,
  reversed-outside,
}

module _ {E : Type 0} (read : ℤ → Outcome E BtreeNode) (kind : KeyKind) (limits : Limits)
    (hfrom : IsKey kind limits.from) (hto : IsLimit kind limits.to) where
  -- the scan from the position in the leaf that holds the lower bound
  scan_chain-start :
      (fuel n : ℕ) (start : ℤ) (leaf : BtreeNode) (before after : List BtreeNode)
      → Chain read start (leaf ∷ after)
      → length (leaf_values before) ≡ length (leaf_keys before)
      → length after < fuel
      → All (IsKey kind) (leaf_keys before ++ (leaf.keys ++ leaf_keys after))
      → Ascending kind (leaf_keys before ++ (leaf.keys ++ leaf_keys after))
      → All (λ j. Below kind j limits.from) (leaf_keys before)
      → SplitsAt is_negative kind limits.from leaf.keys n
      → scan_chain (suc fuel) read kind limits start n
        ≡ ok (
            tids_within limits
              (leaf_keys before ++ (leaf.keys ++ leaf_keys after))
              (leaf_values before ++ (leaf.values ++ leaf_values after)))
  scan_chain-start fuel n start leaf before after (stays, reads, len, chain) same h typed asc lower
        splits =
      let (typed_before, typed_from) = All-append (IsKey kind) (leaf_keys before) _ typed in
      let (typed_leaf, typed_after) =
        All-append (IsKey kind) leaf.keys (leaf_keys after) typed_from in
      let (_, asc_from, _) = Ascending-append kind (leaf_keys before) _ asc in
      let (_, asc_after, _) = Ascending-append kind leaf.keys (leaf_keys after) asc_from in
      let nothing : tids_within limits (leaf_keys before) (leaf_values before) ≡ [] =
        tids_within-nil kind limits (inr hfrom) hto (leaf_keys before) (leaf_values before)
          (All-outside kind limits hfrom (leaf_keys before) typed_before lower) in
      scan_chain-leaf read kind limits (inr hfrom) hto fuel n start leaf (leaf_keys after)
        (leaf_values after) stays reads
        (omega (arith, len, length-drop n leaf.values, length-drop n leaf.keys))
        (All-drop (IsKey kind) n leaf.keys (leaf_keys after) typed_from)
        (Ascending-drop kind n leaf.keys (leaf_keys after) asc_from)
        (scan_chain-Chain read kind limits (inr hfrom) hto after fuel leaf.right_sib_page_id h chain
          typed_after asc_after)
      ∙ ap ok (
          ap (λ tids. tids ++ tids_within limits (leaf_keys after) (leaf_values after))
            (tids_within-drop kind limits hfrom leaf.keys leaf.values n typed_leaf splits len)
          ∙ sym (
              tids_within-append limits leaf.keys (leaf_keys after) leaf.values (leaf_values after)
                len)
          ∙ ap
              (λ tids.
                tids
                ++ tids_within limits (leaf.keys ++ leaf_keys after)
                    (leaf.values ++ leaf_values after))
              (sym nothing)
          ∙ sym (tids_within-append limits (leaf_keys before) _ (leaf_values before) _ same))

  scan_from :
      (meta : BtreeMeta) (height fuel : ℕ) (leaves : List BtreeNode)
      → height < fuel
      → length leaves < fuel
      → IsIndex read kind meta height leaves
      → (start : ℤ) × (n : ℕ) × (scan_start fuel read kind meta limits.from ≡ ok (start, n))
        × (scan_chain fuel read kind limits start n
            ≡ ok (tids_within limits (leaf_keys leaves) (leaf_values leaves)))
  unfolding leaf_keys leaf_values
  scan_from meta height zero leaves h1 h2 ix = absurd (omega arith)
  scan_from meta height (suc fuel) leaves h1 h2 ix =
      let (leaf, found, a) =
        find_leaf-Around kind limits.from hfrom read (suc fuel) height meta.root_page_id leaves h1
          ix.tree ix.typed in
      let (start, chain, same) =
        Chain-after read a.before (leaf ∷ a.after) meta.leftmost_leaf_id
          (subst (Chain read meta.leftmost_leaf_id) a.parts ix.chain) in
      let (_, reads, _, _) = chain in
      let keys = ap leaf_keys a.parts ∙ leaf_keys-append a.before (leaf ∷ a.after) in
      let values = ap leaf_values a.parts ∙ leaf_values-append a.before (leaf ∷ a.after) in
      let typed = subst (All (IsKey kind)) keys ix.typed in
      let asc = subst (Ascending kind) keys ix.ascending in
      let (_, typed_from) = All-append (IsKey kind) (leaf_keys a.before) _ typed in
      let (typed_leaf, _) = All-append (IsKey kind) leaf.keys (leaf_keys a.after) typed_from in
      let (_, asc_from, _) = Ascending-append kind (leaf_keys a.before) _ asc in
      let (asc_leaf, _, _) = Ascending-append kind leaf.keys (leaf_keys a.after) asc_from in
      let (position, _) =
        lower_bound-upper_bound kind leaf.keys limits.from hfrom typed_leaf asc_leaf in
      let splits =
        Ascending-SplitsAt is_negative kind limits.from hfrom refl refl leaf.keys typed_leaf
          asc_leaf in
      let short : length a.after < fuel =
        omega (arith, h2, ap length a.parts, length-append a.before (leaf ∷ a.after)) in
      (
        start,
        _,
        rw (IsKey-is_bound kind limits.from hfrom, found, position, ix.numbered start leaf reads)
            refl,
        scan_chain-start fuel _ start leaf a.before a.after chain same short typed asc a.all_below
              splits
            ∙ ap ok (
                ap
                  (λ ks.
                    tids_within limits ks
                      (leaf_values a.before ++ (leaf.values ++ leaf_values a.after)))
                  (sym keys)
                ∙ ap (tids_within limits (leaf_keys leaves)) (sym values)),
      )

module _ {E : Type 0} (read : ℤ → Outcome E BtreeNode) (kind : KeyKind) (meta : BtreeMeta)
    (limits : Limits) where
  range_search-started :
      (fuel n : ℕ) (start : ℤ) (tids : List Tid)
      → is_reversed kind limits ≡ some false
      → scan_start fuel read kind meta limits.from ≡ ok (start, n)
      → scan_chain fuel read kind limits start n ≡ ok tids
      → range_search fuel read kind meta limits ≡ ok tids
  unfolding range_search
  range_search-started fuel n start tids straight started scanned = rw (straight, started) scanned

  range_search-reversed :
      (fuel : ℕ)
      → is_reversed kind limits ≡ some true
      → range_search fuel read kind meta limits ≡ ok []
  unfolding range_search
  range_search-reversed fuel reversed = rw reversed refl

  from_nil : limits.from ≡ nil → is_reversed kind limits ≡ some false
  from_nil e = rw e refl

  to_nil : IsKey kind limits.from → limits.to ≡ nil → is_reversed kind limits ≡ some false
  to_nil h e = rw (IsKey-is_bound kind limits.from h, e) refl

  by_sign :
      (sign : ℤ)
      → IsKey kind limits.from
      → IsKey kind limits.to
      → compare_keys kind limits.from limits.to ≡ some sign
      → is_reversed kind limits ≡ some (lt_ℤ (pos 0) sign)
  by_sign sign h k e =
      rw (IsKey-is_bound kind limits.from h, IsKey-is_bound kind limits.to k, e) refl

  start_nil :
      (fuel : ℕ)
      → limits.from ≡ nil
      → scan_start fuel read kind meta limits.from ≡ ok (meta.leftmost_leaf_id, 0)
  start_nil fuel e = rw e refl

-- In an index whose leaves are a chain under a tree and whose keys ascend and are of the index's type, `RangeSearch` between
-- bounds that are nil or of the type returns, without an error or a panic, the tuples of just the keys in the
-- range, in the order of the keys, as soon as the fuel is above the tree's height and the number of leaves. A key is
-- in the range if it is not less than the lower bound, or greater than it where that is exclusive, and
-- not greater than the upper bound, or less than it where that is exclusive, by the order of numbers or of strings of
-- bytes; a bound that is nil does not exclude a key.
pub range_search-tids_within :
    {E : Type 0} (read : ℤ → Outcome E BtreeNode) (kind : KeyKind) (meta : BtreeMeta)
    (limits : Limits) (height fuel : ℕ) (leaves : List BtreeNode)
    → IsLimit kind limits.from
    → IsLimit kind limits.to
    → height < fuel
    → length leaves < fuel
    → IsIndex read kind meta height leaves
    → range_search fuel read kind meta limits
      ≡ ok (tids_within limits (leaf_keys leaves) (leaf_values leaves))
range_search-tids_within read kind meta limits height fuel leaves (inl e) hto h1 h2 ix =
    range_search-started read kind meta limits fuel 0 meta.leftmost_leaf_id _
      (from_nil read kind meta limits e) (start_nil read kind meta limits fuel e)
      (scan_chain-Chain read kind limits (inl e) hto leaves fuel meta.leftmost_leaf_id h2 ix.chain
        ix.typed ix.ascending)
range_search-tids_within read kind meta limits height fuel leaves (inr hfrom) (inl e) h1 h2 ix =
    let (start, n, started, scanned) =
      scan_from read kind limits hfrom (inl e) meta height fuel leaves h1 h2 ix in
    range_search-started read kind meta limits fuel n start _ (to_nil read kind meta limits hfrom e)
      started scanned
range_search-tids_within {E} read kind meta limits height fuel leaves (inr hfrom) (inr hto) h1 h2
      ix =
    by_order (compare_keys-KeyOrder kind limits.from limits.to hfrom hto)
      (scan_from read kind limits hfrom (inr hto) meta height fuel leaves h1 h2 ix)
  where
    tids : List Tid
    tids = tids_within limits (leaf_keys leaves) (leaf_values leaves)

    by_order :
        KeyOrder kind limits.from limits.to
        → ((start : ℤ) × (n : ℕ) × (scan_start fuel read kind meta limits.from ≡ ok (start, n))
            × (scan_chain fuel read kind limits start n ≡ ok tids))
        → range_search fuel read kind meta limits ≡ ok tids
    by_order (below less _) (start, n, started, scanned) =
        range_search-started read kind meta limits fuel n start tids
          (by_sign read kind meta limits (negsuc 0) hfrom hto less) started scanned
    by_order (equal _ same) (start, n, started, scanned) =
        range_search-started read kind meta limits fuel n start tids
          (by_sign read kind meta limits (pos 0) hfrom hto same) started scanned
    by_order (above gt lt) _ =
        range_search-reversed read kind meta limits fuel
          (by_sign read kind meta limits (pos 1) hfrom hto gt)
        ∙ ap ok (
            sym (
              tids_within-nil kind limits (inr hfrom) (inr hto) (leaf_keys leaves)
                (leaf_values leaves)
                (reversed-outside kind limits hfrom hto gt lt (leaf_keys leaves) ix.typed)))
