-- ===== src/Tests/Tree.antt =====
-- A B-tree of two leaves under a root.
use gopher_db.Base.Int.{ℤ, pos, negsuc, eq_ℤ}
use gopher_db.Base.Outcome.{Outcome, ok, ok_injective}
use gopher_db.Base.{
  ℕ, ◌≡◌, refl, sym, ap, inl, inr, true, false, List, [], ◌∷◌, arith, if◌then◌else◌,
}
use gopher_db.Index.Chain.{leaf_keys, leaf_values}
use gopher_db.Index.Keys.{int64_key, compare_keys}
use gopher_db.Index.Lookup.{search-tids_of}
use gopher_db.Index.Position.{tids_of}
use gopher_db.Index.Limits.{in_limits}
use gopher_db.Index.Node.{Tid, BtreeNode}
use gopher_db.Index.RangeSearch.{range_search-tids_within}
use gopher_db.Index.Whole.{IsIndex}
use gopher_db.Index.Ranges.{tids_within}
use gopher_db.Index.Search.{BtreeMeta, Limits, range_search, search}
use gopher_db.Value.{int64}

abbrev place : ℕ → Tid
place n = record { page_id = pos 7; slot_id = pos n }

abbrev low_leaf : ℤ → BtreeNode
low_leaf id = record {
  page_id = id;
  is_leaf = true;
  parent_page_id = pos 3;
  left_sib_page_id = negsuc 0;
  right_sib_page_id = pos 2;
  keys = int64 (pos 10) ∷ [];
  values = (place 0 ∷ []) ∷ [];
  children = [];
}

abbrev high_leaf : ℤ → BtreeNode
high_leaf id = record {
  page_id = id;
  is_leaf = true;
  parent_page_id = pos 3;
  left_sib_page_id = pos 1;
  right_sib_page_id = negsuc 0;
  keys = int64 (pos 20) ∷ int64 (pos 30) ∷ [];
  values = (place 1 ∷ place 2 ∷ []) ∷ (place 3 ∷ []) ∷ [];
  children = [];
}

abbrev top : ℤ → BtreeNode
top id = record {
  page_id = id;
  is_leaf = false;
  parent_page_id = negsuc 0;
  left_sib_page_id = negsuc 0;
  right_sib_page_id = negsuc 0;
  keys = int64 (pos 20) ∷ [];
  values = [];
  children = pos 1 ∷ pos 2 ∷ [];
}

abbrev node_on : ℤ → BtreeNode
node_on id = record {
  page_id = id;
  is_leaf = if eq_ℤ id (pos 3) then false else true;
  parent_page_id = if eq_ℤ id (pos 3) then negsuc 0 else pos 3;
  left_sib_page_id = if eq_ℤ id (pos 2) then pos 1 else negsuc 0;
  right_sib_page_id = if eq_ℤ id (pos 1) then pos 2 else negsuc 0;
  keys =
      if eq_ℤ id (pos 3)
      then (top id).keys
      else if eq_ℤ id (pos 1)
      then (low_leaf id).keys
      else (high_leaf id).keys;
  values =
      if eq_ℤ id (pos 3)
      then []
      else if eq_ℤ id (pos 1)
      then (low_leaf id).values
      else (high_leaf id).values;
  children = if eq_ℤ id (pos 3) then (top id).children else [];
}

abbrev read_on : ℤ → Outcome Unit BtreeNode
read_on id = ok (node_on id)

abbrev two_leaves : List BtreeNode
two_leaves = low_leaf (pos 1) ∷ high_leaf (pos 2) ∷ []

abbrev tree_meta : BtreeMeta
tree_meta = record {
  root_page_id = pos 3;
  height = pos 2;
  leftmost_leaf_id = pos 1;
  next_page_id = pos 4;
}

two_leaves-IsIndex : IsIndex read_on int64_key tree_meta 1 two_leaves
unfolding leaf_keys compare_keys
two_leaves-IsIndex = record {
  tree = (
    top (pos 3),
    refl,
    refl,
    ((pos 20, refl), tt),
    (tt, tt),
    (
      low_leaf (pos 1) ∷ [],
      high_leaf (pos 2) ∷ [],
      refl,
      (low_leaf (pos 1), refl, refl, refl),
      (refl, tt),
      (inl refl, (inr refl, tt)),
      (high_leaf (pos 2), refl, refl, refl),
    ),
  );
  chain = (refl, refl, refl, (refl, refl, refl, refl));
  typed = ((pos 10, refl), ((pos 20, refl), ((pos 30, refl), tt)));
  ascending = ((refl, (refl, tt)), ((refl, tt), (tt, tt)));
  numbered = λ id node e. ap (λ (n : BtreeNode). n.page_id) (sym (ok_injective e));
}

abbrev below_thirty : Limits
below_thirty = record {
  from = int64 (pos 20);
  from_inclusive = true;
  to = int64 (pos 30);
  to_inclusive = false;
}

abbrev above_twenty : Limits
above_twenty = record {
  from = int64 (pos 20);
  from_inclusive = false;
  to = int64 (pos 30);
  to_inclusive = true;
}

below_thirty_tids :
    tids_within below_thirty (leaf_keys two_leaves) (leaf_values two_leaves)
    ≡ place 1 ∷ place 2 ∷ []
unfolding tids_within in_limits leaf_keys leaf_values
below_thirty_tids = refl

above_twenty_tids :
    tids_within above_twenty (leaf_keys two_leaves) (leaf_values two_leaves) ≡ place 3 ∷ []
unfolding tids_within in_limits leaf_keys leaf_values
above_twenty_tids = refl

range_search-tids_within_example :
    range_search 3 read_on int64_key tree_meta below_thirty
    ≡ ok (tids_within below_thirty (leaf_keys two_leaves) (leaf_values two_leaves))
range_search-tids_within_example =
    range_search-tids_within read_on int64_key tree_meta below_thirty 1 3 two_leaves
      (inr (pos 20, refl)) (inr (pos 30, refl)) (ground arith) (ground arith) two_leaves-IsIndex

search-tids_of_example :
    search 2 read_on int64_key tree_meta (int64 (pos 20))
    ≡ ok (tids_of int64_key (leaf_keys two_leaves) (leaf_values two_leaves) (int64 (pos 20)))
search-tids_of_example =
    search-tids_of read_on int64_key tree_meta (int64 (pos 20)) 1 2 two_leaves (pos 20, refl)
      (ground arith) two_leaves-IsIndex
