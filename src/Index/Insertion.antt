-- ===== src/Index/Insertion.antt =====
-- `insertIntoLeaf` adds a tuple's place to its key and to no other.
use gopher_db.Base.{
  ℕ, ◌≡◌, refl, ap, ◌∙◌, Bool, true, false, List, [], ◌∷◌, ◌++◌, some, get_elem?, if◌then◌else◌,
}
use gopher_db.Index.Bounds.{SplitsAt, count_signs, lower_bound-upper_bound, Ascending-SplitsAt}
use gopher_db.Index.Keys.{KeyKind, compare_keys, is_negative, lower_bound}
use gopher_db.Index.Leaf.{with_tid, insert_into_leaf, tids_at, search_leaf}
use gopher_db.Index.Node.{Tid, BtreeNode}
use gopher_db.Index.Order.{IsKey}
use gopher_db.Value.{Value}
use gopher_db.Index.Position.{is_same, tids_of, IsLeaf, matches_key-Found}
use gopher_db.Index.Inserted.{added, Inserts, Inserted, insert_at_position}

module _ (kind : KeyKind) (leaf : BtreeNode) (good : IsLeaf kind leaf.keys leaf.values) where
  position-SplitsAt :
      (key : Value)
      → IsKey kind key
      → SplitsAt is_negative kind key leaf.keys (count_signs is_negative kind leaf.keys key)
  position-SplitsAt key hkey =
      Ascending-SplitsAt is_negative kind key hkey refl refl leaf.keys good.typed good.ascending

  lower_bound-position :
      (key : Value)
      → IsKey kind key
      → lower_bound kind leaf.keys key ≡ some (count_signs is_negative kind leaf.keys key)
  lower_bound-position key hkey =
      let (lower, _) = lower_bound-upper_bound kind leaf.keys key hkey good.typed good.ascending in
      lower

  pub search_leaf-tids_of :
      (key : Value)
      → IsKey kind key
      → search_leaf kind leaf key ≡ some (tids_of kind leaf.keys leaf.values key)
  unfolding search_leaf
  search_leaf-tids_of key hkey =
      let (b, matches, at) =
        matches_key-Found kind key hkey leaf.keys leaf.values _ (position-SplitsAt key hkey) good in
      rw (lower_bound-position key hkey, matches) (by_test _ b at)
    where
      by_test :
          {tids : List Tid}
          → (n : ℕ) (b : Bool) → (if b then get_elem? leaf.values n else some []) ≡ some tids
          → tids_at leaf n b ≡ some tids
      by_test n true h = h
      by_test n false h = h

-- what the insertion promises of the new leaf
record IsInsertion (kind : KeyKind) (leaf : BtreeNode) (key : Value) (tid : Tid) (after : BtreeNode)
    : Type 0 where
  is_leaf : IsLeaf kind after.keys after.values
  tids :
      (k : Value)
      → IsKey kind k
      → tids_of kind after.keys after.values k ≡ added kind key tid leaf.keys leaf.values k

insert_into_leaf-IsInsertion :
    (kind : KeyKind) (leaf : BtreeNode) (key : Value) (tid : Tid)
    → IsKey kind key
    → IsLeaf kind leaf.keys leaf.values
    → (after : BtreeNode) × (insert_into_leaf kind leaf key tid ≡ some after)
      × IsInsertion kind leaf key tid after
unfolding insert_into_leaf Inserted
insert_into_leaf-IsInsertion kind leaf key tid hkey good =
    let (b, matches, inserts) =
      insert_at_position kind key hkey tid leaf.keys leaf.values _
        (position-SplitsAt kind leaf good key hkey) good in
    rw (lower_bound-position kind leaf good key hkey, matches) (by_test _ b inserts)
  where
    by_test :
        (n : ℕ) (b : Bool)
        → Inserts kind key hkey tid leaf.keys leaf.values n b
        → (after : BtreeNode) × (with_tid leaf key tid n b ≡ some after)
          × IsInsertion kind leaf key tid after
    by_test n true (vs', e, len, tids) = (
      record leaf { values = vs' },
      rw e refl,
      record {
        is_leaf = record {
          typed = good.typed;
          ascending = good.ascending;
          paired = len ∙ good.paired;
        };
        tids = tids;
      },
    )
    by_test n false (is_leaf, tids) = (_, refl, record { is_leaf = is_leaf; tids = tids })

-- In a leaf whose keys ascend and are of the index's type, each with its list of tuples, `insertIntoLeaf` of a key of the
-- type does not panic and gives such a leaf again. A search in it gives, for the inserted key, the tuples that a
-- search gave before and the new one behind them, and for any other key of the type what it gave before.
pub insert_into_leaf-search_leaf :
    (kind : KeyKind) (leaf : BtreeNode) (key : Value) (tid : Tid)
    → IsKey kind key
    → IsLeaf kind leaf.keys leaf.values
    → (after : BtreeNode) × (insert_into_leaf kind leaf key tid ≡ some after)
      × IsLeaf kind after.keys after.values
      × ((k : Value)
          → IsKey kind k
          → (before : List Tid) × (search_leaf kind leaf k ≡ some before)
            × (search_leaf kind after k
                ≡ some (if is_same (compare_keys kind key k) then before ++ tid ∷ [] else before)))
insert_into_leaf-search_leaf kind leaf key tid hkey good =
    let (after, e, inserted) = insert_into_leaf-IsInsertion kind leaf key tid hkey good in
    (
      after,
      e,
      inserted.is_leaf,
      λ k hk. (
        tids_of kind leaf.keys leaf.values k,
        search_leaf-tids_of kind leaf good k hk,
        search_leaf-tids_of kind after inserted.is_leaf k hk ∙ ap some (inserted.tids k hk),
      ),
    )
