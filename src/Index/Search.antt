-- ===== src/Index/Search.antt =====
-- `findLeaf`, `Search` and `RangeSearch` of `internal/core/index/disk_btree_index.go`. `read` is `readNode` over the buffer
-- pool's content, which a search does not change. The fuel bounds the nodes that a descent or a chain of leaves reads.
use gopher_db.Base.Int.{ℤ, pos, negsuc, eq_ℤ, lt_ℤ}
use gopher_db.Base.Outcome.{Outcome, ok, err, panic}
use gopher_db.Base.{
  ℕ, zero, suc, Bool, true, false, ◌&&◌, ◌||◌, not, List, [], ◌∷◌, ◌++◌, Option, none, some,
  get_elem?, drop, if◌then◌else◌,
}
use gopher_db.Base.Outcome
use gopher_db.Execution.{◌>>=◌}
use gopher_db.Index.Keys.{KeyKind, compare_keys, lower_bound, upper_bound}
use gopher_db.Index.Leaf.{search_leaf}
use gopher_db.Index.Node.{Tid, BtreeNode}
use gopher_db.Value.{Value, nil}

-- `idx.meta`
pub record BtreeMeta : Type 0 where
  pub root_page_id : ℤ
  pub height : ℤ
  pub leftmost_leaf_id : ℤ
  pub next_page_id : ℤ

-- a run-time panic in what gives no error
abbrev pub or_panic : {E A : Type 0} → Option A → Outcome E A
or_panic none = panic
or_panic (some a) = ok a

-- a bound that is not nil
abbrev pub is_bound : Value → Bool
is_bound nil = false
is_bound _ = true

-- what is done with a key's comparison with a bound, where there is one
abbrev pub on_bound : KeyKind → Value → Value → (ℤ → Bool) → Option Bool
on_bound kind k bound test =
    if is_bound bound then (compare_keys kind k bound >>= λ cmp. some (test cmp)) else some false

-- the key is in front of the range
abbrev pub is_before : Bool → ℤ → Bool
is_before from_inclusive cmp = lt_ℤ cmp (pos 0) || (not from_inclusive && eq_ℤ cmp (pos 0))

-- the key is behind the range
abbrev pub is_behind : Bool → ℤ → Bool
is_behind to_inclusive cmp = lt_ℤ (pos 0) cmp || (not to_inclusive && eq_ℤ cmp (pos 0))

pub record Limits : Type 0 where
  pub from : Value
  pub from_inclusive : Bool
  pub to : Value
  pub to_inclusive : Bool

-- the inner loop, from the keys and lists that are left; the second component says that it did not return from the whole
abbrev pub after_stop :
    Option (List Tid) → Option (List Tid × Bool) → Bool → Option (List Tid × Bool)
after_stop tids next true = some ([], false)
after_stop tids next false = tids >>= λ these. next >>= λ r. some (these ++ r.0, r.1)

abbrev pub after_key :
    Bool → Option Bool → Option (List Tid) → Option (List Tid × Bool) → Option (List Tid × Bool)
after_key true stops tids next = next
after_key false stops tids next = stops >>= after_stop tids next

unfoldable pub scan_leaf :
    KeyKind → Limits → List Value → List (List Tid) → Option (List Tid × Bool)
scan_leaf kind limits [] values = some ([], true)
scan_leaf kind limits (k ∷ ks) values =
    let next = scan_leaf kind limits ks (drop 1 values) in
    on_bound kind k limits.from (is_before limits.from_inclusive) >>= λ skips.
    after_key skips (on_bound kind k limits.to (is_behind limits.to_inclusive)) (get_elem? values 0)
      next

abbrev pub after_leaf : {E : Type 0} → List Tid × Bool → Outcome E (List Tid) → Outcome E (List Tid)
after_leaf (tids, false) next = ok tids
after_leaf (tids, true) next = Outcome.◌>>=◌ next λ more. ok (tids ++ more)

-- the outer loop
unfoldable pub scan_chain :
    {E : Type 0} → ℕ → (ℤ → Outcome E BtreeNode) → KeyKind → Limits → ℤ → ℕ → Outcome E (List Tid)
scan_chain zero read kind limits current n = panic
scan_chain (suc fuel) read kind limits current n =
    let rest = Outcome.◌>>=◌ (read current) λ leaf.
      let more = scan_chain fuel read kind limits leaf.right_sib_page_id 0 in
      Outcome.◌>>=◌ (or_panic (scan_leaf kind limits (drop n leaf.keys) (drop n leaf.values)))
        λ r. after_leaf r more in
    if eq_ℤ current (negsuc 0) then ok [] else rest

-- the error of a read is dropped, and the missing node then makes a panic
abbrev pub must : {E A : Type 0} → Outcome E A → Outcome E A
must (ok a) = ok a
must (err e) = panic
must panic = panic

-- `findLeaf`; the path, which only `Insert` asks for, is left out
unfoldable pub find_leaf :
    {E : Type 0} → ℕ → (ℤ → Outcome E BtreeNode) → KeyKind → Value → ℤ → Outcome E BtreeNode
find_leaf zero read kind key current = panic
find_leaf (suc fuel) read kind key current = Outcome.◌>>=◌ (must (read current)) λ node.
    let next =
      Outcome.◌>>=◌ (or_panic (upper_bound kind node.keys key >>= λ n. get_elem? node.children n))
        λ child. find_leaf fuel read kind key child in
    if node.is_leaf then ok node else next

unfoldable pub search :
    {E : Type 0}
    → ℕ
    → (ℤ → Outcome E BtreeNode)
    → KeyKind
    → BtreeMeta
    → Value
    → Outcome E (List Tid)
search fuel read kind meta key =
    Outcome.◌>>=◌ (find_leaf fuel read kind key meta.root_page_id)
      λ leaf. or_panic (search_leaf kind leaf key)

-- `from != nil && to != nil && idx.compareKeys(from, to) > 0`
abbrev pub is_reversed : KeyKind → Limits → Option Bool
is_reversed kind limits =
    if is_bound limits.from
    then on_bound kind limits.from limits.to (λ cmp. lt_ℤ (pos 0) cmp)
    else some false

-- the leaf and the position where the scan starts
abbrev pub scan_start :
    {E : Type 0} → ℕ → (ℤ → Outcome E BtreeNode) → KeyKind → BtreeMeta → Value → Outcome E (ℤ × ℕ)
scan_start fuel read kind meta from =
    if is_bound from
    then (Outcome.◌>>=◌ (find_leaf fuel read kind from meta.root_page_id) λ leaf.
        Outcome.◌>>=◌ (or_panic (lower_bound kind leaf.keys from)) λ n. ok (leaf.page_id, n))
    else ok (meta.leftmost_leaf_id, 0)

unfoldable pub range_search :
    {E : Type 0}
    → ℕ
    → (ℤ → Outcome E BtreeNode)
    → KeyKind
    → BtreeMeta
    → Limits
    → Outcome E (List Tid)
range_search fuel read kind meta limits =
    Outcome.◌>>=◌ (or_panic (is_reversed kind limits)) λ reversed.
      let found =
        Outcome.◌>>=◌ (scan_start fuel read kind meta limits.from)
          λ start. scan_chain fuel read kind limits start.0 start.1 in
      if reversed then ok [] else found
