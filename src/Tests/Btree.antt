-- ===== src/Tests/Btree.antt =====
-- Runs and theorems on the B-tree index at fixed inputs.
use gopher_db.Base.Int.{pos, negsuc}
use gopher_db.Base.Select.{All}
use gopher_db.Base.Outcome.{ok}
use gopher_db.Base.{
  ℕ, ◌≡◌, refl, true, List, [], ◌∷◌, ◌++◌, some, arith, length, replicate, length-replicate,
  if◌then◌else◌,
}
use gopher_db.Bytes.Copy.{Bytes}
use gopher_db.Index.Bounds.{count_signs, lower_bound-upper_bound}
use gopher_db.Index.Insertion.{insert_into_leaf-search_leaf}
use gopher_db.Index.Keys.{
  int64_key, compare_keys, lower_bound, upper_bound, is_negative, is_not_positive,
}
use gopher_db.Index.Leaf.{insert_into_leaf, search_leaf}
use gopher_db.Index.Node.{
  Tid, BtreeNode, keys_size, key_size, values_size, estimate_size, write_node, read_node,
}
use gopher_db.Index.NodeCodec.{read_node-write_node}
use gopher_db.Index.NodeReads.{IsNode}
use gopher_db.Index.Order.{IsKey, Ascending}
use gopher_db.Index.Position.{IsLeaf, is_same}
use gopher_db.Memory.Page.{page_size}
use gopher_db.Value.{Value, int64}

abbrev tid_at : ℕ → Tid
tid_at n = record { page_id = pos 1; slot_id = pos n }

abbrev two_keys : BtreeNode
two_keys = record {
  page_id = pos 1;
  is_leaf = true;
  parent_page_id = negsuc 0;
  left_sib_page_id = negsuc 0;
  right_sib_page_id = negsuc 0;
  keys = int64 (pos 10) ∷ int64 (pos 30) ∷ [];
  values = (tid_at 0 ∷ []) ∷ (tid_at 1 ∷ tid_at 2 ∷ []) ∷ [];
  children = [];
}

two_keys-typed : All (IsKey int64_key) two_keys.keys
two_keys-typed = ((pos 10, refl), ((pos 30, refl), tt))

two_keys-Ascending : Ascending int64_key two_keys.keys
unfolding compare_keys
two_keys-Ascending = ((refl, tt), (tt, tt))

two_keys-IsLeaf : IsLeaf int64_key two_keys.keys two_keys.values
two_keys-IsLeaf = record { typed = two_keys-typed; ascending = two_keys-Ascending; paired = refl }

two_keys-IsNode : IsNode int64_key two_keys
two_keys-IsNode = record {
  parent_fits = ground arith;
  left_fits = ground arith;
  right_fits = ground arith;
  keys_stored = (ground arith, (ground arith, tt));
  key_count = ground arith;
  shape = (
    refl,
    (
      (ground arith, ((ground arith, ground arith), tt)),
      ((ground arith, ((ground arith, ground arith), ((ground arith, ground arith), tt))), tt),
    ),
    refl,
  );
}

two_keys-size : estimate_size int64_key two_keys ≡ some 76
unfolding estimate_size keys_size key_size values_size
two_keys-size = refl

lower_bound-upper_bound_example :
    (lower_bound int64_key two_keys.keys (int64 (pos 30))
      ≡ some (count_signs is_negative int64_key two_keys.keys (int64 (pos 30))))
    × (upper_bound int64_key two_keys.keys (int64 (pos 30))
        ≡ some (count_signs is_not_positive int64_key two_keys.keys (int64 (pos 30))))
lower_bound-upper_bound_example =
    lower_bound-upper_bound int64_key two_keys.keys (int64 (pos 30)) (pos 30, refl) two_keys-typed
      two_keys-Ascending

insert_into_leaf-search_leaf_example :
    (after : BtreeNode) × (insert_into_leaf int64_key two_keys (int64 (pos 20)) (tid_at 3)
      ≡ some after)
    × IsLeaf int64_key after.keys after.values
    × ((k : Value)
        → IsKey int64_key k
        → (before : List Tid) × (search_leaf int64_key two_keys k ≡ some before)
          × (search_leaf int64_key after k
              ≡ some (
                  if is_same (compare_keys int64_key (int64 (pos 20)) k)
                  then before ++ tid_at 3 ∷ []
                  else before)))
insert_into_leaf-search_leaf_example =
    insert_into_leaf-search_leaf int64_key two_keys (int64 (pos 20)) (tid_at 3) (pos 20, refl)
      two_keys-IsLeaf

read_node-write_node_example :
    (out : Bytes) × (write_node int64_key two_keys (replicate page_size 0) ≡ some out)
    × (length out ≡ page_size)
    × (read_node {E = Unit} int64_key (pos 1) out ≡ ok two_keys)
read_node-write_node_example =
    read_node-write_node int64_key two_keys (replicate page_size 0) 76 two_keys-IsNode
      (length-replicate page_size 0) two_keys-size (ground arith)
