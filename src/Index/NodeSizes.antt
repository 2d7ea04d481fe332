-- ===== src/Index/NodeSizes.antt =====
-- `estimateSize` is the size of the written node.
use gopher_db.Base.Int.{ℤ}
use gopher_db.Base.Select.{All}
use gopher_db.Base.{
  ◌+◌, ◌*◌, ◌≡◌, refl, ap, Bool, true, false, List, [], ◌∷◌, map, some, arith, length, flatten,
  if◌then◌else◌, length-append,
}
use gopher_db.Bytes.Reader.{put_i32}
use gopher_db.Index.Keys.{KeyKind, int64_key, varchar_key, other_key}
use gopher_db.Index.Node.{
  Tid, tid_size, BtreeNode, node_parent_off, asserted, key_bytes, key_size, keys_size, values_size,
  estimate_size, all_asserted, tid_bytes, tids_bytes, rest_bytes, node_pieces,
}
use gopher_db.Value.{Value, nil, int64, string, boolean}
use gopher_db.Index.NodeReads.{IsStoredKey, IsNode, flatten-append}

key_size-length :
    (kind : KeyKind) (v : Value)
    → IsStoredKey kind v
    → key_size kind v ≡ some (length (key_bytes kind v))
unfolding key_size key_bytes
key_size-length int64_key (int64 n) h = refl
key_size-length int64_key nil h = absurd h
key_size-length int64_key (string s) h = absurd h
key_size-length int64_key (boolean b) h = absurd h
key_size-length varchar_key (string s) h = ap some (omega arith)
key_size-length varchar_key nil h = absurd h
key_size-length varchar_key (int64 n) h = absurd h
key_size-length varchar_key (boolean b) h = absurd h
key_size-length other_key v h = absurd h

keys_size-length :
    (kind : KeyKind) (ks : List Value)
    → All (IsStoredKey kind) ks
    → keys_size kind ks ≡ some (length (flatten (map (key_bytes kind) ks)))
unfolding keys_size
keys_size-length kind [] h = refl
keys_size-length kind (k ∷ ks) (hk, hks) =
    rw (key_size-length kind k hk, keys_size-length kind ks hks)
      (ap some
        (omega (arith, length-append (key_bytes kind k) (flatten (map (key_bytes kind) ks)))))

length-tids : (tids : List Tid) → length (flatten (map tid_bytes tids)) ≡ length tids * tid_size
length-tids [] = refl
length-tids (tid ∷ tids) =
    omega (arith, length-append (tid_bytes tid) (flatten (map tid_bytes tids)), length-tids tids)

values_size-length :
    (values : List (List Tid)) → values_size values ≡ length (flatten (map tids_bytes values))
unfolding values_size
values_size-length [] = refl
values_size-length (tids ∷ values) = omega (
  arith,
  length-append (tids_bytes tids) (flatten (map tids_bytes values)),
  length-tids tids,
  values_size-length values,
)

length-children :
    (children : List ℤ) → length children * 4 ≡ length (flatten (map put_i32 children))
length-children [] = refl
length-children (c ∷ cs) =
    omega (arith, length-append (put_i32 c) (flatten (map put_i32 cs)), length-children cs)

rest_size-length :
    (leaf : Bool) (values : List (List Tid)) (children : List ℤ)
    → (if leaf then values_size values else length children * 4)
      ≡ length (flatten (if leaf then map tids_bytes values else map put_i32 children))
rest_size-length true values children = values_size-length values
rest_size-length false values children = length-children children

pub all_asserted-stored :
    (kind : KeyKind) (ks : List Value) → All (IsStoredKey kind) ks → all_asserted kind ks ≡ true
unfolding all_asserted
all_asserted-stored kind [] h = refl
all_asserted-stored kind (k ∷ ks) (hk, hks) = rw (one kind k hk, all_asserted-stored kind ks hks)
  where
    one : (kind : KeyKind) (v : Value) → IsStoredKey kind v → asserted kind v ≡ true
    one int64_key (int64 n) h = refl
    one int64_key nil h = absurd h
    one int64_key (string s) h = absurd h
    one int64_key (boolean b) h = absurd h
    one varchar_key (string s) h = refl
    one varchar_key nil h = absurd h
    one varchar_key (int64 n) h = absurd h
    one varchar_key (boolean b) h = absurd h
    one other_key v h = absurd h

pub estimate_size-exact :
    (kind : KeyKind) (node : BtreeNode)
    → IsNode kind node
    → estimate_size kind node ≡ some (node_parent_off + length (flatten (node_pieces kind node)))
unfolding estimate_size node_pieces
estimate_size-exact kind node h = rw (keys_size-length kind node.keys h.keys_stored) (
    ap some (
      omega (
        arith,
        rest_size-length node.is_leaf node.values node.children,
        ap length (flatten-append (map (key_bytes kind) node.keys) (rest_bytes node)),
        length-append (flatten (map (key_bytes kind) node.keys)) (flatten (rest_bytes node)),
      )))
