-- ===== src/Index/Node.antt =====
-- The nodes of `internal/core/index/disk_btree_index.go` and their layout on a page, and `internal/core/index/tid.go`.
use gopher_db.Base.Int.{ℤ, signed, unsigned, half_16, half_64}
use gopher_db.Base.Outcome.{Outcome, ok, panic}
use gopher_db.Base.{
  ℕ, zero, suc, ◌+◌, ◌-◌, ◌*◌, Bool, true, false, ◌&&◌, List, [], ◌∷◌, ◌++◌, map, Option, none,
  some, length, flatten, leb, ◌==◌, if◌then◌else◌, get_elem?,
}
use gopher_db.Base.Outcome
use gopher_db.Bytes.BigEndian.{put_u16, put_u32, put_u64}
use gopher_db.Bytes.Copy.{Bytes, copy_at, fill}
use gopher_db.Bytes.Reader.{
  Reader, ◌>>=◌, pure, read_u16, read_u32, read_u64, read_i32, read_bytes, put_i32,
}
use gopher_db.Execution
use gopher_db.Index.Keys.{KeyKind, int64_key, varchar_key, other_key}
use gopher_db.Memory.Page.{page_size}
use gopher_db.Value.{Value, nil, int64, string}

pub record Tid : Type 0 where
  pub page_id : ℤ
  pub slot_id : ℤ

abbrev pub tid_size : ℕ
tid_size = 6

pub record BtreeNode : Type 0 where
  pub page_id : ℤ
  pub is_leaf : Bool
  pub parent_page_id : ℤ
  pub left_sib_page_id : ℤ
  pub right_sib_page_id : ℤ
  pub keys : List Value
  pub values : List (List Tid)
  pub children : List ℤ

-- `btreeHeapHeaderSize` and the offsets behind it
abbrev heap_header_size : ℕ
heap_header_size = 10

abbrev pub page_capacity : ℕ
page_capacity = page_size - heap_header_size

abbrev pub node_is_leaf_off : ℕ
node_is_leaf_off = 14

abbrev pub node_parent_off : ℕ
node_parent_off = 18

abbrev pub node_data_start_off : ℕ
node_data_start_off = 34

abbrev node_magic : ℕ
node_magic = 0x424e_4f44

-- the type assertion of `encodeKey`
abbrev pub asserted : KeyKind → Value → Bool
asserted int64_key (int64 n) = true
asserted int64_key _ = false
asserted varchar_key (string s) = true
asserted varchar_key _ = false
asserted other_key v = true

-- `encodeKey`; `uint16(len(s))` keeps the low bits of a length
unfoldable pub key_bytes : KeyKind → Value → Bytes
key_bytes int64_key (int64 n) = put_u64 (unsigned half_64 n)
key_bytes varchar_key (string s) = put_u16 (length s) ++ s
key_bytes _ _ = []

unfoldable pub decode_key : {E : Type 0} → KeyKind → Reader E Value
decode_key int64_key = read_u64 >>= λ w. pure (int64 (signed half_64 w))
decode_key varchar_key = read_u16 >>= λ n. read_bytes n >>= λ s. pure (string s)
decode_key other_key = pure nil

unfoldable pub key_size : KeyKind → Value → Option ℕ
key_size int64_key v = some 8
key_size varchar_key (string s) = some (2 + length s)
key_size varchar_key _ = none
key_size other_key v = some 0

unfoldable pub keys_size : KeyKind → List Value → Option ℕ
keys_size kind [] = some 0
keys_size kind (k ∷ ks) =
    Execution.◌>>=◌ (key_size kind k) λ n. Execution.◌>>=◌ (keys_size kind ks) λ m. some (n + m)

unfoldable pub values_size : List (List Tid) → ℕ
values_size [] = 0
values_size (tids ∷ more) = 4 + length tids * tid_size + values_size more

abbrev pub rest_size : BtreeNode → ℕ
rest_size node = if node.is_leaf then values_size node.values else length node.children * 4

unfoldable pub estimate_size : KeyKind → BtreeNode → Option ℕ
estimate_size kind node =
    Execution.◌>>=◌ (keys_size kind node.keys) λ n. some (node_data_start_off + n + rest_size node)

unfoldable pub all_asserted : KeyKind → List Value → Bool
all_asserted kind [] = true
all_asserted kind (k ∷ ks) = asserted kind k && all_asserted kind ks

abbrev pub tid_bytes : Tid → Bytes
tid_bytes tid = put_i32 tid.page_id ++ put_u16 (unsigned half_16 tid.slot_id)

abbrev pub tids_bytes : List Tid → Bytes
tids_bytes tids = put_u32 (length tids) ++ flatten (map tid_bytes tids)

-- what follows the keys: the lists of a leaf, or the children
abbrev pub rest_bytes : BtreeNode → List Bytes
rest_bytes node = if node.is_leaf then map tids_bytes node.values else map put_i32 node.children

-- what `writeNode` puts one behind the other from the parent's field on
unfoldable pub node_pieces : KeyKind → BtreeNode → List Bytes
node_pieces kind node =
    put_i32 node.parent_page_id
    ∷ put_i32 node.left_sib_page_id
    ∷ put_i32 node.right_sib_page_id
    ∷ put_u32 (length node.keys)
    ∷ (map (key_bytes kind) node.keys ++ rest_bytes node)

abbrev pub leaf_flag : Bool → Bytes
leaf_flag true = 1 ∷ []
leaf_flag false = 0 ∷ []

-- `writeNode` on the page's buffer; `none` is a panic, where a key is not of the index's type or the page too short
unfoldable pub write_node : KeyKind → BtreeNode → Bytes → Option Bytes
write_node kind node buf =
    if all_asserted kind node.keys
      && leb (node_parent_off + length (flatten (node_pieces kind node))) (length buf)
    then some (
        fill node_parent_off (node_pieces kind node) (
          copy_at node_is_leaf_off (leaf_flag node.is_leaf)
            (copy_at heap_header_size (put_u32 node_magic) buf)))
    else none

unfoldable pub read_times : {E A : Type 0} → ℕ → Reader E A → Reader E (List A)
read_times zero item = pure []
read_times (suc n) item = item >>= λ a. read_times n item >>= λ more. pure (a ∷ more)

unfoldable pub read_tid : {E : Type 0} → Reader E Tid
read_tid = read_i32 >>= λ page_id.
    read_u16 >>= λ w. pure (record { page_id = page_id; slot_id = signed half_16 w })

unfoldable pub read_tids : {E : Type 0} → Reader E (List Tid)
read_tids = read_u32 >>= λ n. read_times n read_tid

abbrev pub read_rest : {E : Type 0} → Bool → ℕ → Reader E (List (List Tid) × List ℤ)
read_rest true n = read_times n read_tids >>= λ values. pure (values, [])
read_rest false n = read_times (suc n) read_i32 >>= λ children. pure ([], children)

unfoldable pub read_fields_of_node : {E : Type 0} → KeyKind → ℤ → Bool → Reader E BtreeNode
read_fields_of_node kind page_id leaf = read_i32 >>= λ parent. read_i32 >>= λ left.
    read_i32 >>= λ right. read_u32 >>= λ key_count.
    read_times key_count (decode_key kind) >>= λ keys. read_rest leaf key_count >>= λ rest.
    pure (record {
      page_id = page_id;
      is_leaf = leaf;
      parent_page_id = parent;
      left_sib_page_id = left;
      right_sib_page_id = right;
      keys = keys;
      values = rest.0;
      children = rest.1;
    })

abbrev pub flag_at : Option ℕ → Bool
flag_at none = false
flag_at (some b) = b == 1

-- `readNode` on the page's buffer, which is a whole page
unfoldable pub read_node : {E : Type 0} → KeyKind → ℤ → Bytes → Outcome E BtreeNode
read_node kind page_id buf =
    Outcome.◌>>=◌
      (read_fields_of_node kind page_id (flag_at (get_elem? buf node_is_leaf_off)) buf
        node_parent_off)
      λ r. ok r.0
