-- ===== src/Index/NodeCodec.antt =====
-- A node that `estimateSize` admits is written to its page and read back.
use gopher_db.Base.Outcome.{ok}
use gopher_db.Base.{
  ℕ, ◌+◌, ◌≤◌, ◌≡◌, refl, sym, ap, subst, ◌∙◌, Bool, true, false, ◌++◌, some, arith, length,
  flatten, take, drop, le→leb, get_elem?, length-take, take-append-drop, get_elem?-append_lt,
}
use gopher_db.Bytes.BigEndian.{put_u32}
use gopher_db.Bytes.Copy.{
  Bytes, copy_at, fill, length-copy_at, fill-window, length-fill, get_elem?-copy_at,
}
use gopher_db.Index.Keys.{KeyKind}
use gopher_db.Index.Node.{
  BtreeNode, page_capacity, node_is_leaf_off, node_parent_off, estimate_size, node_pieces,
  leaf_flag, write_node, read_fields_of_node, flag_at, read_node,
}
use gopher_db.Memory.Page.{page_size}
use gopher_db.Index.NodeReads.{IsNode, Reads-node}
use gopher_db.Index.NodeSizes.{estimate_size-exact, all_asserted-stored}

flag_at-leaf_flag :
    (leaf : Bool) (buf : Bytes)
    → 15 ≤ length buf
    → flag_at (get_elem? (copy_at node_is_leaf_off (leaf_flag leaf) buf) node_is_leaf_off) ≡ leaf
flag_at-leaf_flag true buf h = rw (get_elem?-copy_at node_is_leaf_off 1 buf h)
flag_at-leaf_flag false buf h = rw (get_elem?-copy_at node_is_leaf_off 0 buf h)

-- `pre` is what stands before the node's fields: the flag is in it, and the fields are read behind it
read_node-inside :
    {E : Type 0} (kind : KeyKind) (node : BtreeNode) (pre rest : Bytes)
    → IsNode kind node
    → length pre ≡ node_parent_off
    → flag_at (get_elem? pre node_is_leaf_off) ≡ node.is_leaf
    → read_node {E = E} kind node.page_id (pre ++ (flatten (node_pieces kind node) ++ rest))
      ≡ ok node
unfolding read_node
read_node-inside {E} kind node pre rest h len flag =
    let reads = (Reads-node kind node h {E = E}).apply pre rest in
    let whole = pre ++ (flatten (node_pieces kind node) ++ rest) in
    let flag_whole : flag_at (get_elem? whole node_is_leaf_off) ≡ node.is_leaf =
      ap flag_at (
        get_elem?-append_lt pre (flatten (node_pieces kind node) ++ rest) node_is_leaf_off
          (omega (arith, len)))
      ∙ flag in
    rw (
      flag_whole,
      subst
          (λ n.
            read_fields_of_node {E = E} kind node.page_id node.is_leaf whole n
            ≡ ok (node, length pre + length (flatten (node_pieces kind node))))
          len reads,
    )

-- A node whose estimated size is within a page's capacity, with fields in the ranges of their Go types, is written to
-- any page without a panic and without a change of the page's size, and `readNode` gives the node back.
pub read_node-write_node :
    {E : Type 0} (kind : KeyKind) (node : BtreeNode) (buf : Bytes) (n : ℕ)
    → IsNode kind node
    → length buf ≡ page_size
    → estimate_size kind node ≡ some n
    → n ≤ page_capacity
    → (out : Bytes) × (write_node kind node buf ≡ some out)
      × (length out ≡ page_size)
      × (read_node {E = E} kind node.page_id out ≡ ok node)
unfolding write_node
read_node-write_node {E} kind node buf n h size estimated small = (
  fill node_parent_off (node_pieces kind node) prepared,
  written,
  length-fill node_parent_off _ prepared ∙ prepared_length,
  ap (read_node kind node.page_id)
        (fill-window (node_pieces kind node) node_parent_off prepared room)
      ∙ read_node-inside kind node (take node_parent_off prepared) _ h pre_length pre_flag,
)
  where
    enc : Bytes
    enc = flatten (node_pieces kind node)

    marked : Bytes
    marked = copy_at 10 (put_u32 0x424e_4f44) buf

    prepared : Bytes
    prepared = copy_at node_is_leaf_off (leaf_flag node.is_leaf) marked

    fits : node_parent_off + length enc ≤ page_size
    fits = omega (arith, some_injective (sym estimated ∙ estimate_size-exact kind node h))
      where
        some_injective : {a b : ℕ} → some a ≡ some b → a ≡ b
        some_injective e = cc

    marked_length : length marked ≡ page_size
    marked_length = length-copy_at 10 (put_u32 0x424e_4f44) buf ∙ size

    prepared_length : length prepared ≡ page_size
    prepared_length =
        length-copy_at node_is_leaf_off (leaf_flag node.is_leaf) marked ∙ marked_length

    room : node_parent_off + length enc ≤ length prepared
    room = omega (arith, fits, prepared_length)

    pre_length : length (take node_parent_off prepared) ≡ node_parent_off
    pre_length = omega (arith, length-take node_parent_off prepared, prepared_length)

    pre_flag : flag_at (get_elem? (take node_parent_off prepared) node_is_leaf_off) ≡ node.is_leaf
    pre_flag =
        ap flag_at (
          sym (
            get_elem?-append_lt (take node_parent_off prepared) (drop node_parent_off prepared)
              node_is_leaf_off (omega (arith, pre_length)))
          ∙ ap (λ b. get_elem? b node_is_leaf_off) (take-append-drop node_parent_off prepared))
        ∙ flag_at-leaf_flag node.is_leaf marked (omega (arith, marked_length))

    written :
        write_node kind node buf ≡ some (fill node_parent_off (node_pieces kind node) prepared)
    written =
        rw
          (
            all_asserted-stored kind node.keys h.keys_stored,
            size,
            le→leb (node_parent_off + length enc) page_size fits,
          )
          refl
