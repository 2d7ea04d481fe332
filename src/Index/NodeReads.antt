-- ===== src/Index/NodeReads.antt =====
-- The fields of a written node are read back one behind the other.
use gopher_db.Base.Int.{
  ℤ, Fits, signed, unsigned, half_16, half_32, half_64, signed-unsigned_16, unsigned_16-lt,
  signed-unsigned_64, unsigned_64-lt,
}
use gopher_db.Base.Select.{All}
use gopher_db.Base.{
  ℕ, suc, ◌^◌, ◌<◌, ◌≡◌, refl, sym, ap, subst, ◌∙◌, Bool, true, false, List, [], ◌∷◌, ◌++◌, map,
  length, flatten, if◌then◌else◌, append_assoc, append-nil,
}
use gopher_db.Bytes.BigEndian.{put_u16, put_u32, put_u64}
use gopher_db.Bytes.Copy.{Bytes}
use gopher_db.Bytes.Reader.{
  Reader, ◌>>=◌, pure, read_u16, read_u32, read_u64, read_i32, read_bytes, put_i32, Reads,
  Reads-pure, Reads->>=, Reads-u16, Reads-u32, Reads-u64, Reads-bytes, Reads-i32,
}
use gopher_db.Index.Keys.{KeyKind, int64_key, varchar_key, other_key}
use gopher_db.Index.Node.{
  Tid, BtreeNode, key_bytes, decode_key, tid_bytes, tids_bytes, rest_bytes, node_pieces, read_times,
  read_tid, read_tids, read_rest, read_fields_of_node,
}
use gopher_db.Value.{Value, nil, int64, string, boolean}

-- a key in the range of its Go type
abbrev pub IsStoredKey : KeyKind → Value → Type 0
IsStoredKey int64_key (int64 n) = Fits half_64 n
IsStoredKey int64_key _ = ⊥
IsStoredKey varchar_key (string s) = length s < 2 ^ 16
IsStoredKey varchar_key _ = ⊥
IsStoredKey other_key v = ⊥

abbrev pub IsTid : Tid → Type 0
IsTid tid = Fits half_32 tid.page_id × Fits half_16 tid.slot_id

abbrev pub AreTids : List Tid → Type 0
AreTids tids = (length tids < 2 ^ 32) × All IsTid tids

-- a leaf has a list for each key and no child, an inner node a child more than keys and no list
abbrev pub IsShape : Bool → ℕ → List (List Tid) → List ℤ → Type 0
IsShape true n values children = (length values ≡ n) × All AreTids values × (children ≡ [])
IsShape false n values children =
    (length children ≡ suc n) × All (Fits half_32) children × (values ≡ [])

-- The fields have the ranges of their Go types, and the lists fit one another.
pub record IsNode (kind : KeyKind) (node : BtreeNode) : Type 0 where
  pub parent_fits : Fits half_32 node.parent_page_id
  pub left_fits : Fits half_32 node.left_sib_page_id
  pub right_fits : Fits half_32 node.right_sib_page_id
  pub keys_stored : All (IsStoredKey kind) node.keys
  pub key_count : length node.keys < 2 ^ 32
  pub shape : IsShape node.is_leaf (length node.keys) node.values node.children

module _ {E : Type 0} where
  -- a reader, with what is made of its result
  Reads-map :
      {A B : Type 0} (r : Reader E A) (f : A → B) (enc : Bytes) {a : A}
      → Reads r enc a
      → Reads (r >>= λ x. pure (f x)) enc (f a)
  Reads-map r f enc {a} h =
      subst (λ e. Reads (r >>= λ x. pure (f x)) e (f a)) (append-nil enc)
        (Reads->>= r (λ x. pure (f x)) enc [] h (Reads-pure (f a)))

  Reads-key :
      (kind : KeyKind) (v : Value)
      → IsStoredKey kind v
      → Reads {E = E} (decode_key kind) (key_bytes kind v) v
  unfolding decode_key key_bytes
  Reads-key int64_key (int64 n) h =
      subst (λ w. Reads {E = E} (decode_key int64_key) (put_u64 (unsigned half_64 n)) (int64 w))
        (signed-unsigned_64 n h)
        (Reads-map read_u64 (λ w. int64 (signed half_64 w)) _
          (Reads-u64 (unsigned half_64 n) (unsigned_64-lt n)))
  Reads-key int64_key nil h = absurd h
  Reads-key int64_key (string s) h = absurd h
  Reads-key int64_key (boolean b) h = absurd h
  Reads-key varchar_key (string s) h =
      Reads->>= read_u16 _ (put_u16 (length s)) s (Reads-u16 (length s) h)
        (Reads-map (read_bytes (length s)) string s (Reads-bytes (length s) s refl))
  Reads-key varchar_key nil h = absurd h
  Reads-key varchar_key (int64 n) h = absurd h
  Reads-key varchar_key (boolean b) h = absurd h
  Reads-key other_key v h = absurd h

  Reads-times :
      {A : Type 0} (item : Reader E A) (enc : A → Bytes) (P : A → Type 0)
      → ((a : A) → P a → Reads item (enc a) a)
      → (as' : List A) → All P as'
      → Reads (read_times (length as') item) (flatten (map enc as')) as'
  unfolding read_times
  Reads-times item enc P h [] all = Reads-pure []
  Reads-times item enc P h (a ∷ as') (pa, all) =
      Reads->>= item _ (enc a) (flatten (map enc as')) (h a pa) (
        Reads-map (read_times (length as') item) (λ more. a ∷ more) _
          (Reads-times item enc P h as' all))

  Reads-tid : (tid : Tid) → IsTid tid → Reads {E = E} read_tid (tid_bytes tid) tid
  unfolding read_tid
  Reads-tid tid (page_fits, slot_fits) =
      Reads->>= read_i32 _ (put_i32 tid.page_id) _ (Reads-i32 tid.page_id page_fits) (
        subst
          (λ z.
            Reads {E = E} {A = Tid}
              (read_u16 >>= λ w.
                pure (record { page_id = tid.page_id; slot_id = signed half_16 w }))
              (put_u16 (unsigned half_16 tid.slot_id))
              (record { page_id = tid.page_id; slot_id = z }))
          (signed-unsigned_16 tid.slot_id slot_fits)
          (Reads-map read_u16 (λ w. record { page_id = tid.page_id; slot_id = signed half_16 w }) _
            (Reads-u16 (unsigned half_16 tid.slot_id) (unsigned_16-lt tid.slot_id))))

  Reads-tids : (tids : List Tid) → AreTids tids → Reads {E = E} read_tids (tids_bytes tids) tids
  unfolding read_tids
  Reads-tids tids (short, all) =
      Reads->>= read_u32 _ (put_u32 (length tids)) _ (Reads-u32 (length tids) short)
        (Reads-times read_tid tid_bytes IsTid Reads-tid tids all)

  Reads-rest :
      (leaf : Bool) (n : ℕ) (values : List (List Tid)) (children : List ℤ)
      → IsShape leaf n values children
      → Reads {E = E}
          (read_rest leaf n)
          (flatten (if leaf then map tids_bytes values else map put_i32 children))
          (values, children)
  Reads-rest true n values children (same, all, e) =
      rw (← same, e)
        (Reads-map (read_times (length values) read_tids) (λ vs. (vs, [])) _
          (Reads-times read_tids tids_bytes AreTids Reads-tids values all))
  Reads-rest false n values children (same, all, e) =
      rw (← same, e)
        (Reads-map (read_times (length children) read_i32) (λ cs. ([], cs)) _
          (Reads-times read_i32 put_i32 (Fits half_32) Reads-i32 children all))

pub flatten-append : (xs ys : List Bytes) → flatten (xs ++ ys) ≡ flatten xs ++ flatten ys
flatten-append [] ys = refl
flatten-append (x ∷ xs) ys =
    ap (λ more. x ++ more) (flatten-append xs ys) ∙ sym (append_assoc x (flatten xs) (flatten ys))

module _ (kind : KeyKind) (node : BtreeNode) (h : IsNode kind node) where
  pub Reads-node :
      {E : Type 0}
      → Reads {E = E}
          (read_fields_of_node kind node.page_id node.is_leaf)
          (flatten (node_pieces kind node))
          node
  unfolding read_fields_of_node node_pieces
  Reads-node {E} =
      Reads->>= read_i32 _ (put_i32 node.parent_page_id) _
        (Reads-i32 node.parent_page_id h.parent_fits)
        (Reads->>= read_i32 _ (put_i32 node.left_sib_page_id) _
          (Reads-i32 node.left_sib_page_id h.left_fits)
          (Reads->>= read_i32 _ (put_i32 node.right_sib_page_id) _
            (Reads-i32 node.right_sib_page_id h.right_fits)
            (Reads->>= read_u32 _ (put_u32 (length node.keys)) _
              (Reads-u32 (length node.keys) h.key_count)
              (rw (flatten-append (map (key_bytes kind) node.keys) (rest_bytes node)) (
                Reads->>= (read_times (length node.keys) (decode_key kind)) _
                  (flatten (map (key_bytes kind) node.keys)) _
                  (Reads-times (decode_key kind) (key_bytes kind) (IsStoredKey kind)
                    (Reads-key kind) node.keys h.keys_stored)
                  (Reads-map (read_rest node.is_leaf (length node.keys)) _ _ (
                    Reads-rest node.is_leaf (length node.keys) node.values node.children
                      h.shape)))))))
