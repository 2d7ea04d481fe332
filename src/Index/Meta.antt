-- ===== src/Index/Meta.antt =====
-- The meta page of `internal/core/index/disk_btree_index.go`: `writeMeta` and `loadMeta` on the page's buffer.
use gopher_db.Base.Int.{ℤ, pos, eq_ℤ, Fits, half_32}
use gopher_db.Base.Outcome.{Outcome, ok, err, panic}
use gopher_db.Base.{
  ℕ, ◌+◌, ◌≤◌, ◌≡◌, refl, subst, ◌∙◌, Bool, true, false, List, [], ◌∷◌, ◌++◌, Option, none, some,
  arith, length, flatten, take, drop, leb, if◌then◌else◌, length-take,
}
use gopher_db.Base.Outcome
use gopher_db.Bytes.Copy.{Bytes, fill, fill-window, length-fill}
use gopher_db.Bytes.Reader.{
  Reader, ◌>>=◌, pure, read_i32, put_i32, Reads, Reads-pure, Reads->>=, Reads-i32,
}
use gopher_db.Index.Search.{BtreeMeta}
use gopher_db.Memory.Page.{page_size}

pub data MetaError : Type 0 where
  bad_magic unsupported_version : MetaError

abbrev btree_magic : ℤ
btree_magic = pos 0x4249_4458

abbrev btree_version : ℤ
btree_version = pos 1

-- `btreeMetaMagicOff`; the other fields follow, four bytes each
abbrev meta_magic_off : ℕ
meta_magic_off = 10

abbrev pub meta_pieces : BtreeMeta → List Bytes
meta_pieces meta =
    put_i32 btree_magic
    ∷ put_i32 btree_version
    ∷ put_i32 meta.root_page_id
    ∷ put_i32 meta.height
    ∷ put_i32 meta.leftmost_leaf_id
    ∷ put_i32 meta.next_page_id
    ∷ []

-- `none` is a panic, where the page is too short
unfoldable pub write_meta : BtreeMeta → Bytes → Option Bytes
write_meta meta buf =
    if leb (meta_magic_off + length (flatten (meta_pieces meta))) (length buf)
    then some (fill meta_magic_off (meta_pieces meta) buf)
    else none

-- a test before the rest is read
abbrev pub demand : {A : Type 0} → Bool → MetaError → Reader MetaError A → Reader MetaError A
demand true e next = next
demand false e next = λ buf off. err e

unfoldable pub read_meta : Reader MetaError BtreeMeta
read_meta = read_i32 >>= λ magic. demand (eq_ℤ magic btree_magic) bad_magic (
    read_i32 >>= λ version. demand (eq_ℤ version btree_version) unsupported_version (
      read_i32 >>= λ root. read_i32 >>= λ height. read_i32 >>= λ leftmost. read_i32 >>= λ next.
      pure (record {
        root_page_id = root;
        height = height;
        leftmost_leaf_id = leftmost;
        next_page_id = next;
      })))

unfoldable pub load_meta : Bytes → Outcome MetaError BtreeMeta
load_meta buf = Outcome.◌>>=◌ (read_meta buf meta_magic_off) λ r. ok r.0

pub record IsMeta (meta : BtreeMeta) : Type 0 where
  pub root_fits : Fits half_32 meta.root_page_id
  pub height_fits : Fits half_32 meta.height
  pub leftmost_fits : Fits half_32 meta.leftmost_leaf_id
  pub next_fits : Fits half_32 meta.next_page_id

Reads-meta : (meta : BtreeMeta) → IsMeta meta → Reads read_meta (flatten (meta_pieces meta)) meta
unfolding read_meta
Reads-meta meta h =
    Reads->>= read_i32 _ (put_i32 btree_magic) _ (Reads-i32 btree_magic (ground arith)) (
      Reads->>= read_i32 _ (put_i32 btree_version) _ (Reads-i32 btree_version (ground arith)) (
        Reads->>= read_i32 _ (put_i32 meta.root_page_id) _ (Reads-i32 meta.root_page_id h.root_fits)
          (Reads->>= read_i32 _ (put_i32 meta.height) _ (Reads-i32 meta.height h.height_fits) (
            Reads->>= read_i32 _ (put_i32 meta.leftmost_leaf_id) _
              (Reads-i32 meta.leftmost_leaf_id h.leftmost_fits)
              (Reads->>= read_i32 _ (put_i32 meta.next_page_id) []
                (Reads-i32 meta.next_page_id h.next_fits) (Reads-pure meta))))))

-- The meta page that is written, with fields in the range of `int32`, is loaded again, from any page.
load_meta-write_meta :
    (meta : BtreeMeta) (buf : Bytes)
    → IsMeta meta
    → length buf ≡ page_size
    → (out : Bytes) × (write_meta meta buf ≡ some out)
      × (length out ≡ page_size)
      × (load_meta out ≡ ok meta)
unfolding write_meta load_meta
load_meta-write_meta meta buf h size = (
  fill meta_magic_off (meta_pieces meta) buf,
  rw (size) refl,
  length-fill _ _ buf ∙ size,
  rw (fill-window (meta_pieces meta) meta_magic_off buf room) (rw loaded refl),
)
  where
    room : meta_magic_off + length (flatten (meta_pieces meta)) ≤ length buf
    room = omega (arith, size)

    enc : Bytes
    enc = flatten (meta_pieces meta)

    rest : Bytes
    rest = drop (length enc) (drop meta_magic_off buf)

    at_offset : length (take meta_magic_off buf) ≡ meta_magic_off
    at_offset = omega (arith, length-take meta_magic_off buf, size)

    loaded :
        read_meta (take meta_magic_off buf ++ (enc ++ rest)) meta_magic_off
        ≡ ok (meta, meta_magic_off + length enc)
    loaded =
        subst
          (λ n. read_meta (take meta_magic_off buf ++ (enc ++ rest)) n ≡ ok (meta, n + length enc))
          at_offset ((Reads-meta meta h).apply (take meta_magic_off buf) rest)
