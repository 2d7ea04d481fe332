-- ===== src/Catalog/IndexDefinition.antt =====
-- `internal/core/catalog/model/index_definition.go` and `internal/core/types/index_type.go`.
use gopher_db.Base.{
  ◌+◌, ◌*◌, ◌≤◌, ◌≡◌, refl, ap, ◌||◌, List, [], ◌∷◌, ◌++◌, arith, length, flatten, replicate,
  length-append, ltb, le→ltb-false, if◌then◌else◌,
}
use gopher_db.Base.Int.{ℤ, pos, Fits, half_32}
use gopher_db.Base.Outcome.{Outcome, ok, err}
use gopher_db.Base.Outcome
use gopher_db.Bytes.BigEndian.{put_u16}
use gopher_db.Bytes.Compare.{eq_bytes}
use gopher_db.Bytes.Copy.{Bytes, fill, fill-flatten}
use gopher_db.Bytes.Reader.{
  Reader, Reads, Reads-pure, Reads->>=, Reads-i32, Reads-u16, Reads-bytes, run-Reads, run, pure,
  ◌>>=◌, read_i32, read_u16, read_bytes, put_i32,
}
use gopher_db.Catalog.Error.{
  Error, name_required, file_node_required, string_too_long, data_too_short, max_uint16, int_size,
  short_size,
}

-- `IndexType` is an integer: `Ordinal` and `IndexTypeFromOrdinal` convert without a check.
abbrev pub IndexType : Type 0
IndexType = ℤ

abbrev pub index_type_hash : IndexType
index_type_hash = pos 0

abbrev pub index_type_btree : IndexType
index_type_btree = pos 1

pub record IndexDefinition : Type 0 where
  pub oid : ℤ
  pub name : Bytes
  pub table_oid : ℤ
  pub column_oid : ℤ
  pub key_type_oid : ℤ
  pub index_type : IndexType
  pub file_node : Bytes
  pub meta_page_id : ℤ
  pub root_page_id : ℤ

unfoldable pub new_index_definition :
    ℤ → Bytes → ℤ → ℤ → ℤ → IndexType → Bytes → ℤ → ℤ → Outcome Error IndexDefinition
new_index_definition oid name table_oid column_oid key_type_oid index_type file_node meta_id
      root_id =
    if eq_bytes name []
    then err name_required
    else if eq_bytes file_node []
    then err file_node_required
    else ok (record {
      oid = oid;
      name = name;
      table_oid = table_oid;
      column_oid = column_oid;
      key_type_oid = key_type_oid;
      index_type = index_type;
      file_node = file_node;
      meta_page_id = meta_id;
      root_page_id = root_id;
    })

abbrev pieces : IndexDefinition → List Bytes
pieces idx =
    put_i32 idx.oid
    ∷ put_i32 idx.table_oid
    ∷ put_i32 idx.column_oid
    ∷ put_i32 idx.key_type_oid
    ∷ put_i32 idx.index_type
    ∷ put_i32 idx.meta_page_id
    ∷ put_i32 idx.root_page_id
    ∷ put_u16 (length idx.name)
    ∷ idx.name
    ∷ put_u16 (length idx.file_node)
    ∷ idx.file_node
    ∷ []

-- `ToBytes`: the fields are put one behind the other into a buffer of the computed size.
unfoldable pub to_bytes : IndexDefinition → Outcome Error Bytes
to_bytes idx =
    if ltb max_uint16 (length idx.name) || ltb max_uint16 (length idx.file_node)
    then err string_too_long
    else ok (
        fill 0 (pieces idx) (
          replicate
            (int_size * 7 + short_size + length idx.name + short_size + length idx.file_node) 0))

read_fields : Reader Error IndexDefinition
read_fields = do
  oid ← read_i32
  table_oid ← read_i32
  column_oid ← read_i32
  key_type_oid ← read_i32
  index_type ← read_i32
  meta_page_id ← read_i32
  root_page_id ← read_i32
  name_len ← read_u16
  name ← read_bytes name_len
  file_len ← read_u16
  file_node ← read_bytes file_len
  pure (record {
    oid = oid;
    name = name;
    table_oid = table_oid;
    column_oid = column_oid;
    key_type_oid = key_type_oid;
    index_type = index_type;
    file_node = file_node;
    meta_page_id = meta_page_id;
    root_page_id = root_page_id;
  })

-- `IndexDefinitionFromBytes`
unfoldable pub from_bytes : Bytes → Outcome Error IndexDefinition
unfolding read_fields
from_bytes buf =
    if ltb (length buf) (int_size * 7 + short_size * 2)
    then err data_too_short
    else run read_fields buf

-- The record has the ranges of its Go fields, the ordinal fits 32 bits, and the strings fit their
-- length fields.
pub record IsEncodable (d : IndexDefinition) : Type 0 where
  pub oid_fits : Fits half_32 d.oid
  pub table_oid_fits : Fits half_32 d.table_oid
  pub column_oid_fits : Fits half_32 d.column_oid
  pub key_type_oid_fits : Fits half_32 d.key_type_oid
  pub index_type_fits : Fits half_32 d.index_type
  pub meta_page_id_fits : Fits half_32 d.meta_page_id
  pub root_page_id_fits : Fits half_32 d.root_page_id
  pub name_fits : length d.name ≤ max_uint16
  pub file_node_fits : length d.file_node ≤ max_uint16

module _ (d : IndexDefinition) (h : IsEncodable d) where
  length-name :
      length (d.name ++ (put_u16 (length d.file_node) ++ (d.file_node ++ [])))
      ≡ length d.name + 2 + length d.file_node
  length-name = omega (
    arith,
    length-append d.name (put_u16 (length d.file_node) ++ (d.file_node ++ [])),
    length-append d.file_node [],
  )

  to_bytes-flatten : to_bytes d ≡ ok (flatten (pieces d))
  unfolding to_bytes
  to_bytes-flatten =
      rw (le→ltb-false h.name_fits, le→ltb-false h.file_node_fits)
        (ap ok (fill-flatten (pieces d) _ (omega (arith, length-name))))

  read_fields-Reads : Reads read_fields (flatten (pieces d)) d
  unfolding read_fields
  read_fields-Reads = Reads->>= _ _ _ _ (Reads-i32 d.oid h.oid_fits) (
      Reads->>= _ _ _ _ (Reads-i32 d.table_oid h.table_oid_fits) (
        Reads->>= _ _ _ _ (Reads-i32 d.column_oid h.column_oid_fits) (
          Reads->>= _ _ _ _ (Reads-i32 d.key_type_oid h.key_type_oid_fits) (
            Reads->>= _ _ _ _ (Reads-i32 d.index_type h.index_type_fits) (
              Reads->>= _ _ _ _ (Reads-i32 d.meta_page_id h.meta_page_id_fits) (
                Reads->>= _ _ _ _ (Reads-i32 d.root_page_id h.root_page_id_fits) (
                  Reads->>= _ _ _ _ (Reads-u16 (length d.name) (omega (arith, h.name_fits))) (
                    Reads->>= _ _ _ _ (Reads-bytes _ d.name refl) (
                      Reads->>= _ _ _ _
                        (Reads-u16 (length d.file_node) (omega (arith, h.file_node_fits)))
                        (Reads->>= _ _ _ _ (Reads-bytes _ d.file_node refl) (Reads-pure d)))))))))))

-- Decoding what `ToBytes` gives for an encodable index definition gives the definition back.
pub from_bytes-to_bytes_index :
    (d : IndexDefinition) → IsEncodable d → Outcome.◌>>=◌ (to_bytes d) from_bytes ≡ ok d
unfolding from_bytes
from_bytes-to_bytes_index d h = rw (to_bytes-flatten d h) (
    rw (le→ltb-false {a = 32} {b = length (flatten (pieces d))} (omega (arith, length-name d h)))
      (run-Reads (read_fields-Reads d h)))
