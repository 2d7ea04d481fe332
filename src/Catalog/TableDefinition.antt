-- ===== src/Catalog/TableDefinition.antt =====
-- `internal/core/catalog/model/table_definition.go`.
use gopher_db.Base.{
  ◌+◌, ◌*◌, ◌≤◌, ◌≡◌, refl, ap, ◌||◌, List, [], ◌∷◌, ◌++◌, arith, length, flatten, replicate,
  length-append, ltb, le→ltb-false, if◌then◌else◌,
}
use gopher_db.Base.Int.{ℤ, Fits, half_32}
use gopher_db.Base.Outcome.{Outcome, ok, err}
use gopher_db.Base.Outcome
use gopher_db.Bytes.BigEndian.{put_u16}
use gopher_db.Bytes.Copy.{Bytes, fill, fill-flatten}
use gopher_db.Bytes.Reader.{
  Reader, Reads, Reads-pure, Reads->>=, Reads-i32, Reads-u16, Reads-bytes, run-Reads, run, pure,
  ◌>>=◌, read_i32, read_u16, read_bytes, put_i32,
}
use gopher_db.Catalog.Error.{
  Error, name_required, type_required, file_node_required, string_too_long, data_too_short,
  max_uint16, int_size, short_size,
}
use gopher_db.Catalog.Text.{is_blank}

pub record TableDefinition : Type 0 where
  pub oid : ℤ
  pub name : Bytes
  pub typ : Bytes
  pub file_node : Bytes
  pub pages_count : ℤ

unfoldable pub new_table_definition : ℤ → Bytes → Bytes → Bytes → ℤ → Outcome Error TableDefinition
unfolding is_blank
new_table_definition oid name typ file_node pages_count =
    if is_blank name
    then err name_required
    else if is_blank typ
    then err type_required
    else if is_blank file_node
    then err file_node_required
    else ok (record {
      oid = oid;
      name = name;
      typ = typ;
      file_node = file_node;
      pages_count = pages_count;
    })

abbrev pub set_pages_count : TableDefinition → ℤ → TableDefinition
set_pages_count table v = record table { pages_count = v }

abbrev pieces : TableDefinition → List Bytes
pieces table =
    put_i32 table.oid
    ∷ put_u16 (length table.name)
    ∷ table.name
    ∷ put_u16 (length table.typ)
    ∷ table.typ
    ∷ put_u16 (length table.file_node)
    ∷ table.file_node
    ∷ put_i32 table.pages_count
    ∷ []

-- `ToBytes`: the fields are put one behind the other into a buffer of the computed size.
unfoldable pub to_bytes : TableDefinition → Outcome Error Bytes
to_bytes table =
    if ltb max_uint16 (length table.name)
      || ltb max_uint16 (length table.typ)
      || ltb max_uint16 (length table.file_node)
    then err string_too_long
    else ok (
        fill 0 (pieces table) (
          replicate
            (int_size
              + short_size
              + length table.name
              + short_size
              + length table.typ
              + short_size
              + length table.file_node
              + int_size)
            0))

read_fields : Reader Error TableDefinition
read_fields = do
  oid ← read_i32
  name_len ← read_u16
  name ← read_bytes name_len
  type_len ← read_u16
  typ ← read_bytes type_len
  file_len ← read_u16
  file_node ← read_bytes file_len
  pages_count ← read_i32
  pure (record {
    oid = oid;
    name = name;
    typ = typ;
    file_node = file_node;
    pages_count = pages_count;
  })

-- `TableDefinitionFromBytes`
unfoldable pub from_bytes : Bytes → Outcome Error TableDefinition
unfolding read_fields
from_bytes buf =
    if ltb (length buf) (int_size + short_size * 3 + int_size)
    then err data_too_short
    else run read_fields buf

-- The record has the ranges of its Go fields, and its strings fit their length fields.
pub record IsEncodable (t : TableDefinition) : Type 0 where
  pub oid_fits : Fits half_32 t.oid
  pub name_fits : length t.name ≤ max_uint16
  pub type_fits : length t.typ ≤ max_uint16
  pub file_node_fits : length t.file_node ≤ max_uint16
  pub pages_count_fits : Fits half_32 t.pages_count

module _ (t : TableDefinition) (h : IsEncodable t) where
  length-file_node :
      length (put_u16 (length t.file_node) ++ (t.file_node ++ (put_i32 t.pages_count ++ [])))
      ≡ 6 + length t.file_node
  length-file_node = omega (arith, length-append t.file_node (put_i32 t.pages_count ++ []))

  length-pieces :
      length (flatten (pieces t)) ≡ 14 + length t.name + length t.typ + length t.file_node
  length-pieces =
      let file = put_u16 (length t.file_node) ++ (t.file_node ++ (put_i32 t.pages_count ++ [])) in
      omega (
        arith,
        length-file_node,
        length-append t.typ file,
        length-append t.name (put_u16 (length t.typ) ++ (t.typ ++ file)),
      )

  to_bytes-flatten : to_bytes t ≡ ok (flatten (pieces t))
  unfolding to_bytes
  to_bytes-flatten =
      rw (le→ltb-false h.name_fits, le→ltb-false h.type_fits, le→ltb-false h.file_node_fits)
        (ap ok (fill-flatten (pieces t) _ (omega (arith, length-pieces))))

  read_fields-Reads : Reads read_fields (flatten (pieces t)) t
  unfolding read_fields
  read_fields-Reads = Reads->>= _ _ _ _ (Reads-i32 t.oid h.oid_fits) (
      Reads->>= _ _ _ _ (Reads-u16 (length t.name) (omega (arith, h.name_fits))) (
        Reads->>= _ _ _ _ (Reads-bytes _ t.name refl) (
          Reads->>= _ _ _ _ (Reads-u16 (length t.typ) (omega (arith, h.type_fits))) (
            Reads->>= _ _ _ _ (Reads-bytes _ t.typ refl) (
              Reads->>= _ _ _ _ (Reads-u16 (length t.file_node) (omega (arith, h.file_node_fits))) (
                Reads->>= _ _ _ _ (Reads-bytes _ t.file_node refl) (
                  Reads->>= _ _ _ _ (Reads-i32 t.pages_count h.pages_count_fits)
                    (Reads-pure t))))))))

-- Decoding what `ToBytes` gives for an encodable table definition gives the definition back.
pub from_bytes-to_bytes_table :
    (t : TableDefinition) → IsEncodable t → Outcome.◌>>=◌ (to_bytes t) from_bytes ≡ ok t
unfolding from_bytes
from_bytes-to_bytes_table t h = rw (to_bytes-flatten t h) (
    rw (le→ltb-false {a = 14} {b = length (flatten (pieces t))} (omega (arith, length-pieces t h)))
      (run-Reads (read_fields-Reads t h)))
