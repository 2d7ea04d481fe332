-- ===== src/Catalog/ColumnDefinition.antt =====
-- `internal/core/catalog/model/column_definition.go`.
use gopher_db.Base.{
  ◌+◌, ◌*◌, ◌≤◌, ◌≡◌, refl, ap, List, [], ◌∷◌, ◌++◌, arith, length, flatten, replicate,
  length-append, ltb, le→ltb-false, if◌then◌else◌,
}
use gopher_db.Base.Int.{ℤ, Fits, half_32}
use gopher_db.Base.Outcome.{Outcome, ok, err}
use gopher_db.Base.Outcome
use gopher_db.Bytes.BigEndian.{put_u16}
use gopher_db.Bytes.Compare.{eq_bytes}
use gopher_db.Bytes.Copy.{Bytes, fill, fill-flatten}
use gopher_db.Bytes.Reader.{
  Reader, Reads, Reads-pure, Reads->>=, Reads-i32, Reads-u16, Reads-bytes, run-Reads, run, pure,
  ◌>>=◌, read_i32, read_u16, read_bytes, put_i32,
}
use gopher_db.Catalog.Error.{
  Error, name_required, name_too_long, data_too_short, max_uint16, int_size, short_size,
}

pub record ColumnDefinition : Type 0 where
  pub oid : ℤ
  pub table_oid : ℤ
  pub type_oid : ℤ
  pub name : Bytes
  pub position : ℤ

unfoldable pub new_column_definition : ℤ → ℤ → ℤ → Bytes → ℤ → Outcome Error ColumnDefinition
new_column_definition oid table_oid type_oid name position =
    if eq_bytes name []
    then err name_required
    else ok (record {
      oid = oid;
      table_oid = table_oid;
      type_oid = type_oid;
      name = name;
      position = position;
    })

abbrev pieces : ColumnDefinition → List Bytes
pieces column =
    put_i32 column.oid
    ∷ put_i32 column.table_oid
    ∷ put_i32 column.type_oid
    ∷ put_u16 (length column.name)
    ∷ column.name
    ∷ put_i32 column.position
    ∷ []

-- `ToBytes`: the fields are put one behind the other into a buffer of the computed size.
unfoldable pub to_bytes : ColumnDefinition → Outcome Error Bytes
to_bytes column =
    if ltb max_uint16 (length column.name)
    then err name_too_long
    else ok (
        fill 0 (pieces column)
          (replicate (int_size * 3 + short_size + length column.name + int_size) 0))

read_fields : Reader Error ColumnDefinition
read_fields = do
  oid ← read_i32
  table_oid ← read_i32
  type_oid ← read_i32
  name_len ← read_u16
  name ← read_bytes name_len
  position ← read_i32
  pure (record {
    oid = oid;
    table_oid = table_oid;
    type_oid = type_oid;
    name = name;
    position = position;
  })

-- `ColumnDefinitionFromBytes`
unfoldable pub from_bytes : Bytes → Outcome Error ColumnDefinition
unfolding read_fields
from_bytes buf =
    if ltb (length buf) (int_size * 3 + short_size + int_size)
    then err data_too_short
    else run read_fields buf

-- The record has the ranges of its Go fields, and its name fits the length field.
pub record IsEncodable (c : ColumnDefinition) : Type 0 where
  pub oid_fits : Fits half_32 c.oid
  pub table_oid_fits : Fits half_32 c.table_oid
  pub type_oid_fits : Fits half_32 c.type_oid
  pub name_fits : length c.name ≤ max_uint16
  pub position_fits : Fits half_32 c.position

module _ (c : ColumnDefinition) (h : IsEncodable c) where
  to_bytes-flatten : to_bytes c ≡ ok (flatten (pieces c))
  unfolding to_bytes
  to_bytes-flatten = rw (le→ltb-false h.name_fits) (
      ap ok (
        fill-flatten (pieces c) _ (omega (arith, length-append c.name (put_i32 c.position ++ [])))))

  read_fields-Reads : Reads read_fields (flatten (pieces c)) c
  unfolding read_fields
  read_fields-Reads = Reads->>= _ _ _ _ (Reads-i32 c.oid h.oid_fits) (
      Reads->>= _ _ _ _ (Reads-i32 c.table_oid h.table_oid_fits) (
        Reads->>= _ _ _ _ (Reads-i32 c.type_oid h.type_oid_fits) (
          Reads->>= _ _ _ _ (Reads-u16 (length c.name) (omega (arith, h.name_fits))) (
            Reads->>= _ _ _ _ (Reads-bytes _ c.name refl)
              (Reads->>= _ _ _ _ (Reads-i32 c.position h.position_fits) (Reads-pure c))))))

-- Decoding what `ToBytes` gives for an encodable column definition gives the definition back.
pub from_bytes-to_bytes_column :
    (c : ColumnDefinition) → IsEncodable c → Outcome.◌>>=◌ (to_bytes c) from_bytes ≡ ok c
unfolding from_bytes
from_bytes-to_bytes_column c h = rw (to_bytes-flatten c h) (
    rw
      (le→ltb-false {a = 18} {b = length (flatten (pieces c))}
        (omega (arith, length-append c.name (put_i32 c.position ++ []))))
      (run-Reads (read_fields-Reads c h)))
