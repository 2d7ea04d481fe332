-- ===== src/Catalog/TypeDefinition.antt =====
-- `internal/core/catalog/model/type_definition.go`.
use gopher_db.Base.{
  ◌+◌, ◌≤◌, ◌<◌, ◌≡◌, refl, ap, List, [], ◌∷◌, ◌++◌, arith, length, drop, flatten, replicate,
  length-append, ltb, le→ltb-false, if◌then◌else◌,
}
use gopher_db.Base.Int.{ℤ, Fits, half_32}
use gopher_db.Base.Outcome.{Outcome, ok, err, panic}
use gopher_db.Base.Outcome
use gopher_db.Bytes.BigEndian.{put_u16, be_u16}
use gopher_db.Bytes.Compare.{eq_bytes}
use gopher_db.Bytes.Copy.{Bytes, fill, fill-flatten}
use gopher_db.Bytes.Reader.{
  Reader, Reads, Reads-pure, Reads->>=, Reads-i32, Reads-u16, Reads-bytes, run-Reads, run, pure,
  ◌>>=◌, read_i32, read_u16, read_bytes, put_i32,
}
use gopher_db.Catalog.Error.{
  Error, name_required, name_too_long, data_too_short, max_uint16, int_size, short_size,
}

pub record TypeDefinition : Type 0 where
  pub oid : ℤ
  pub name : Bytes
  pub byte_length : ℤ

unfoldable pub new_type_definition : ℤ → Bytes → ℤ → Outcome Error TypeDefinition
new_type_definition oid name byte_length =
    if eq_bytes name []
    then err name_required
    else ok (record { oid = oid; name = name; byte_length = byte_length })

abbrev pieces : TypeDefinition → List Bytes
pieces typ = put_i32 typ.oid ∷ put_u16 (length typ.name) ∷ typ.name ∷ put_i32 typ.byte_length ∷ []

-- `ToBytes`: the fields are put one behind the other into a buffer of the computed size.
unfoldable pub to_bytes : TypeDefinition → Outcome Error Bytes
to_bytes typ =
    if ltb max_uint16 (length typ.name)
    then err name_too_long
    else ok (fill 0 (pieces typ) (replicate (int_size + short_size + length typ.name + int_size) 0))

read_fields : Reader Error TypeDefinition
read_fields = do
  oid ← read_i32
  name_len ← read_u16
  name ← read_bytes name_len
  byte_length ← read_i32
  pure (record { oid = oid; name = name; byte_length = byte_length })

-- `TypeDefinitionFromBytes`
unfoldable pub from_bytes : Bytes → Outcome Error TypeDefinition
unfolding read_fields
from_bytes buf =
    if ltb (length buf) (int_size + short_size + int_size)
    then err data_too_short
    else run read_fields buf

-- The record has the ranges of its Go fields, and its name fits the length field.
pub record IsEncodable (t : TypeDefinition) : Type 0 where
  pub oid_fits : Fits half_32 t.oid
  pub byte_length_fits : Fits half_32 t.byte_length
  pub name_fits : length t.name ≤ max_uint16

to_bytes-flatten :
    (t : TypeDefinition) → length t.name ≤ max_uint16 → to_bytes t ≡ ok (flatten (pieces t))
unfolding to_bytes
to_bytes-flatten t h = rw (le→ltb-false h) (
    ap ok (
      fill-flatten (pieces t) _
        (omega (arith, length-append t.name (put_i32 t.byte_length ++ [])))))

-- Data of at least the minimal size whose name length points past the end makes the decoder panic:
-- it does not return an error.
pub from_bytes_panics :
    (buf : Bytes) → 10 ≤ length buf → length buf < 10 + be_u16 (drop 4 buf) → from_bytes buf ≡ panic
unfolding from_bytes run read_i32 read_u16 read_bytes
from_bytes_panics buf h k = ground arith

read_fields-Reads : (t : TypeDefinition) → IsEncodable t → Reads read_fields (flatten (pieces t)) t
unfolding read_fields
read_fields-Reads t h = Reads->>= _ _ _ _ (Reads-i32 t.oid h.oid_fits) (
    Reads->>= _ _ _ _ (Reads-u16 (length t.name) (omega (arith, h.name_fits))) (
      Reads->>= _ _ _ _ (Reads-bytes _ t.name refl)
        (Reads->>= _ _ _ _ (Reads-i32 t.byte_length h.byte_length_fits) (Reads-pure t))))

-- Decoding what `ToBytes` gives for an encodable type definition gives the definition back.
pub from_bytes-to_bytes_type :
    (t : TypeDefinition) → IsEncodable t → Outcome.◌>>=◌ (to_bytes t) from_bytes ≡ ok t
unfolding from_bytes
from_bytes-to_bytes_type t h = rw (to_bytes-flatten t h.name_fits) (
    rw
      (le→ltb-false {a = 10} {b = length (flatten (pieces t))}
        (omega (arith, length-append t.name (put_i32 t.byte_length ++ []))))
      (run-Reads (read_fields-Reads t h)))
