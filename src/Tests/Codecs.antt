-- ===== src/Tests/Codecs.antt =====
-- The catalog's and the tuples' byte formats on fixed inputs.
use gopher_db.Base.{◌+◌, ◌<◌, ◌≡◌, [], ◌∷◌, arith, length, drop}
use gopher_db.Base.Int.{pos, negsuc}
use gopher_db.Base.Outcome.{ok, panic, ◌>>=◌}
use gopher_db.Bytes.BigEndian.{be_u16}
use gopher_db.Bytes.Copy.{Bytes}
use gopher_db.Bytes.Utf8.{utf8_valid}
use gopher_db.Catalog.ColumnDefinition
use gopher_db.Catalog.ColumnDefinition.{from_bytes-to_bytes_column}
use gopher_db.Catalog.IndexDefinition
use gopher_db.Catalog.IndexDefinition.{from_bytes-to_bytes_index}
use gopher_db.Catalog.TableDefinition
use gopher_db.Catalog.TableDefinition.{from_bytes-to_bytes_table}
use gopher_db.Catalog.TypeDefinition
use gopher_db.Catalog.TypeDefinition.{from_bytes-to_bytes_type, from_bytes_panics}
use gopher_db.Memory.Serializer.{
  serialize, deserialize, deserialize-serialize_int64, deserialize-serialize_varchar,
}
use gopher_db.Value.{int64, string, int64_type, varchar_type}

abbrev pub a_type : TypeDefinition.TypeDefinition
a_type = record { oid = pos 1; name = b'T' ∷ []; byte_length = negsuc 0 }

a_type-IsEncodable : TypeDefinition.IsEncodable a_type
a_type-IsEncodable = record {
  oid_fits = omega arith;
  byte_length_fits = omega arith;
  name_fits = omega arith;
}

from_bytes-to_bytes_type_example :
    (TypeDefinition.to_bytes a_type >>= TypeDefinition.from_bytes) ≡ ok a_type
from_bytes-to_bytes_type_example = from_bytes-to_bytes_type a_type a_type-IsEncodable

-- ten bytes whose name length is 1
abbrev short_type : Bytes
short_type = 0 ∷ 0 ∷ 0 ∷ 1 ∷ 0 ∷ 1 ∷ 0 ∷ 0 ∷ 0 ∷ 0 ∷ []

short_name : length short_type < 10 + be_u16 (drop 4 short_type)
short_name = omega arith

from_bytes_panics_example : TypeDefinition.from_bytes short_type ≡ panic
from_bytes_panics_example = from_bytes_panics short_type (omega arith) short_name

abbrev pub a_column : ColumnDefinition.ColumnDefinition
a_column = record {
  oid = pos 3;
  table_oid = pos 2;
  type_oid = pos 1;
  name = b'a' ∷ [];
  position = pos 0;
}

a_column-IsEncodable : ColumnDefinition.IsEncodable a_column
a_column-IsEncodable = record {
  oid_fits = omega arith;
  table_oid_fits = omega arith;
  type_oid_fits = omega arith;
  name_fits = omega arith;
  position_fits = omega arith;
}

from_bytes-to_bytes_column_example :
    (ColumnDefinition.to_bytes a_column >>= ColumnDefinition.from_bytes) ≡ ok a_column
from_bytes-to_bytes_column_example = from_bytes-to_bytes_column a_column a_column-IsEncodable

abbrev pub a_table : TableDefinition.TableDefinition
a_table = record {
  oid = pos 2;
  name = b't' ∷ [];
  typ = b'U' ∷ [];
  file_node = b'f' ∷ [];
  pages_count = pos 1;
}

a_table-IsEncodable : TableDefinition.IsEncodable a_table
a_table-IsEncodable = record {
  oid_fits = omega arith;
  name_fits = omega arith;
  type_fits = omega arith;
  file_node_fits = omega arith;
  pages_count_fits = omega arith;
}

from_bytes-to_bytes_table_example :
    (TableDefinition.to_bytes a_table >>= TableDefinition.from_bytes) ≡ ok a_table
from_bytes-to_bytes_table_example = from_bytes-to_bytes_table a_table a_table-IsEncodable

abbrev pub an_index : IndexDefinition.IndexDefinition
an_index = record {
  oid = pos 4;
  name = b'i' ∷ [];
  table_oid = pos 2;
  column_oid = pos 3;
  key_type_oid = pos 1;
  index_type = IndexDefinition.index_type_btree;
  file_node = b'g' ∷ [];
  meta_page_id = pos 0;
  root_page_id = pos 1;
}

an_index-IsEncodable : IndexDefinition.IsEncodable an_index
an_index-IsEncodable = record {
  oid_fits = omega arith;
  table_oid_fits = omega arith;
  column_oid_fits = omega arith;
  key_type_oid_fits = omega arith;
  index_type_fits = omega arith;
  meta_page_id_fits = omega arith;
  root_page_id_fits = omega arith;
  name_fits = omega arith;
  file_node_fits = omega arith;
}

from_bytes-to_bytes_index_example :
    (IndexDefinition.to_bytes an_index >>= IndexDefinition.from_bytes) ≡ ok an_index
from_bytes-to_bytes_index_example = from_bytes-to_bytes_index an_index an_index-IsEncodable

deserialize-serialize_int64_example :
    (serialize (int64 (negsuc 4)) int64_type >>= deserialize) ≡ ok (int64 (negsuc 4))
deserialize-serialize_int64_example = deserialize-serialize_int64 (negsuc 4) (omega arith)

deserialize-serialize_varchar_example :
    (serialize (string (b'h' ∷ b'i' ∷ [])) varchar_type >>= deserialize)
    ≡ ok (string (b'h' ∷ b'i' ∷ []))
unfolding utf8_valid
deserialize-serialize_varchar_example = deserialize-serialize_varchar (b'h' ∷ b'i' ∷ [])
