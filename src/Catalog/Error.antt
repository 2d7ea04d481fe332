-- ===== src/Catalog/Error.antt =====
-- The sentinel errors of `internal/core/catalog/model`, and its size limits.
use gopher_db.Base.{ℕ}

pub data Error : Type 0 where
  name_required name_too_long data_too_short : Error
  type_required file_node_required string_too_long : Error

abbrev pub max_uint16 : ℕ
max_uint16 = 0xffff

abbrev pub int_size : ℕ
int_size = 4

abbrev pub short_size : ℕ
short_size = 2
