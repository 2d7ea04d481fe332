-- ===== src/Value.antt =====
-- What the program keeps in an `any`: a column value or the result of an expression. Also
-- `internal/core/memory/model/data_type.go` and `heap_tuple.go`.
use gopher_db.Base.{Bool, Option}
use gopher_db.Base.Int.{ℤ, pos}
use gopher_db.Bytes.Copy.{Bytes}

pub data Value : Type 0 where
  nil : Value
  int64 : ℤ → Value
  string : Bytes → Value
  boolean : Bool → Value

-- `DataType` is an integer; 0 stands for no type.
abbrev pub DataType : Type 0
DataType = ℤ

abbrev pub int64_type : DataType
int64_type = pos 1

abbrev pub varchar_type : DataType
varchar_type = pos 2

-- `none` is the nil slice.
pub record HeapTuple : Type 0 where
  pub bytes : Option Bytes
  pub data_type : DataType
