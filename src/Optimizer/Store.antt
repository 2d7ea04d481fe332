-- ===== src/Optimizer/Store.antt =====
-- What a plan's scans read: the rows of a table, and what a lookup in an index of it promises. This is the contract of
-- `internal/core/index.Index` (`Search` and `RangeSearch`) as the executors use it.
use mathlib.Core.List.{Permᴰ}
use gopher_db.Base.{ℕ, ◌≡◌, Bool, false, ◌&&◌, List, Option, none, some, get_elem?}
use gopher_db.Base.Int.{ℤ}
use gopher_db.Base.Select.{select, All}
use gopher_db.Catalog.IndexDefinition.{IndexDefinition, index_type_hash, index_type_btree}
use gopher_db.Catalog.TableDefinition.{TableDefinition}
use gopher_db.Execution.{eq_value}
use gopher_db.Optimizer.Range.{in_lower, in_upper, Bound}
use gopher_db.Semantic.Typing.{Row, get_at, HasType, Schema, Conforms}
use gopher_db.Semantic.{ExprType}
use gopher_db.Value.{Value}

-- a test of the value at a column's position
abbrev pub at_key : (Value → Bool) → Option Value → Bool
at_key f none = false
at_key f (some k) = f k

-- An index lookup gives, in some order, the table's rows whose key is equal to the value, or in the range.
pub record Store (list_indexes : TableDefinition → List IndexDefinition) : Type 1 where
  pub schema : TableDefinition → Schema
  pub rows : TableDefinition → List Row
  pub rows_conform : (table : TableDefinition) → All (Conforms (schema table)) (rows table)
  pub search : TableDefinition → IndexDefinition → Value → List Row
  pub range_search : TableDefinition → IndexDefinition → Value → Bool → Value → Bool → List Row
  pub search-Permᴰ :
      (table : TableDefinition) (idx : IndexDefinition) (position : ℤ) (t : ExprType) (v : Value)
      → ((i : ℕ) × (get_elem? (list_indexes table) i ≡ some idx))
      → idx.index_type ≡ index_type_hash
      → schema table idx.column_oid ≡ some (position, t)
      → HasType t v
      → Permᴰ
          (search table idx v)
          (select (λ row. at_key (λ k. eq_value k v) (get_at row position)) (rows table))
  pub range_search-Permᴰ :
      (table : TableDefinition) (idx : IndexDefinition) (position : ℤ) (t : ExprType)
      (lower : Value) (lower_in : Bool) (upper : Value) (upper_in : Bool)
      → ((i : ℕ) × (get_elem? (list_indexes table) i ≡ some idx))
      → idx.index_type ≡ index_type_btree
      → schema table idx.column_oid ≡ some (position, t)
      → Bound t lower
      → Bound t upper
      → Permᴰ (range_search table idx lower lower_in upper upper_in) (
          select
            (λ row.
              at_key
                (λ k. in_lower lower lower_in k && in_upper upper upper_in k)
                (get_at row position))
            (rows table))
