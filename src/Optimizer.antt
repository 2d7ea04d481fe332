-- ===== src/Optimizer.antt =====
-- `internal/core/optimizer`: the physical plan of a logical plan, with an index scan under a filter where the
-- predicate fixes or bounds an indexed column. `none` is a run-time panic where a result is optional.
pub mod Order
pub mod Range
pub mod Single
pub mod Extract
pub mod Merge
pub mod Sound
pub mod Equality
pub mod Store
pub mod Plans
pub mod Answer
use gopher_db.Base.{
  ◌≡◌, Bool, true, false, not, ◌&&◌, ◌||◌, List, [], ◌∷◌, Option, none, some, if◌then◌else◌,
}
use gopher_db.Base.Int.{ℤ, pos, negsuc, lt_ℤ, eq_ℤ}
use gopher_db.Catalog.ColumnDefinition.{ColumnDefinition}
use gopher_db.Catalog.IndexDefinition.{
  IndexDefinition, IndexType, index_type_hash, index_type_btree,
}
use gopher_db.Catalog.TableDefinition.{TableDefinition}
use gopher_db.Execution.{◌>>=◌, compare}
use gopher_db.Planner.{
  CreateTableQueryTree, CreateIndexQueryTree, InsertQueryTree, LogicalPlan, create_table_node,
  create_index_node, insert_node, scan_node, filter_node, project_node, explain_node,
}
use gopher_db.Semantic.{
  Op, and_op, or_op, eq_op, ne_op, lt_op, le_op, gt_op, ge_op, other_op, ResolvedExpr,
  resolved_const, resolved_column_ref, resolved_binary_expr,
}
use gopher_db.Value.{Value, nil}

abbrev pub is_nil : Value → Bool
is_nil nil = true
is_nil _ = false

-- `rangeInfo`; a nil bound is none
pub record RangeInfo : Type 0 where
  pub column : ColumnDefinition
  pub lower : Value
  pub lower_inclusive : Bool
  pub upper : Value
  pub upper_inclusive : Bool

unfoldable pub try_extract_col_val : ResolvedExpr → ResolvedExpr → Option (ColumnDefinition × Value)
try_extract_col_val (resolved_column_ref c s) (resolved_const v t) = some (c, v)
try_extract_col_val _ _ = none

abbrev pub or_else : {A : Type 0} → Option A → Option A → Option A
or_else (some a) b = some a
or_else none b = b

unfoldable pub extract_equality : ResolvedExpr → Option (ColumnDefinition × Value)
extract_equality (resolved_binary_expr eq_op l r t) =
    or_else (try_extract_col_val l r) (try_extract_col_val r l)
extract_equality _ = none

-- the map `invertedOps`, with the operator itself for a key that it does not have
abbrev pub invert_op : Op → Op
invert_op lt_op = gt_op
invert_op le_op = ge_op
invert_op gt_op = lt_op
invert_op ge_op = le_op
invert_op op = op

-- the map `rangeBuilders`, with its functions applied
abbrev pub build_range : Op → ColumnDefinition → Value → Option RangeInfo
build_range eq_op c v =
    some
      (record { column = c; lower = v; lower_inclusive = true; upper = v; upper_inclusive = true })
build_range gt_op c v = some (record {
  column = c;
  lower = v;
  lower_inclusive = false;
  upper = nil;
  upper_inclusive = false;
})
build_range ge_op c v =
    some (record {
      column = c;
      lower = v;
      lower_inclusive = true;
      upper = nil;
      upper_inclusive = false;
    })
build_range lt_op c v = some (record {
  column = c;
  lower = nil;
  lower_inclusive = false;
  upper = v;
  upper_inclusive = false;
})
build_range le_op c v =
    some (record {
      column = c;
      lower = nil;
      lower_inclusive = false;
      upper = v;
      upper_inclusive = true;
    })
build_range _ c v = none

abbrev pub build_pair : Op → Option (ColumnDefinition × Value) → Option RangeInfo
build_pair op none = none
build_pair op (some (c, v)) = build_range op c v

-- `extractColValOp`, and `extractSingleRange` on it
abbrev pub single_range :
    Op → Option (ColumnDefinition × Value) → Option (ColumnDefinition × Value) → Option RangeInfo
single_range op (some (c, v)) other = build_range op c v
single_range op none other = build_pair (invert_op op) other

unfoldable pub extract_single_range : Op → ResolvedExpr → ResolvedExpr → Option RangeInfo
extract_single_range op l r = single_range op (try_extract_col_val l r) (try_extract_col_val r l)

-- `mergeFrom`, on two bounds with their flags; `compareAny` is the same code as the executor's `compare`
abbrev pub merge_from : Value → Bool → Value → Bool → Option (Value × Bool)
merge_from a a_in b b_in =
    if is_nil a
    then some (b, b_in)
    else if is_nil b
    then some (a, a_in)
    else (compare a b >>= λ cmp. some (
        if lt_ℤ (pos 0) cmp
        then (a, a_in)
        else if lt_ℤ cmp (pos 0)
        then (b, b_in)
        else (a, a_in && b_in)))

abbrev pub merge_to : Value → Bool → Value → Bool → Option (Value × Bool)
merge_to a a_in b b_in =
    if is_nil a
    then some (b, b_in)
    else if is_nil b
    then some (a, a_in)
    else (compare a b >>= λ cmp. some (
        if lt_ℤ cmp (pos 0)
        then (a, a_in)
        else if lt_ℤ (pos 0) cmp
        then (b, b_in)
        else (a, a_in && b_in)))

-- the test at the end of `mergeRanges`
abbrev pub is_empty : Value → Value → Option Bool
is_empty a b =
    if is_nil a
    then some false
    else if is_nil b
    then some false
    else (compare a b >>= λ cmp. some (lt_ℤ (pos 0) cmp))

abbrev pub merge_ranges : RangeInfo → RangeInfo → Option (Option RangeInfo)
merge_ranges l r = merge_from l.lower l.lower_inclusive r.lower r.lower_inclusive >>= λ f.
    merge_to l.upper l.upper_inclusive r.upper r.upper_inclusive >>= λ t.
    is_empty f.0 t.0 >>= λ empty. some (
      if empty
      then none
      else some (record {
        column = l.column;
        lower = f.0;
        lower_inclusive = f.1;
        upper = t.0;
        upper_inclusive = t.1;
      }))

-- `mergeAndRanges`, on the ranges of the operands
abbrev pub merge_and_ranges : Option RangeInfo → Option RangeInfo → Option (Option RangeInfo)
merge_and_ranges none r = some r
merge_and_ranges (some l) none = some (some l)
merge_and_ranges (some l) (some r) =
    if eq_ℤ l.column.oid r.column.oid then merge_ranges l r else some none

unfoldable pub extract_range : ResolvedExpr → Option (Option RangeInfo)
extract_range (resolved_binary_expr and_op l r t) =
    extract_range l >>= λ a. extract_range r >>= λ b. merge_and_ranges a b
extract_range (resolved_binary_expr op l r t) = some (extract_single_range op l r)
extract_range _ = some none

pub data PhysicalPlan : Type 0 where
  create_table_plan : CreateTableQueryTree → PhysicalPlan
  create_index_plan : CreateIndexQueryTree → PhysicalPlan
  insert_plan : InsertQueryTree → PhysicalPlan
  seq_scan_plan : TableDefinition → PhysicalPlan
  hash_index_scan_plan : TableDefinition → IndexDefinition → Value → PhysicalPlan
  btree_index_scan_plan :
      TableDefinition → IndexDefinition → Value → Bool → Value → Bool → PhysicalPlan
  filter_plan : PhysicalPlan → ResolvedExpr → PhysicalPlan
  project_plan : PhysicalPlan → List ColumnDefinition → PhysicalPlan
  explain_plan : PhysicalPlan → PhysicalPlan

-- the loop of `findIndex`
unfoldable pub find_index :
    List IndexDefinition → ColumnDefinition → IndexType → Option IndexDefinition
find_index [] col t = none
find_index (idx ∷ rest) col t =
    if eq_ℤ idx.index_type t && eq_ℤ idx.column_oid col.oid then some idx else find_index rest col t

-- the catalog's `ListIndexes`, with no index where it fails
module _ (list_indexes : TableDefinition → List IndexDefinition) where
  abbrev pub hash_scan : TableDefinition → Value → Option IndexDefinition → Option PhysicalPlan
  hash_scan table v none = none
  hash_scan table v (some idx) = some (hash_index_scan_plan table idx v)

  abbrev pub try_hash_scan :
      TableDefinition → Option (ColumnDefinition × Value) → Option PhysicalPlan
  try_hash_scan table none = none
  try_hash_scan table (some (col, v)) =
      hash_scan table v (find_index (list_indexes table) col index_type_hash)

  abbrev pub btree_scan : TableDefinition → RangeInfo → Option IndexDefinition → Option PhysicalPlan
  btree_scan table rng none = none
  btree_scan table rng (some idx) =
      some (
        btree_index_scan_plan table idx rng.lower rng.lower_inclusive rng.upper rng.upper_inclusive)

  abbrev pub try_btree_scan : TableDefinition → Option RangeInfo → Option PhysicalPlan
  try_btree_scan table none = none
  try_btree_scan table (some rng) =
      btree_scan table rng (find_index (list_indexes table) rng.column index_type_btree)

  abbrev pub btree_or_seq : TableDefinition → Option PhysicalPlan → PhysicalPlan
  btree_or_seq table none = seq_scan_plan table
  btree_or_seq table (some p) = p

  -- `chooseBestScan` on what `tryHashScan` gives
  abbrev pub choose : TableDefinition → ResolvedExpr → Option PhysicalPlan → Option PhysicalPlan
  choose table pred (some p) = some p
  choose table pred none =
      extract_range pred >>= λ rng. some (btree_or_seq table (try_btree_scan table rng))

  unfoldable pub choose_best_scan : TableDefinition → ResolvedExpr → Option PhysicalPlan
  choose_best_scan table pred = choose table pred (try_hash_scan table (extract_equality pred))

  unfoldable pub optimize : LogicalPlan → Option PhysicalPlan
  optimize (create_table_node q) = some (create_table_plan q)
  optimize (create_index_node q) = some (create_index_plan q)
  optimize (insert_node q) = some (insert_plan q)
  optimize (scan_node table) = some (seq_scan_plan table)
  optimize (filter_node (scan_node table) pred) =
      choose_best_scan table pred >>= λ best. some (filter_plan best pred)
  optimize (filter_node child pred) = optimize child >>= λ p. some (filter_plan p pred)
  optimize (project_node child columns) = optimize child >>= λ p. some (project_plan p columns)
  optimize (explain_node inner) = optimize inner >>= λ p. some (explain_plan p)
