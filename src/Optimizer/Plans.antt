-- ===== src/Optimizer/Plans.antt =====
-- The plan that is chosen for a `SELECT` returns the rows that the query asks for.
use mathlib.Core.List.{Permᴰ}
use mathlib.Core.List.Permᴰ
use gopher_db.Base.{
  ◌≡◌, refl, sym, subst, ap, ◌∙◌, Bool, true, false, List, [], ◌∷◌, Option, none, some,
}
use gopher_db.Base.Select.{
  select, All, All-select, All-Permᴰ, All-map, select_all, select-select, Permᴰ-select,
}
use gopher_db.Catalog.ColumnDefinition.{ColumnDefinition}
use gopher_db.Catalog.IndexDefinition.{IndexDefinition, index_type_hash, index_type_btree}
use gopher_db.Catalog.TableDefinition.{TableDefinition}
use gopher_db.Execution.Typed.{eval-HasType}
use gopher_db.Execution.{is_true, eq_value, eval, eval_bool, filter_rows, project_rows}
use gopher_db.Optimizer.Equality.{extract_equality-SoundEquality, find_index_lem}
use gopher_db.Optimizer.Range.{in_range}
use gopher_db.Optimizer.Extract.{SoundRange}
use gopher_db.Optimizer.Store.{Store, at_key}
use gopher_db.Optimizer.{
  RangeInfo, extract_equality, PhysicalPlan, seq_scan_plan, hash_index_scan_plan,
  btree_index_scan_plan, filter_plan, project_plan, find_index,
}
use gopher_db.Semantic.Typing.{Row, get_at, HasType, IsTyped, Conforms}
use gopher_db.Semantic.{expr_type_bool, ResolvedExpr, expr_type}
use gopher_db.Value.{Value, boolean}

abbrev truth : Option Value → Bool
truth none = false
truth (some v) = is_true v

-- the row satisfies the predicate
abbrev pub satisfies : ResolvedExpr → Row → Bool
satisfies e row = truth (eval e row)

-- on rows on which it evaluates, the filter returns those that satisfy the predicate
filter_rows-select :
    (e : ResolvedExpr) (rows : List Row)
    → All (λ row. (b : Bool) × (eval e row ≡ some (boolean b))) rows
    → filter_rows e rows ≡ some (select (satisfies e) rows)
unfolding filter_rows select eval_bool
filter_rows-select e [] h = refl
filter_rows-select e (row ∷ rows) ((b, v), t) = rw (v, filter_rows-select e rows t)

module _ (list_indexes : TableDefinition → List IndexDefinition) (S : Store list_indexes) where
  -- The rows that the executors of a read-only plan return.
  pub data Returns : PhysicalPlan → List Row → Type 0 where
    seq : (table : TableDefinition) → Returns (seq_scan_plan table) (S.rows table)
    hash :
        (table : TableDefinition) (idx : IndexDefinition) (v : Value)
        → Returns (hash_index_scan_plan table idx v) (S.search table idx v)
    btree :
        (table : TableDefinition) (idx : IndexDefinition) (a : Value) (i : Bool) (b : Value)
        (j : Bool)
        → Returns (btree_index_scan_plan table idx a i b j) (S.range_search table idx a i b j)
    filter :
        (p : PhysicalPlan) (e : ResolvedExpr) (rows out : List Row)
        → Returns p rows
        → filter_rows e rows ≡ some out
        → Returns (filter_plan p e) out
    project :
        (p : PhysicalPlan) (columns : List ColumnDefinition) (rows out : List Row)
        → Returns p rows
        → project_rows columns rows ≡ some out
        → Returns (project_plan p columns) out

  -- a scan that reads, in some order, at least the rows that satisfy the predicate
  pub Covers : TableDefinition → ResolvedExpr → PhysicalPlan → Type 0
  Covers table e p =
      (rows : List Row) × Returns p rows
      × (q : Row → Bool) × Permᴰ rows (select q (S.rows table))
      × All (λ row. satisfies e row ≡ true → q row ≡ true) (S.rows table)

  module _ (table : TableDefinition) (e : ResolvedExpr) (typed : IsTyped (S.schema table) e)
      (bool : expr_type e ≡ expr_type_bool) where
    evaluates_row :
        (row : Row) → Conforms (S.schema table) row → (b : Bool) × (eval e row ≡ some (boolean b))
    evaluates_row row c =
        let (v, f, h) = eval-HasType (S.schema table) e row typed c in
        let (b, g) = subst (λ t. HasType t v) bool h in (b, f ∙ ap some g)

    evaluates : All (λ row. (b : Bool) × (eval e row ≡ some (boolean b))) (S.rows table)
    evaluates = All-map _ _ evaluates_row (S.rows table) (S.rows_conform table)

    -- the predicate is true of a row that satisfies it
    true_of :
        (row : Row)
        → Conforms (S.schema table) row
        → satisfies e row ≡ true
        → eval e row ≡ some (boolean true)
    true_of row c h =
        let (b, f) = evaluates_row row c in f ∙ ap (λ b. some (boolean b)) (sym (ap truth f) ∙ h)

    -- filtering a scan that covers the predicate
    pub filter-Covers :
        (p : PhysicalPlan)
        → Covers table e p
        → (out : List Row) × Returns (filter_plan p e) out
          × Permᴰ out (select (satisfies e) (S.rows table))
    unfolding Covers
    filter-Covers p (rows, returns, q, perm, weaker) = (
      select (satisfies e) rows,
      filter p e rows _ returns (
          filter_rows-select e rows
            (All-Permᴰ _ (Permᴰ.symm perm) (All-select _ q (S.rows table) evaluates))),
      subst (Permᴰ (select (satisfies e) rows))
          (select-select (satisfies e) q (S.rows table) weaker) (Permᴰ-select (satisfies e) perm),
    )

    pub Covers-seq : Covers table e (seq_scan_plan table)
    unfolding Covers
    Covers-seq = (
      S.rows table,
      seq table,
      λ _. true,
      subst (Permᴰ (S.rows table)) (sym (select_all (S.rows table))) (Permᴰ.refl (S.rows table)),
      All-map _ _ (λ row c h. refl) (S.rows table) (S.rows_conform table),
    )

    pub Covers-hash :
        (c : ColumnDefinition) (k : Value) (idx : IndexDefinition)
        → extract_equality e ≡ some (c, k)
        → find_index (list_indexes table) c index_type_hash ≡ some idx
        → Covers table e (hash_index_scan_plan table idx k)
    unfolding Covers
    Covers-hash c k idx x f =
        let s = extract_equality-SoundEquality (S.schema table) e c k typed x in
        let (listed, type, column) = find_index_lem (list_indexes table) c index_type_hash idx f in
        (
          S.search table idx k,
          hash table idx k,
          λ row. at_key (λ v. eq_value v k) (get_at row c.position),
          S.search-Permᴰ table idx c.position s.type_is k listed type
              (ap (S.schema table) column ∙ s.column_is) s.value_typed,
          All-map _ _
              (λ row conforms h.
                let (v, at, eq) = s.holds row conforms (true_of row conforms h) in
                ap (at_key (λ v. eq_value v k)) at ∙ eq)
              (S.rows table) (S.rows_conform table),
        )

    pub Covers-btree :
        (r : RangeInfo) (idx : IndexDefinition)
        → SoundRange (S.schema table) e r
        → find_index (list_indexes table) r.column index_type_btree ≡ some idx
        → Covers table e
            (btree_index_scan_plan table idx r.lower r.lower_inclusive r.upper r.upper_inclusive)
    unfolding Covers
    Covers-btree r idx s f =
        let t = s.typed in
        let (listed, type, column) =
          find_index_lem (list_indexes table) r.column index_type_btree idx f in
        (
          S.range_search table idx r.lower r.lower_inclusive r.upper r.upper_inclusive,
          btree table idx r.lower r.lower_inclusive r.upper r.upper_inclusive,
          λ row. at_key (in_range r) (get_at row r.column.position),
          S.range_search-Permᴰ table idx r.column.position t.type_is r.lower r.lower_inclusive
              r.upper r.upper_inclusive listed type (ap (S.schema table) column ∙ t.column_is)
              t.lower_typed t.upper_typed,
          All-map _ _
              (λ row conforms h.
                let (v, at, _) = conforms r.column.oid r.column.position t.type_is t.column_is in
                ap (at_key (in_range r)) at ∙ s.holds row conforms (true_of row conforms h) v at)
              (S.rows table) (S.rows_conform table),
        )
