-- ===== src/Optimizer/Answer.antt =====
-- From a `SELECT` to its answer: the logical plan, the scan that is chosen, the filter and the projection.
use mathlib.Core.List.{Permᴰ, Perm, filter_map}
use mathlib.Core.List.Permᴰ
use gopher_db.Base.{◌≡◌, refl, ap, ◌∙◌, List, [], ◌∷◌, Option, none, some, Option-cases, inl, inr}
use gopher_db.Base.Select.{select, All, All-select, All-Permᴰ, All-map}
use gopher_db.Catalog.ColumnDefinition.{ColumnDefinition}
use gopher_db.Catalog.IndexDefinition.{IndexDefinition, index_type_hash, index_type_btree}
use gopher_db.Catalog.TableDefinition.{TableDefinition}
use gopher_db.Execution.{project_row, project_rows}
use gopher_db.Optimizer.Plans.{
  satisfies, Returns, seq, project, Covers, filter-Covers, Covers-seq, Covers-hash, Covers-btree,
}
use gopher_db.Optimizer.Sound.{Extracted, extract_range-Extracted}
use gopher_db.Optimizer.Store.{Store}
use gopher_db.Optimizer.{
  extract_equality, extract_range, PhysicalPlan, seq_scan_plan, hash_index_scan_plan,
  btree_index_scan_plan, filter_plan, project_plan, find_index, choose, choose_best_scan, optimize,
}
use gopher_db.Planner.{SelectQueryTree, select_query, plan, filtered, scan_node}
use gopher_db.Semantic.Typing.{Row, Schema, IsTyped, Conforms}
use gopher_db.Semantic.{ExprType, expr_type_bool, ResolvedExpr, expr_type}

-- the column is the schema's
abbrev pub InSchema : Schema → ColumnDefinition → Type 0
InSchema schema c = (t : ExprType) × (schema c.oid ≡ some (c.position, t))

-- no filter, or a well-typed one that is Boolean
abbrev pub FilterTyped : Schema → Option ResolvedExpr → Type 0
FilterTyped schema none = Unit {0}
FilterTyped schema (some e) = IsTyped schema e × (expr_type e ≡ expr_type_bool)

abbrev wanted : Option ResolvedExpr → List Row → List Row
wanted none rows = rows
wanted (some e) rows = select (satisfies e) rows

-- The answer, in the table's order: the rows that satisfy the filter, projected.
unfoldable pub answer : SelectQueryTree → List Row → List Row
answer sel rows = filter_map (project_row sel.target_columns) (wanted sel.filter rows)

project_total :
    (schema : Schema) (columns : List ColumnDefinition) (row : Row)
    → All (InSchema schema) columns
    → Conforms schema row
    → (out : Row) × (project_row columns row ≡ some out)
unfolding project_row
project_total schema [] row h c = ([], refl)
project_total schema (col ∷ columns) row ((t, e), h) c =
    let (v, at, _) = c col.oid col.position t e in
    let (out, f) = project_total schema columns row h c in (v ∷ out, rw (at, f))

project_rows-filter_map :
    (schema : Schema) (columns : List ColumnDefinition) (rows : List Row)
    → All (λ row. (out : Row) × (project_row columns row ≡ some out)) rows
    → project_rows columns rows ≡ some (filter_map (project_row columns) rows)
unfolding project_rows filter_map
project_rows-filter_map schema columns [] h = refl
project_rows-filter_map schema columns (row ∷ rows) ((out, e), t) =
    rw (e, project_rows-filter_map schema columns rows t)

module _ (list_indexes : TableDefinition → List IndexDefinition) (S : Store list_indexes) where
  module _ (table : TableDefinition) (e : ResolvedExpr) (typed : IsTyped (S.schema table) e)
      (bool : expr_type e ≡ expr_type_bool) where
    Chosen : Option PhysicalPlan → Type 0
    Chosen o = (p : PhysicalPlan) × (o ≡ some p) × Covers list_indexes S table e p

    range-Chosen :
        Extracted (S.schema table) e (extract_range e) → Chosen (choose list_indexes table e none)
    unfolding Chosen
    range-Chosen x = elim (Option-cases x.result) [
      | inl none' ↦ (
        seq_scan_plan table,
        rw (x.result_is ∙ ap some none'),
        Covers-seq list_indexes S table e typed bool,
      )
      | inr (r, some') ↦
          elim (Option-cases (find_index (list_indexes table) r.column index_type_btree)) [
            | inl f ↦ (
              seq_scan_plan table,
              rw (x.result_is ∙ ap some some', f),
              Covers-seq list_indexes S table e typed bool,
            )
            | inr (idx, f) ↦ (
              btree_index_scan_plan table idx r.lower r.lower_inclusive r.upper r.upper_inclusive,
              rw (x.result_is ∙ ap some some', f),
              Covers-btree list_indexes S table e typed bool r idx (x.sound r some') f,
            )
          ]
    ]

    -- the scan that is chosen covers the predicate
    choose_best_scan-Chosen : Chosen (choose_best_scan list_indexes table e)
    unfolding Chosen choose_best_scan
    choose_best_scan-Chosen =
        let ranged = range-Chosen (extract_range-Extracted (S.schema table) e typed) in
        elim (Option-cases (extract_equality e)) [
          | inl x ↦ rw x ranged
          | inr ((c, k), x) ↦
              elim (Option-cases (find_index (list_indexes table) c index_type_hash)) [
                | inl f ↦ rw (x, f) ranged
                | inr (idx, f) ↦ (
                  hash_index_scan_plan table idx k,
                  rw (x, f),
                  Covers-hash list_indexes S table e typed bool c k idx x f,
                )
              ]
        ]

  -- what a plan comes to: it is made without a panic, and returns the rows in some order
  abbrev Answers : Option PhysicalPlan → List Row → Type 0
  Answers o rows =
      (p : PhysicalPlan) × (o ≡ some p)
      × (out : List Row) × Returns list_indexes S p out
      × Permᴰ out rows

  filter-Answers :
      (table : TableDefinition) (f : Option ResolvedExpr)
      → FilterTyped (S.schema table) f
      → Answers (optimize list_indexes (filtered f (scan_node table))) (wanted f (S.rows table))
  unfolding optimize Chosen
  filter-Answers table none h =
      (seq_scan_plan table, refl, S.rows table, seq table, Permᴰ.refl (S.rows table))
  filter-Answers table (some e) (typed, bool) =
      let (p, e', c) = choose_best_scan-Chosen table e typed bool in
      let (out, r, perm) = filter-Covers list_indexes S table e typed bool p c in
      (filter_plan p e, rw e', out, r, perm)

  wanted-All :
      (P : Row → Type 0) (f : Option ResolvedExpr) (rows : List Row)
      → All P rows
      → All P (wanted f rows)
  wanted-All P none rows h = h
  wanted-All P (some e) rows h = All-select P (satisfies e) rows h

  -- A `SELECT` whose filter is well typed and Boolean and whose target columns are the table's is planned and
  -- optimized without a panic, and the executors of the physical plan, whichever index it uses, return
  -- without a panic, in some order, exactly the rows of the table that satisfy the filter, projected to the
  -- target columns; for every store whose rows conform to its schema and whose index lookups give the rows with
  -- an equal key or a key in the range.
  pub optimize-plan :
      (sel : SelectQueryTree)
      → FilterTyped (S.schema sel.table) sel.filter
      → All (InSchema (S.schema sel.table)) sel.target_columns
      → (p : PhysicalPlan) × (optimize list_indexes (plan (select_query sel)) ≡ some p)
        × (out : List Row) × Returns list_indexes S p out
        × Perm out (answer sel (S.rows sel.table))
  unfolding optimize plan answer
  optimize-plan sel h columns =
      let (p, e, rows, r, perm) = filter-Answers sel.table sel.filter h in
      let every : All (λ row. (out : Row) × (project_row sel.target_columns row ≡ some out))
          (S.rows sel.table) =
        All-map _ _ (λ row c. project_total (S.schema sel.table) sel.target_columns row columns c)
          (S.rows sel.table) (S.rows_conform sel.table) in
      (
        project_plan p sel.target_columns,
        rw e,
        filter_map (project_row sel.target_columns) rows,
        project p sel.target_columns rows _ r (
            project_rows-filter_map (S.schema sel.table) sel.target_columns rows
              (All-Permᴰ _ (Permᴰ.symm perm) (wanted-All _ sel.filter (S.rows sel.table) every))),
        ∣ Permᴰ.filter_map (project_row sel.target_columns) perm ∣₁,
      )
