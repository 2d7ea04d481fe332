-- ===== src/Analyzer/CreateTable.antt =====
-- Which `CREATE TABLE` statements `internal/core/sql/semantic/analyzer.go` accepts.
use gopher_db.Analyzer.Select.{require-ok}
use gopher_db.Analyzer.{
  Lookups, require, normalize_type_name, seen_name, create_columns, table_absent,
  analyze_create_table,
}
use gopher_db.Ast.{ColumnDef, CreateTableStmt}
use gopher_db.Base.Outcome.{ok, ok_parts, ok_injective, err≢ok}
use gopher_db.Base.Select.{All}
use gopher_db.Base.{
  ◌≡◌, ◌≢◌, ◌↔◌, inl, inr, refl, ap, subst, sym, false, List, [], ◌∷◌, Option, none, some, arith,
  Bool-cases,
}
use gopher_db.Bytes.Compare.{eq_bytes, eq_bytes_sound, eq_bytes_refl}
use gopher_db.Bytes.Copy.{Bytes}
use gopher_db.Catalog.TypeDefinition.{TypeDefinition}
use gopher_db.Catalog.TableDefinition.{TableDefinition}
use gopher_db.Planner.{CreateTableQueryTree}

-- no two columns have one name
abbrev pub DistinctNames : List ColumnDef → Type 0
DistinctNames [] = Unit
DistinctNames (cd ∷ cds) = All (λ other. cd.name ≢ other.name) cds × DistinctNames cds

module _ (C : Lookups) where
  -- each resolved column has its definition's name and the type of its definition's type name
  abbrev pub Resolves : List ColumnDef → List (Bytes × TypeDefinition) → Type 0
  Resolves [] [] = Unit
  Resolves [] (_ ∷ _) = ⊥
  Resolves (_ ∷ _) [] = ⊥
  Resolves (cd ∷ cds) ((name, type_def) ∷ cols) =
      (name ≡ cd.name)
      × (C.get_type_by_name (normalize_type_name cd.type_name) ≡ some type_def)
      × Resolves cds cols

  abbrev Unseen : List Bytes → List ColumnDef → Type 0
  Unseen seen cds = All (λ (cd : ColumnDef). seen_name cd.name seen ≡ false) cds

  unseen_after :
      (name other : Bytes) (seen : List Bytes)
      → seen_name other seen ≡ false
      → name ≢ other
      → seen_name other (name ∷ seen) ≡ false
  unfolding seen_name
  unseen_after name other seen h new = elim (Bool-cases (eq_bytes name other)) [
    | inl e ↦ absurd (new (eq_bytes_sound name other e))
    | inr e ↦ rw (e, h)
  ]

  unseen_before :
      (name other : Bytes) (seen : List Bytes)
      → seen_name other (name ∷ seen) ≡ false
      → (seen_name other seen ≡ false) × (name ≢ other)
  unfolding seen_name
  unseen_before name other seen h = (ground arith, λ e. different e)
    where
      different : name ≡ other → ⊥
      different e = ground (arith, ap (λ n. eq_bytes n other) e, eq_bytes_refl other)

  Unseen-cons :
      (name : Bytes) (seen : List Bytes) (cds : List ColumnDef)
      → Unseen seen cds
      → All (λ other. name ≢ other.name) cds
      → Unseen (name ∷ seen) cds
  Unseen-cons name seen [] u new = tt
  Unseen-cons name seen (cd ∷ cds) (h, u) (n, new) =
      (unseen_after name cd.name seen h n, Unseen-cons name seen cds u new)

  Unseen-parts :
      (name : Bytes) (seen : List Bytes) (cds : List ColumnDef)
      → Unseen (name ∷ seen) cds
      → Unseen seen cds × All (λ other. name ≢ other.name) cds
  Unseen-parts name seen [] u = (tt, tt)
  Unseen-parts name seen (cd ∷ cds) (h, u) =
      let (old, new) = Unseen-parts name seen cds u in
      let (h', n) = unseen_before name cd.name seen h in ((h', old), (n, new))

  create_columns_sound :
      (seen : List Bytes) (cds : List ColumnDef) (cols : List (Bytes × TypeDefinition))
      → create_columns C seen cds ≡ ok cols
      → Resolves cds cols × Unseen seen cds × DistinctNames cds
  unfolding create_columns
  create_columns_sound seen [] cols h = (subst (Resolves []) (ok_injective h) tt, tt, tt)
  create_columns_sound seen (cd ∷ cds) cols h = elim (Bool-cases (seen_name cd.name seen)) [
    | inl old ↦ absurd (err≢ok (rw old at h))
    | inr fresh ↦
        let (type_def, rest, found) =
          ok_parts _ (require _ (C.get_type_by_name (normalize_type_name cd.type_name)))
            (rw fresh at h) in
        let (cols', done, later) = ok_parts _ (create_columns C (cd.name ∷ seen) cds) rest in
        let (resolves, unseen, distinct) = create_columns_sound (cd.name ∷ seen) cds cols' later in
        let (old, new) = Unseen-parts cd.name seen cds unseen in
        (
          subst (Resolves (cd ∷ cds)) (ok_injective done)
              (refl, require-ok _ _ type_def found, resolves),
          (fresh, old),
          (new, distinct),
        )
  ]

  create_columns_complete :
      (seen : List Bytes) (cds : List ColumnDef) (cols : List (Bytes × TypeDefinition))
      → Resolves cds cols
      → Unseen seen cds
      → DistinctNames cds
      → create_columns C seen cds ≡ ok cols
  unfolding create_columns
  create_columns_complete seen [] [] r u d = refl
  create_columns_complete seen [] (_ ∷ _) r u d = absurd r
  create_columns_complete seen (cd ∷ cds) [] r u d = absurd r
  create_columns_complete seen (cd ∷ cds) ((name, type_def) ∷ cols) (e, found, r) (fresh, u)
        (new, d) =
      rw (
        fresh,
        found,
        e,
        create_columns_complete (cd.name ∷ seen) cds cols r (Unseen-cons cd.name seen cds u new) d,
      )

  -- The statement's table is not there, its columns have different names, and the query has the statement's
  -- name and its columns in their order with the types of their type names.
  abbrev pub Creates : CreateTableStmt → CreateTableQueryTree → Type 0
  Creates s q =
      (C.get_table s.table_name ≡ none)
      × DistinctNames s.columns
      × (q.table_name ≡ s.table_name)
      × Resolves s.columns q.columns

  -- The analyzer makes a query of a `CREATE TABLE` exactly when the table is not there, no two columns have one
  -- name, and the query has the statement's name and columns, each with the type of its normalized type name.
  pub analyze_create_table-Creates :
      (s : CreateTableStmt) (q : CreateTableQueryTree)
      → (analyze_create_table C s ≡ ok q) ↔ Creates s q
  unfolding analyze_create_table
  analyze_create_table-Creates s q = (sound, complete)
    where
      nothing_seen : (cds : List ColumnDef) → Unseen [] cds
      nothing_seen [] = tt
      nothing_seen (cd ∷ cds) = (unfold seen_name in refl, nothing_seen cds)

      table_absent-ok :
          (o : Option TableDefinition) → table_absent C s.table_name o ≡ ok tt → o ≡ none
      table_absent-ok none h = refl
      table_absent-ok (some t) h = cc

      sound : (analyze_create_table C s ≡ ok q) → Creates s q
      sound h =
          let (_, rest, absent) =
            ok_parts _ (table_absent C s.table_name (C.get_table s.table_name)) h in
          let (cols, done, made) = ok_parts _ (create_columns C [] s.columns) rest in
          let (resolves, unseen, distinct) = create_columns_sound [] s.columns cols made in
          (
            table_absent-ok (C.get_table s.table_name) absent,
            distinct,
            ap (λ (r : CreateTableQueryTree). r.table_name) (sym (ok_injective done)),
            subst (λ (r : CreateTableQueryTree). Resolves s.columns r.columns) (ok_injective done)
                resolves,
          )

      complete : Creates s q → analyze_create_table C s ≡ ok q
      complete (absent, distinct, name, resolves) = rw (
        absent,
        create_columns_complete [] s.columns q.columns resolves (nothing_seen s.columns) distinct,
        name,
      )
