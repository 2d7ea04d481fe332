-- ===== src/Memory/Pool/Store.antt =====
-- `NewPage` and `UpdatePage` against the abstract view of the pool: both change it at one key.
use gopher_db.Base.{
  ◌<◌, ◌≡◌, refl, sym, subst, Bool, true, false, none, some, length, Option-cases, inl, inr, ◌∷◌,
}
use gopher_db.Base.Outcome.{Outcome, ok, err, panic}
use gopher_db.Memory.Disk.{PageFileManager}
use gopher_db.Memory.Page.{HeapPage}
use gopher_db.Memory.Pool.Content.{Got}
use gopher_db.Memory.Pool.Evict.{MadeRoom, ensure_space-MadeRoom}
use gopher_db.Memory.Pool.Invariant.{Suits, IsValid, Keeps}
use gopher_db.Memory.Pool.Methods.{update_page, with_slot, store_page, slot_or_load}
use gopher_db.Memory.Pool.Refines.{get_page-Got}
use gopher_db.Memory.Pool.Space.{Keeps-refl, Keeps-trans}
use gopher_db.Memory.Pool.Touch.{
  touch-touched, modified, find_self, modified-Keeps, modified-IsValid, added, find_added,
  added-Keeps, added-IsValid,
}
use gopher_db.Memory.Pool.{
  PoolError, Pool, page_already_in_buffer, find, modify, ensure_space, add_slot, with_space,
  new_found, new_page, get_page,
}
use gopher_db.Memory.Replacer.{Replacer}
use gopher_db.Memory.Slot.{PageKey, eq_key, BufferSlot, new_buffer_slot, set_page, set_dirty}

abbrev replace_page : HeapPage → BufferSlot → BufferSlot
replace_page pg x = set_dirty (set_page x pg) true

module _ (R : Replacer) (F : PageFileManager) where
  -- What storing a page under a key leaves: the invariant, the view of every other key, and either the
  -- page in a slot with the given dirty mark, or, on failure, the key's own view as it was.
  pub record Stored {A : Type 0} (k : PageKey) (pg : HeapPage) (dirty : Bool) (s : Pool R F)
      (p : Pool R F × Outcome (PoolError F.Error) A) : Type 0 where
    pub valid : IsValid R F p.0
    pub others : (j : PageKey) → eq_key k j ≡ false → Keeps R F s p.0 j
    pub in_slot :
        (a : A)
        → p.1 ≡ ok a
        → (slot : BufferSlot) × (find k p.0.table ≡ some slot)
          × (slot.page ≡ pg)
          × (slot.dirty ≡ dirty)
    pub unchanged : ((a : A) → ¬ (p.1 ≡ ok a)) → Keeps R F s p.0 k

  Stored-error :
      {A : Type 0} (s t : Pool R F) (k : PageKey) (pg : HeapPage) (dirty : Bool)
      (o : Outcome (PoolError F.Error) A)
      → IsValid R F t
      → ((j : PageKey) → Keeps R F s t j)
      → ((a : A) → ¬ (o ≡ ok a))
      → Stored k pg dirty s (t, o)
  Stored-error s t k pg dirty o v keeps no_value = record {
    valid = v;
    others = λ j _. keeps j;
    in_slot = λ a e. absurd (no_value a e);
    unchanged = λ _. keeps k;
  }

  Stored-new :
      (s t : Pool R F) (k : PageKey) (pg : HeapPage)
      → Suits k pg
      → find k s.table ≡ none
      → MadeRoom R F s (t, ok tt)
      → Stored k pg false s (add_slot R F k pg t)
  Stored-new s t k pg suits absent m =
      let sp = m.spaced in
      let room : length t.table < t.pool_size =
        subst (λ n. length t.table < n) (sym sp.size_is) (m.has_room refl) in
      let gone = sp.absent k absent in
      subst (λ u. Stored k pg false s (u, ok (new_buffer_slot k pg)))
        (sym (
          touch-touched R F (new_buffer_slot k pg)
            (record t { table = new_buffer_slot k pg ∷ t.table })))
        (record {
          valid = added-IsValid R F t sp.valid k pg gone room suits;
          others = λ j ne.
              Keeps-trans R F s t (added R F t sp.valid k pg gone room suits) j (sp.keeps j)
                (added-Keeps R F t sp.valid k pg gone room suits j ne);
          in_slot = λ a e.
              (new_buffer_slot k pg, find_added R F t sp.valid k pg gone room suits, refl, refl);
          unchanged = λ no. absurd (no (new_buffer_slot k pg) refl);
        })

  new_miss :
      (s : Pool R F) (k : PageKey) (pg : HeapPage)
      (p : Pool R F × Outcome (PoolError F.Error) (Unit {0}))
      → Suits k pg
      → find k s.table ≡ none
      → MadeRoom R F s p
      → Stored k pg false s (with_space R F (add_slot R F k pg) p)
  new_miss s k pg (t, ok _) suits absent m = Stored-new s t k pg suits absent m
  new_miss s k pg (t, err e) suits absent m =
      Stored-error s t k pg false _ m.spaced.valid m.spaced.keeps (λ x f. cc)
  new_miss s k pg (t, panic) suits absent m =
      Stored-error s t k pg false _ m.spaced.valid m.spaced.keeps (λ x f. cc)

  -- On a valid pool, `NewPage` with a page that fits its key keeps the invariant and every other key's
  -- view; on success the page is in the key's slot, which is not marked dirty, and on failure the key's
  -- own view is as it was.
  pub new_page-Stored :
      (s : Pool R F)
      → IsValid R F s
      → (k : PageKey) (pg : HeapPage) → Suits k pg
      → Stored k pg false s (new_page R F k pg s)
  unfolding new_page
  new_page-Stored s h k pg suits = elim (Option-cases (find k s.table)) [
    | inr (slot, there) ↦
        subst (λ o. Stored k pg false s (new_found R F k pg o s)) (sym there)
          (Stored-error s s k pg false (err page_already_in_buffer) h (Keeps-refl R F s)
            (λ x f. cc))
    | inl absent ↦
        subst (λ o. Stored k pg false s (new_found R F k pg o s)) (sym absent)
          (new_miss s k pg (ensure_space R F s) suits absent (ensure_space-MadeRoom R F s h))
  ]

  Stored-over :
      (s t : Pool R F)
      → IsValid R F t
      → (k : PageKey) (pg : HeapPage) (slot : BufferSlot) → ((j : PageKey) → Keeps R F s t j)
      → Suits k pg
      → find k t.table ≡ some slot
      → Stored k pg true s (store_page R F k pg slot t)
  Stored-over s t h k pg slot keeps suits there =
      let f = replace_page pg in
      subst (λ u. Stored k pg true s (u, ok tt))
        (sym (touch-touched R F (f slot) (record t { table = modify k f t.table })))
        (record {
          valid = modified-IsValid R F t h k f (λ x. refl) (λ x. refl) slot there suits;
          others = λ j ne.
              Keeps-trans R F s t (modified R F t h k f (λ x. refl) (λ x. refl) slot there suits) j
                (keeps j)
                (modified-Keeps R F t h k f (λ x. refl) (λ x. refl) slot there suits j ne);
          in_slot = λ a e.
              (f slot, find_self R F t h k f (λ x. refl) (λ x. refl) slot there suits, refl, refl);
          unchanged = λ no. absurd (no tt refl);
        })

  Stored-Got :
      (s : Pool R F) (k : PageKey) (pg : HeapPage)
      (p : Pool R F × Outcome (PoolError F.Error) BufferSlot)
      → Suits k pg
      → Got R F k s p
      → Stored k pg true s (with_slot R F (store_page R F k pg) p)
  Stored-Got s k pg (t, ok slot) suits g =
      Stored-over s t g.valid k pg slot g.keeps suits (g.slot_is slot refl).1
  Stored-Got s k pg (t, err e) suits g = Stored-error s t k pg true _ g.valid g.keeps (λ x f. cc)
  Stored-Got s k pg (t, panic) suits g = Stored-error s t k pg true _ g.valid g.keeps (λ x f. cc)

  -- On a valid pool, `UpdatePage` with a page that fits its key keeps the invariant and every other key's
  -- view; on success the page is in the key's slot, which is marked dirty, and on failure the key's own
  -- view is as it was.
  pub update_page-Stored :
      (s : Pool R F)
      → IsValid R F s
      → (k : PageKey) (pg : HeapPage) → Suits k pg
      → Stored k pg true s (update_page R F k pg s)
  unfolding update_page
  update_page-Stored s h k pg suits = elim (Option-cases (find k s.table)) [
    | inr (slot, there) ↦
        subst
          (λ o. Stored k pg true s (with_slot R F (store_page R F k pg) (slot_or_load R F k o s)))
          (sym there) (Stored-over s s h k pg slot (Keeps-refl R F s) suits there)
    | inl absent ↦
        subst
          (λ o. Stored k pg true s (with_slot R F (store_page R F k pg) (slot_or_load R F k o s)))
          (sym absent) (Stored-Got s k pg (get_page R F k s) suits (get_page-Got R F s h k))
  ]
