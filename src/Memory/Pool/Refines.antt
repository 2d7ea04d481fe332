-- ===== src/Memory/Pool/Refines.antt =====
-- The pool refines a map from keys to pages: `GetPage` reads it, `UpdatePage` and `NewPage` change it at one
-- key, whatever is evicted on the way.
use gopher_db.Base.{
  ◌<◌, ◌≡◌, refl, sym, subst, ◌∙◌, Option, none, some, length, Option-cases, inl, inr,
}
use gopher_db.Base.Outcome.{Outcome, ok, err, panic, Outcome-cases}
use gopher_db.Memory.Disk.{PageFileManager}
use gopher_db.Memory.Pool.Content.{Got, Got-hit, Got-loaded}
use gopher_db.Memory.Pool.Evict.{MadeRoom, ensure_space-MadeRoom}
use gopher_db.Memory.Pool.Invariant.{IsValid}
use gopher_db.Memory.Pool.Space.{Spaced, Keeps-trans}
use gopher_db.Memory.Pool.{
  PoolError, Pool, find, path, ensure_space, loaded, with_space, get_found, get_page,
}
use gopher_db.Memory.Replacer.{Replacer}
use gopher_db.Memory.Slot.{PageKey, BufferSlot}

module _ (R : Replacer) (F : PageFileManager) where
  -- a call that failed after making room
  Got-error :
      (s t : Pool R F) (k : PageKey) (o : Outcome (PoolError F.Error) BufferSlot)
      → Spaced R F s t
      → ((slot : BufferSlot) → ¬ (o ≡ ok slot))
      → Got R F k s (t, o)
  Got-error s t k o sp no_slot = record {
    valid = sp.valid;
    keeps = sp.keeps;
    slot_is = λ slot e. absurd (no_slot slot e);
  }

  -- what is got from the state after making room is got from the state before
  Got-after :
      (s t : Pool R F) (k : PageKey) (p : Pool R F × Outcome (PoolError F.Error) BufferSlot)
      → Spaced R F s t
      → find k s.table ≡ none
      → Got R F k t p
      → Got R F k s p
  Got-after s t k p sp absent g = record {
    valid = g.valid;
    keeps = λ j. Keeps-trans R F s t p.0 j (sp.keeps j) (g.keeps j);
    slot_is = λ slot e. (
      sym ((sp.keeps k).content_is (λ x f c. absurd (none_some absent f))) ∙ (g.slot_is slot e).0,
      (g.slot_is slot e).1,
    );
  }
    where
      none_some : {o : Option BufferSlot} {x : BufferSlot} → o ≡ none → o ≡ some x → ⊥
      none_some a b = cc

  abbrev read_then_add : PageKey → Pool R F → Pool R F × Outcome (PoolError F.Error) BufferSlot
  read_then_add k t = loaded R F k t (F.read k.page_id (path R F t k) t.disk)

  Got-read :
      (s t : Pool R F) (k : PageKey)
      → find k s.table ≡ none
      → MadeRoom R F s (t, ok tt)
      → Got R F k s (read_then_add k t)
  Got-read s t k absent m =
      let sp = m.spaced in
      let room : length t.table < t.pool_size =
        subst (λ n. length t.table < n) (sym sp.size_is) (m.has_room refl) in
      elim (Outcome-cases (F.read k.page_id (path R F t k) t.disk)) [
        | inl (pg, e) ↦
            subst (λ o. Got R F k s (loaded R F k t o)) (sym e)
              (Got-after s t k _ sp absent
                (Got-loaded R F t sp.valid k pg (sp.absent k absent) room e))
        | inr (inl (e, w)) ↦
            subst (λ o. Got R F k s (loaded R F k t o)) (sym w) (Got-error s t k _ sp (λ x f. cc))
        | inr (inr w) ↦
            subst (λ o. Got R F k s (loaded R F k t o)) (sym w) (Got-error s t k _ sp (λ x f. cc))
      ]

  Got-miss :
      (s : Pool R F) (k : PageKey) (p : Pool R F × Outcome (PoolError F.Error) (Unit {0}))
      → find k s.table ≡ none
      → MadeRoom R F s p
      → Got R F k s (with_space R F (read_then_add k) p)
  Got-miss s k (t, ok _) absent m = Got-read s t k absent m
  Got-miss s k (t, err e) absent m = Got-error s t k _ m.spaced (λ x f. cc)
  Got-miss s k (t, panic) absent m = Got-error s t k _ m.spaced (λ x f. cc)

  -- On a valid pool `GetPage` keeps the invariant, changes neither what any durable key stands for nor
  -- any pinned slot, whether it succeeds or fails, and on success returns a slot with the page
  -- that the key stood for, which is then in the table.
  pub get_page-Got : (s : Pool R F) → IsValid R F s → (k : PageKey) → Got R F k s (get_page R F k s)
  unfolding get_page
  get_page-Got s h k = elim (Option-cases (find k s.table)) [
    | inr (slot, there) ↦
        subst (λ o. Got R F k s (get_found R F k o s)) (sym there) (Got-hit R F s h k slot there)
    | inl absent ↦
        subst (λ o. Got R F k s (get_found R F k o s)) (sym absent)
          (Got-miss s k (ensure_space R F s) absent (ensure_space-MadeRoom R F s h))
  ]
