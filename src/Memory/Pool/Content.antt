-- ===== src/Memory/Pool/Content.antt =====
-- `GetPage` against the abstract view of the pool, a map from keys to pages: the two ways it ends.
use mathlib.Core.Path.{ap₂}
use gopher_db.Base.{
  ◌<◌, ◌≡◌, refl, sym, subst, ap, ◌∙◌, false, Option, none, some, length, inl, inr, ◌∷◌,
}
use gopher_db.Base.Outcome.{Outcome, ok}
use gopher_db.Memory.Disk.{PageFileManager, found}
use gopher_db.Memory.Page.{HeapPage}
use gopher_db.Memory.Pool.Invariant.{Suits, on_disk, content, held, Durable, IsValid, Keeps}
use gopher_db.Memory.Pool.Touch.{
  touch-touched, modified, find_self, modified-Keeps, modified-IsValid, added, find_added,
  added-Keeps, added-IsValid,
}
use gopher_db.Memory.Pool.{PoolError, Pool, find, modify, path, add_slot, get_found}
use gopher_db.Memory.Replacer.{Replacer}
use gopher_db.Memory.Slot.{PageKey, eq_key-cases, BufferSlot, new_buffer_slot, increment_usage}

module _ (R : Replacer) (F : PageFileManager) where
  -- What a look-up leaves: the invariant, every key's view, and on success the slot with the page that the
  -- key stood for, which is then in the table.
  pub record Got (k : PageKey) (s : Pool R F)
      (p : Pool R F × Outcome (PoolError F.Error) BufferSlot) : Type 0 where
    pub valid : IsValid R F p.0
    pub keeps : (j : PageKey) → Keeps R F s p.0 j
    pub slot_is :
        (slot : BufferSlot)
        → p.1 ≡ ok slot
        → (content R F s k ≡ some slot.page) × (find k p.0.table ≡ some slot)

  some_eq : {x y : BufferSlot} → some x ≡ some y → x ≡ y
  some_eq e = cc

  ok_eq :
      {x y : BufferSlot} → ◌≡◌ {A = Outcome (PoolError F.Error) BufferSlot} (ok x) (ok y) → x ≡ y
  ok_eq e = cc

  absurd_find : {o : Option BufferSlot} {x : BufferSlot} → o ≡ none → o ≡ some x → ⊥
  absurd_find a b = cc

  pub Got-hit :
      (s : Pool R F)
      → IsValid R F s
      → (k : PageKey) (slot : BufferSlot) → find k s.table ≡ some slot
      → Got k s (get_found R F k (some slot) s)
  Got-hit s h k slot there =
      let f = increment_usage in
      let suits = h.suits k slot there in
      let self = find_self R F s h k f (λ x. refl) (λ x. refl) slot there suits in
      let s' = modified R F s h k f (λ x. refl) (λ x. refl) slot there suits in
      let other = modified-Keeps R F s h k f (λ x. refl) (λ x. refl) slot there suits in
      let at_key : Keeps R F s s' k = record {
        content_is = λ dur. ap₂ held self refl ∙ sym (ap₂ held there refl);
        durable = λ dur x e c. still_durable s k slot x there (some_eq (sym self ∙ e)) dur c;
        pinned_stays = λ x e p. (
          f slot,
          self,
          ap (λ (y : BufferSlot). y.page) (some_eq (sym there ∙ e)),
          ap (λ (y : BufferSlot). y.pinned) (some_eq (sym there ∙ e)) ∙ p,
        );
      } in
      subst (λ t. Got k s (t, ok (f slot)))
        (sym (touch-touched R F (f slot) (record s { table = modify k f s.table })))
        (record {
          valid = modified-IsValid R F s h k f (λ x. refl) (λ x. refl) slot there suits;
          keeps = λ j. elim (eq_key-cases k j) [
            | inl (at, _) ↦ subst (Keeps R F s s') at at_key
            | inr (ne, _) ↦ other j ne
          ];
          slot_is = λ x e. (
            ap₂ held there refl ∙ ap (λ (y : BufferSlot). some y.page) (ok_eq e),
            self ∙ ap some (ok_eq e),
          );
        })
    where
      still_durable :
          (s : Pool R F) (k : PageKey) (slot x : BufferSlot)
          → find k s.table ≡ some slot
          → increment_usage slot ≡ x
          → Durable R F s k
          → x.dirty ≡ false
          → on_disk R F s k ≡ some x.page
      still_durable s k slot x there same dur c =
          dur slot there (ap (λ (y : BufferSlot). y.dirty) same ∙ c)
          ∙ ap (λ (y : BufferSlot). some y.page) same

  -- a page that was read goes into the table
  pub Got-loaded :
      (t : Pool R F)
      → IsValid R F t
      → (k : PageKey) (pg : HeapPage) → find k t.table ≡ none
      → length t.table < t.pool_size
      → F.read k.page_id (path R F t k) t.disk ≡ ok pg
      → Got k t (add_slot R F k pg t)
  Got-loaded t h k pg absent room e =
      let sound = F.read_sound k.page_id (path R F t k) t.disk pg e in
      let suits : Suits k pg = record { size_is = sound.0; page_id_is = sound.1 } in
      let self = find_added R F t h k pg absent room suits in
      let t' = added R F t h k pg absent room suits in
      let read_page : on_disk R F t k ≡ some pg = ap found e in
      let at_key : Keeps R F t t' k = record {
        content_is = λ dur. ap₂ held self refl ∙ sym (ap₂ held absent refl ∙ read_page);
        durable =
            λ dur x f c. read_page ∙ ap (λ (y : BufferSlot). some y.page) (some_eq (sym self ∙ f));
        pinned_stays = λ x f p. absurd (absurd_find absent f);
      } in
      subst (λ u. Got k t (u, ok (new_buffer_slot k pg)))
        (sym (
          touch-touched R F (new_buffer_slot k pg)
            (record t { table = new_buffer_slot k pg ∷ t.table })))
        (record {
          valid = added-IsValid R F t h k pg absent room suits;
          keeps = λ j. elim (eq_key-cases k j) [
            | inl (at, _) ↦ subst (Keeps R F t t') at at_key
            | inr (ne, _) ↦ added-Keeps R F t h k pg absent room suits j ne
          ];
          slot_is = λ x f. (
            ap₂ held absent refl ∙ read_page ∙ ap (λ (y : BufferSlot). some y.page) (ok_eq f),
            self ∙ ap some (ok_eq f),
          );
        })
