-- ===== src/Memory/Pool/FlushAll.antt =====
-- `FlushAllPages`: the loop over the slots of the table.
use gopher_db.Base.{
  ◌≡◌, refl, sym, subst, ap, ◌∙◌, Bool, true, false, Option, none, some, [], ◌∷◌, Option-cases, inl,
  inr,
}
use gopher_db.Base.Outcome.{Outcome, ok, err, panic}
use gopher_db.Memory.Disk.{PageFileManager}
use gopher_db.Memory.Keys.{mem, Distinct}
use gopher_db.Memory.Pool.Invariant.{on_disk, IsValid, Keeps}
use gopher_db.Memory.Pool.Methods.{flush_slots, flush_all_pages}
use gopher_db.Memory.Pool.Space.{Keeps-refl, Keeps-trans}
use gopher_db.Memory.Pool.Table.{keys, mem-keys}
use gopher_db.Memory.Pool.Written.{Flushed, flush_slot-Flushed, clean}
use gopher_db.Memory.Pool.{PoolError, Pool, Table, find, flush_slot}
use gopher_db.Memory.Replacer.{Replacer}
use gopher_db.Memory.Slot.{PageKey, eq_key, eq_key-cases, eq_key_refl, BufferSlot}

module _ (R : Replacer) (F : PageFileManager) where
  -- What flushing the slots of a table leaves: the invariant, every key's view, the slots and the pages of other
  -- keys; and on success each slot is clean, and on the disk if it was dirty.
  pub record AllFlushed (t : Table) (s : Pool R F)
      (p : Pool R F × Outcome (PoolError F.Error) (Unit {0})) : Type 0 where
    pub valid : IsValid R F p.0
    pub keeps : (j : PageKey) → Keeps R F s p.0 j
    pub stays :
        (j : PageKey)
        → find j t ≡ none
        → (find j p.0.table ≡ find j s.table) × (on_disk R F p.0 j ≡ on_disk R F s j)
    pub done :
        p.1 ≡ ok tt
        → (k : PageKey) (slot : BufferSlot) → find k t ≡ some slot
        → (find k p.0.table ≡ some (clean slot))
          × (slot.dirty ≡ true → on_disk R F p.0 k ≡ some slot.page)

  -- the table's slots are in the pool
  abbrev Within : Table → Pool R F → Type 0
  Within t s = (k : PageKey) (slot : BufferSlot) → find k t ≡ some slot → find k s.table ≡ some slot

  module _ (slot : BufferSlot) (rest : Table) where
    find_head : find slot.key (slot ∷ rest) ≡ some slot
    unfolding find
    find_head = rw (eq_key_refl slot.key)

    find_tail : (k : PageKey) → eq_key slot.key k ≡ false → find k (slot ∷ rest) ≡ find k rest
    unfolding find
    find_tail k ne = rw ne

    -- a key of the rest is another key
    other_key :
        mem slot.key (keys rest) ≡ false
        → (k : PageKey) (x : BufferSlot) → find k rest ≡ some x
        → eq_key slot.key k ≡ false
    other_key fresh k x e = elim (eq_key-cases slot.key k) [
      | inr (ne, _) ↦ ne
      | inl (at, _) ↦
          absurd (clash (mem-keys k rest e) (ap (λ i. mem i (keys rest)) (sym at) ∙ fresh))
    ]
      where
        clash : {b : Bool} → b ≡ true → b ≡ false → ⊥
        clash a b = cc

    absent_head :
        (j : PageKey)
        → find j (slot ∷ rest) ≡ none
        → (eq_key slot.key j ≡ false) × (find j rest ≡ none)
    absent_head j e = elim (eq_key-cases slot.key j) [
      | inr (ne, _) ↦ (ne, sym (find_tail j ne) ∙ e)
      | inl (at, _) ↦ absurd (clash (sym (ap (λ i. find i (slot ∷ rest)) at) ∙ find_head) e)
    ]
      where
        clash : {o : Option BufferSlot} {x : BufferSlot} → o ≡ some x → o ≡ none → ⊥
        clash a b = cc

    Within-rest :
        (s : Pool R F) (p : Pool R F × Outcome (PoolError F.Error) (Unit {0}))
        → Within (slot ∷ rest) s
        → mem slot.key (keys rest) ≡ false
        → Flushed R F slot.key slot s p
        → Within rest p.0
    Within-rest s p w fresh g k x e =
        let ne = other_key fresh k x e in (g.stays k ne).0 ∙ w k x (find_tail k ne ∙ e)

    -- the head's flush failed
    AllFlushed-failed :
        (s t : Pool R F) (o : Outcome (PoolError F.Error) (Unit {0}))
        → ¬ (o ≡ ok tt)
        → Flushed R F slot.key slot s (t, o)
        → AllFlushed (slot ∷ rest) s (t, o)
    AllFlushed-failed s t o no_value g = record {
      valid = g.valid;
      keeps = g.keeps;
      stays = λ j e. g.stays j (absent_head j e).0;
      done = λ e. absurd (no_value e);
    }

    -- the head's flush, and then the rest's
    AllFlushed-then :
        (s t : Pool R F) (p : Pool R F × Outcome (PoolError F.Error) (Unit {0}))
        → mem slot.key (keys rest) ≡ false
        → Flushed R F slot.key slot s (t, ok tt)
        → AllFlushed rest t p
        → AllFlushed (slot ∷ rest) s p
    AllFlushed-then s t p fresh g a = record {
      valid = a.valid;
      keeps = λ j. Keeps-trans R F s t p.0 j (g.keeps j) (a.keeps j);
      stays = λ j e.
          let (ne, e') = absent_head j e in
          ((a.stays j e').0 ∙ (g.stays j ne).0, (a.stays j e').1 ∙ (g.stays j ne).1);
      done = λ r k x e. elim (eq_key-cases slot.key k) [
        | inr (ne, _) ↦ a.done r k x (sym (find_tail k ne) ∙ e)
        | inl (at, _) ↦
            let one : slot ≡ x = some_eq (sym find_head ∙ ap (λ i. find i (slot ∷ rest)) at ∙ e) in
            subst
              (λ k.
                (find k p.0.table ≡ some (clean x))
                × (x.dirty ≡ true → on_disk R F p.0 k ≡ some x.page))
              at
              (subst
                (λ x.
                  (find slot.key p.0.table ≡ some (clean x))
                  × (x.dirty ≡ true → on_disk R F p.0 slot.key ≡ some x.page))
                one
                (let kept = a.stays slot.key (not_in_rest fresh) in
                  (kept.0 ∙ g.cleaned refl, λ d. kept.1 ∙ g.written refl d)))
      ];
    }
      where
        some_eq : {x y : BufferSlot} → some x ≡ some y → x ≡ y
        some_eq e = cc

        clash : {b : Bool} → b ≡ true → b ≡ false → ⊥
        clash a b = cc

        not_in_rest : mem slot.key (keys rest) ≡ false → find slot.key rest ≡ none
        not_in_rest fresh = elim (Option-cases (find slot.key rest)) [
          | inl e ↦ e
          | inr (x, e) ↦ absurd (clash (mem-keys slot.key rest e) fresh)
        ]

  AllFlushed-none : (s : Pool R F) → IsValid R F s → AllFlushed [] s (s, ok tt)
  unfolding find
  AllFlushed-none s h = record {
    valid = h;
    keeps = Keeps-refl R F s;
    stays = λ j _. (refl, refl);
    done = λ _ k x e. absurd (nothing e);
  }
    where
      nothing : {x : BufferSlot} → none ≡ some x → ⊥
      nothing e = cc

  -- one round of the loop, given the rest of it
  AllFlushed-round :
      (slot : BufferSlot) (rest : Table) (s : Pool R F)
      → Within (slot ∷ rest) s
      → mem slot.key (keys rest) ≡ false
      → ((u : Pool R F)
          → IsValid R F u
          → Within rest u
          → AllFlushed rest u (flush_slots R F rest u))
      → (p : Pool R F × Outcome (PoolError F.Error) (Unit {0})) → Flushed R F slot.key slot s p
      → AllFlushed (slot ∷ rest) s (elim p.1 [
        | ok _ ↦ flush_slots R F rest p.0
        | err e ↦ (p.0, err e)
        | panic ↦ (p.0, panic)
      ])
  AllFlushed-round slot rest s w fresh loop (u, ok _) g =
      AllFlushed-then slot rest s u _ fresh g (loop u g.valid (Within-rest slot rest s _ w fresh g))
  AllFlushed-round slot rest s w fresh loop (u, err e) g =
      AllFlushed-failed slot rest s u (err e) (λ x. cc) g
  AllFlushed-round slot rest s w fresh loop (u, panic) g =
      AllFlushed-failed slot rest s u panic (λ x. cc) g

  flush_slots-AllFlushed :
      (t : Table) (s : Pool R F)
      → IsValid R F s
      → Distinct (keys t)
      → Within t s
      → AllFlushed t s (flush_slots R F t s)
  unfolding flush_slots
  flush_slots-AllFlushed [] s h d w = AllFlushed-none s h
  flush_slots-AllFlushed (slot ∷ rest) s h (fresh, d) w =
      AllFlushed-round slot rest s w fresh (λ u v in_u. flush_slots-AllFlushed rest u v d in_u)
        (flush_slot R F slot.key slot s)
        (flush_slot-Flushed R F s h slot.key slot (w slot.key slot (find_head slot rest)))

  -- On a valid pool `FlushAllPages` keeps the invariant and every key's view; on success every slot of the
  -- table is still there, clean, and those that were dirty are on the disk with their pages.
  pub flush_all_pages-AllFlushed :
      (s : Pool R F) → IsValid R F s → AllFlushed s.table s (flush_all_pages R F s)
  unfolding flush_all_pages
  flush_all_pages-AllFlushed s h = flush_slots-AllFlushed s.table s h h.distinct (λ k slot e. e)
