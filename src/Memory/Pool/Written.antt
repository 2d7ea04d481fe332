-- ===== src/Memory/Pool/Written.antt =====
-- `FlushPage` and `FlushAllPages` write what is dirty.
use mathlib.Core.Path.{ap₂}
use gopher_db.Base.{
  ◌≡◌, refl, sym, subst, ap, ◌∙◌, Bool, true, false, some, Bool-cases, inl, inr, if◌then◌else◌,
}
use gopher_db.Base.Outcome.{Outcome, ok, err, panic, Outcome-cases}
use gopher_db.Memory.Disk.{PageFileManager}
use gopher_db.Memory.Pool.Evict.{flush_slot-clean, flush_slot-dirty}
use gopher_db.Memory.Pool.Invariant.{Suits, on_disk, held, IsValid, Keeps, eq_key-join_path}
use gopher_db.Memory.Pool.Methods.{flush_page, flush_found}
use gopher_db.Memory.Pool.Space.{Keeps-refl}
use gopher_db.Memory.Pool.Table.{find-modify, keys-modify, length-modify}
use gopher_db.Memory.Pool.{PoolError, Pool, io, find, modify, path, flush_slot, flushed}
use gopher_db.Memory.Replacer.{Replacer}
use gopher_db.Memory.Slot.{PageKey, eq_key, eq_key-cases, eq_key_refl, BufferSlot, set_dirty}

abbrev pub clean : BufferSlot → BufferSlot
clean x = set_dirty x false

some_eq : {x y : BufferSlot} → some x ≡ some y → x ≡ y
some_eq e = cc

module _ (R : Replacer) (F : PageFileManager) where
  -- What flushing the key's slot leaves: the invariant, every key's view, and on success the slot clean, and
  -- on the disk if it was dirty or if clean slots were.
  pub record Flushed (k : PageKey) (slot : BufferSlot) (s : Pool R F)
      (p : Pool R F × Outcome (PoolError F.Error) (Unit {0})) : Type 0 where
    pub valid : IsValid R F p.0
    pub keeps : (j : PageKey) → Keeps R F s p.0 j
    pub stays :
        (j : PageKey)
        → eq_key k j ≡ false
        → (find j p.0.table ≡ find j s.table) × (on_disk R F p.0 j ≡ on_disk R F s j)
    pub cleaned : p.1 ≡ ok tt → find k p.0.table ≡ some (clean slot)
    pub written : p.1 ≡ ok tt → slot.dirty ≡ true → on_disk R F p.0 k ≡ some slot.page

  module _ (s : Pool R F) (h : IsValid R F s) (k : PageKey) (slot : BufferSlot)
      (there : find k s.table ≡ some slot) where
    Flushed-same :
        (o : Outcome (PoolError F.Error) (Unit {0}))
        → (o ≡ ok tt → slot.dirty ≡ false)
        → Flushed k slot s (s, o)
    Flushed-same o c = record {
      valid = h;
      keeps = Keeps-refl R F s;
      stays = λ j _. (refl, refl);
      cleaned = λ e. there ∙ ap some (sym_clean slot (c e));
      written = λ e d. absurd (clash d (c e));
    }
      where
        sym_clean : (x : BufferSlot) → x.dirty ≡ false → x ≡ clean x
        sym_clean x e = ap (set_dirty x) e

        clash : {b : Bool} → b ≡ true → b ≡ false → ⊥
        clash d e = cc

    module _ (d : F.Disk) (w : F.write slot.page (path R F s k) s.disk ≡ ok d) where
      suits : Suits k slot.page
      suits = h.suits k slot there

      abbrev after : Pool R F
      after = record s { disk = d; table = modify k clean s.table }

      reads :
          (j : PageKey)
          → on_disk R F after j ≡ (if eq_key k j then some slot.page else on_disk R F s j)
      reads j =
          F.read-write slot.page (path R F s k) s.disk d h.disk_valid suits.size_is w
            (record { file_id = path R F s j; page_id = j.page_id })
          ∙ rw (suits.page_id_is, eq_key-join_path s.root k j)

      find_self : find k after.table ≡ some (clean slot)
      find_self = find-modify k clean (λ x. refl) k s.table ∙ rw (eq_key_refl k, there)

      find_other : (j : PageKey) → eq_key k j ≡ false → find j after.table ≡ find j s.table
      find_other j ne = find-modify k clean (λ x. refl) j s.table ∙ rw ne

      read_self : on_disk R F after k ≡ some slot.page
      read_self = reads k ∙ rw (eq_key_refl k)

      read_other : (j : PageKey) → eq_key k j ≡ false → on_disk R F after j ≡ on_disk R F s j
      read_other j ne = reads j ∙ rw ne

      self-Keeps : Keeps R F s after k
      self-Keeps = record {
        content_is = λ _. ap₂ held find_self refl ∙ sym (ap₂ held there refl);
        durable = λ _ x e _.
            read_self ∙ ap (λ (y : BufferSlot). some y.page) (some_eq (sym find_self ∙ e));
        pinned_stays = λ x e p. (
          clean slot,
          find_self,
          ap (λ (y : BufferSlot). y.page) (some_eq (sym there ∙ e)),
          ap (λ (y : BufferSlot). y.pinned) (some_eq (sym there ∙ e)) ∙ p,
        );
      }

      other-Keeps : (j : PageKey) → eq_key k j ≡ false → Keeps R F s after j
      other-Keeps j ne = record {
        content_is = λ _. ap₂ held (find_other j ne) (read_other j ne);
        durable = λ dur x e c. read_other j ne ∙ dur x (sym (find_other j ne) ∙ e) c;
        pinned_stays = λ x e p. (x, find_other j ne ∙ e, refl, p);
      }

      after-IsValid : IsValid R F after
      after-IsValid = record {
        replacer_valid = h.replacer_valid;
        disk_valid = F.write-IsValid slot.page (path R F s k) s.disk d h.disk_valid suits.size_is w;
        distinct = rw (keys-modify k clean (λ x. refl) s.table) h.distinct;
        bounded = rw (length-modify k clean (λ x. refl) s.table) h.bounded;
        positive = h.positive;
        suits = λ j x e. elim (eq_key-cases k j) [
          | inl (at, _) ↦
              let m : clean slot ≡ x =
                some_eq (sym find_self ∙ ap (λ i. find i after.table) at ∙ e) in
              subst (λ y. Suits j y.page) m (subst (λ i. Suits i slot.page) at suits)
          | inr (ne, _) ↦ h.suits j x (sym (find_other j ne) ∙ e)
        ];
        tracked = λ j t.
            let (x, e, p) = h.tracked j t in
            elim (eq_key-cases k j) [
              | inl (at, _) ↦ (
                clean slot,
                ap (λ i. find i after.table) (sym at) ∙ find_self,
                ap (λ (y : BufferSlot). y.pinned)
                      (some_eq (sym there ∙ ap (λ i. find i s.table) at ∙ e))
                    ∙ p,
              )
              | inr (ne, _) ↦ (x, find_other j ne ∙ e, p)
            ];
      }

      Flushed-written : Flushed k slot s (flushed R F k s (ok d))
      Flushed-written = record {
        valid = after-IsValid;
        keeps = λ j. elim (eq_key-cases k j) [
          | inl (at, _) ↦ subst (Keeps R F s after) at self-Keeps
          | inr (ne, _) ↦ other-Keeps j ne
        ];
        stays = λ j ne. (find_other j ne, read_other j ne);
        cleaned = λ _. find_self;
        written = λ _ _. read_self;
      }

    pub flush_slot-Flushed : Flushed k slot s (flush_slot R F k slot s)
    flush_slot-Flushed = elim (Bool-cases slot.dirty) [
      | inr c ↦
          subst (Flushed k slot s) (sym (flush_slot-clean R F k slot s c))
            (Flushed-same (ok tt) (λ _. c))
      | inl c ↦
          subst (Flushed k slot s) (sym (flush_slot-dirty R F k slot s c))
            (elim (Outcome-cases (F.write slot.page (path R F s k) s.disk)) [
              | inl (d, w) ↦
                  subst (λ o. Flushed k slot s (flushed R F k s o)) (sym w) (Flushed-written d w)
              | inr (inl (e, w)) ↦
                  subst (λ o. Flushed k slot s (flushed R F k s o)) (sym w)
                    (Flushed-same (err (io e)) (λ x. cc))
              | inr (inr w) ↦
                  subst (λ o. Flushed k slot s (flushed R F k s o)) (sym w)
                    (Flushed-same panic (λ x. cc))
            ])
    ]

  -- On a valid pool with a slot for the key, `FlushPage` keeps the invariant and every key's view; on success the
  -- slot is in the table, clean, and if it was dirty its page is on the disk.
  pub flush_page-Flushed :
      (s : Pool R F)
      → IsValid R F s
      → (k : PageKey) (slot : BufferSlot) → find k s.table ≡ some slot
      → Flushed k slot s (flush_page R F k s)
  unfolding flush_page
  flush_page-Flushed s h k slot there =
      subst (λ o. Flushed k slot s (flush_found R F k o s)) (sym there)
        (flush_slot-Flushed s h k slot there)
