-- ===== src/Memory/Pool/Evict.antt =====
-- `ensureSpaceLocked` in each of its cases.
use gopher_db.Base.{
  ◌+◌, ◌<◌, ◌≡◌, refl, sym, subst, ap, ◌∙◌, Bool, true, false, not, ◌&&◌, ◌≢◌, none, some, arith,
  length, if◌then◌else◌, Bool-cases, Option-cases, inl, inr, ltb, ltb→lt,
}
use gopher_db.Base.Outcome.{Outcome, ok, err, panic, Outcome-cases}
use gopher_db.Memory.Disk.{PageFileManager, found}
use gopher_db.Memory.Keys.{remove}
use gopher_db.Memory.Pool.Invariant.{Suits, on_disk, IsValid, eq_key-join_path}
use gopher_db.Memory.Pool.Space.{Spaced, replacer_only, evicted}
use gopher_db.Memory.Pool.Table.{
  keys, find-modify, keys-modify, length-modify, keys-evict, find-evict, length-evict,
}
use gopher_db.Memory.Pool.{
  PoolError, io, Pool, find, modify, evict, path, flush_slot, evict_slot, evict_victim,
  ensure_space, dropped, flushed,
}
use gopher_db.Memory.Replacer.{Replacer}
use gopher_db.Memory.Slot.{PageKey, eq_key, eq_key_refl, BufferSlot, set_dirty}

abbrev clean : BufferSlot → BufferSlot
clean x = set_dirty x false

module _ (R : Replacer) (F : PageFileManager) where
  -- the state and the outcome of making room
  pub record MadeRoom (s : Pool R F) (p : Pool R F × Outcome (PoolError F.Error) (Unit {0}))
      : Type 0 where
    pub spaced : Spaced R F s p.0
    pub has_room : p.1 ≡ ok tt → length p.0.table < s.pool_size

  pub flush_slot-clean :
      (k : PageKey) (slot : BufferSlot) (s : Pool R F)
      → slot.dirty ≡ false
      → flush_slot R F k slot s ≡ (s, ok tt)
  unfolding flush_slot
  flush_slot-clean k slot s c = rw c

  pub flush_slot-dirty :
      (k : PageKey) (slot : BufferSlot) (s : Pool R F)
      → slot.dirty ≡ true
      → flush_slot R F k slot s ≡ flushed R F k s (F.write slot.page (path R F s k) s.disk)
  unfolding flush_slot
  flush_slot-dirty k slot s c = rw c

  ensure_room :
      (s : Pool R F) → ltb (length s.table) s.pool_size ≡ true → ensure_space R F s ≡ (s, ok tt)
  unfolding ensure_space
  ensure_room s e = rw e

  ensure_full :
      (s : Pool R F)
      → ltb (length s.table) s.pool_size ≡ false
      → ensure_space R F s
        ≡ evict_victim R F
            (R.pick_victim s.replacer).1
            (record s { replacer = (R.pick_victim s.replacer).0 })
  unfolding ensure_space
  ensure_full s e = rw e

  module _ (s : Pool R F) (h : IsValid R F s) (k : PageKey)
      (picked : (R.pick_victim s.replacer).1 ≡ some k) (slot : BufferSlot)
      (there : find k s.table ≡ some slot) (loose : slot.pinned ≡ false) where
    abbrev r : R.State
    r = (R.pick_victim s.replacer).0

    abbrev popped : Pool R F
    popped = record s { replacer = r }

    r-IsValid : R.IsValid r
    r-IsValid = R.pick_victim-IsValid s.replacer h.replacer_valid

    tracks-r : (j : PageKey) → R.tracks j r ≡ (not (eq_key k j) && R.tracks j s.replacer)
    tracks-r j = R.tracks-pick_victim j k s.replacer h.replacer_valid picked

    failed : (e : Outcome (PoolError F.Error) (Unit {0})) → e ≢ ok tt → MadeRoom s (popped, e)
    failed e ne = record {
      spaced =
          replacer_only R F s r h r-IsValid
            (λ j t. and_right (eq_key k j) (R.tracks j s.replacer) (sym (tracks-r j) ∙ t));
      has_room = λ x. absurd (ne x);
    }
      where
        and_right : (a b : Bool) → (not a && b) ≡ true → b ≡ true
        and_right a b e' = ground arith

    clean_victim : slot.dirty ≡ false → MadeRoom s (evict_slot R F k (some slot) popped)
    clean_victim c =
        subst (λ p. MadeRoom s (dropped R F k p)) (sym (flush_slot-clean k slot popped c))
          (record {
            spaced =
                evicted R F s h k slot there loose r (evict k s.table) s.disk r-IsValid tracks-r
                  h.disk_valid (λ j. find-evict j k s.table h.distinct) (keys-evict k s.table)
                  (length-evict k s.table there) (λ j ne. refl) (λ dur. dur slot there c);
            has_room = λ _. omega (arith, length-evict k s.table there, h.bounded);
          })

    written :
        (d : F.Disk)
        → F.write slot.page (path R F s k) s.disk ≡ ok d
        → MadeRoom s (dropped R F k (flushed R F k popped (ok d)))
    written d w = record {
      spaced =
          evicted R F s h k slot there loose r (evict k (modify k clean s.table)) d r-IsValid
            tracks-r
            (F.write-IsValid slot.page (path R F s k) s.disk d h.disk_valid suits.size_is w) find-t
            (keys-evict k (modify k clean s.table) ∙ ap (remove k) same_keys) len
            (λ j ne. reads j ∙ rw ne) (λ _. reads k ∙ rw (eq_key_refl k));
      has_room = λ _. omega (arith, len, h.bounded);
    }
      where
        suits : Suits k slot.page
        suits = h.suits k slot there

        same_keys : keys (modify k clean s.table) ≡ keys s.table
        same_keys = keys-modify k clean (λ x. refl) s.table

        find-t :
            (j : PageKey)
            → find j (evict k (modify k clean s.table))
              ≡ (if eq_key k j then none else find j s.table)
        find-t j =
            find-evict j k (modify k clean s.table) (rw same_keys h.distinct)
            ∙ elim (Bool-cases (eq_key k j)) [
              | inl e ↦ rw e
              | inr ne ↦ rw ne (find-modify k clean (λ x. refl) j s.table ∙ rw ne)
            ]

        len : length (evict k (modify k clean s.table)) + 1 ≡ length s.table
        len =
            length-evict k (modify k clean s.table) {slot = clean slot}
              (find-modify k clean (λ x. refl) k s.table ∙ rw (eq_key_refl k, there))
            ∙ length-modify k clean (λ x. refl) s.table

        reads :
            (j : PageKey)
            → found (F.read j.page_id (path R F s j) d)
              ≡ (if eq_key k j then some slot.page else on_disk R F s j)
        reads j =
            F.read-write slot.page (path R F s k) s.disk d h.disk_valid suits.size_is w
              (record { file_id = path R F s j; page_id = j.page_id })
            ∙ rw (suits.page_id_is, eq_key-join_path s.root k j)

    dirty_victim : slot.dirty ≡ true → MadeRoom s (evict_slot R F k (some slot) popped)
    dirty_victim c =
        subst (λ p. MadeRoom s (dropped R F k p)) (sym (flush_slot-dirty k slot popped c))
          (elim (Outcome-cases (F.write slot.page (path R F s k) s.disk)) [
            | inl (d, w) ↦
                subst (λ o. MadeRoom s (dropped R F k (flushed R F k popped o))) (sym w)
                  (written d w)
            | inr (inl (e, w)) ↦
                subst (λ o. MadeRoom s (dropped R F k (flushed R F k popped o))) (sym w)
                  (failed (err (io e)) (λ x. cc))
            | inr (inr w) ↦
                subst (λ o. MadeRoom s (dropped R F k (flushed R F k popped o))) (sym w)
                  (failed panic (λ x. cc))
          ])

    victim : MadeRoom s (evict_victim R F (some k) popped)
    victim =
        subst (λ o. MadeRoom s (evict_slot R F k o popped)) (sym there)
          (elim (Bool-cases slot.dirty) [ inl c ↦ dirty_victim c | inr c ↦ clean_victim c ])

  -- Whether or not a page is evicted for it, making room keeps the invariant, keeps what every
  -- durable key stands for, keeps every pinned slot, and on success leaves room for a slot.
  pub ensure_space-MadeRoom : (s : Pool R F) → IsValid R F s → MadeRoom s (ensure_space R F s)
  ensure_space-MadeRoom s h = elim (Bool-cases (ltb (length s.table) s.pool_size)) [
    | inl room ↦ subst (MadeRoom s) (sym (ensure_room s room)) (record {
      spaced = replacer_only R F s s.replacer h h.replacer_valid (λ k t. t);
      has_room = λ _. ltb→lt (length s.table) s.pool_size room;
    })
    | inr full ↦
        subst (MadeRoom s) (sym (ensure_full s full))
          (elim (Option-cases (R.pick_victim s.replacer).1) [
            | inl e ↦
                subst
                  (λ v.
                    MadeRoom s
                      (evict_victim R F v (record s { replacer = (R.pick_victim s.replacer).0 })))
                  (sym e)
                  (record {
                    spaced =
                        replacer_only R F s (R.pick_victim s.replacer).0 h
                          (R.pick_victim-IsValid s.replacer h.replacer_valid)
                          (λ k t. rw (R.no_victim_state s.replacer h.replacer_valid e) at t);
                    has_room = λ x. cc;
                  })
            | inr (k, e) ↦
                let (slot, there, loose) =
                  h.tracked k (R.tracks-victim k s.replacer h.replacer_valid e) in
                subst
                  (λ v.
                    MadeRoom s
                      (evict_victim R F v (record s { replacer = (R.pick_victim s.replacer).0 })))
                  (sym e) (victim s h k e slot there loose)
          ])
  ]
