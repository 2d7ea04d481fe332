-- ===== src/Memory/Pool/Pins.antt =====
-- `PinPage` and `UnpinPage`.
use mathlib.Core.Path.{ap₂}
use gopher_db.Base.{
  ◌≡◌, refl, sym, subst, ap, ◌∙◌, Bool, true, false, not, none, some, Option-cases, Bool-cases, inl,
  inr, if◌then◌else◌,
}
use gopher_db.Base.Outcome.{Outcome, ok, err, panic}
use gopher_db.Memory.Disk.{PageFileManager}
use gopher_db.Memory.Pool.Content.{Got}
use gopher_db.Memory.Pool.Invariant.{Suits, content, held, Durable, IsValid, Keeps}
use gopher_db.Memory.Pool.Methods.{
  pin_page, pin_slot, with_slot, slot_or_load, unpin_page, unpin_found,
}
use gopher_db.Memory.Pool.Refines.{get_page-Got}
use gopher_db.Memory.Pool.Space.{Keeps-refl, Keeps-trans}
use gopher_db.Memory.Pool.Table.{find-modify, find-key, keys-modify, length-modify}
use gopher_db.Memory.Pool.{PoolError, Pool, find, modify, get_page}
use gopher_db.Memory.Replacer.{Replacer}
use gopher_db.Memory.Slot.{PageKey, eq_key, eq_key-cases, eq_key_refl, BufferSlot, set_pinned}

some_eq : {x y : BufferSlot} → some x ≡ some y → x ≡ y
some_eq e = cc

true≢false : {b : Bool} → b ≡ true → b ≡ false → ⊥
true≢false e f = cc

module _ (R : Replacer) (F : PageFileManager) where
  -- a slot's pinned mark is set, and the replacer changes at its key only
  module _ (s : Pool R F) (h : IsValid R F s) (k : PageKey) (b : Bool) (slot : BufferSlot)
      (there : find k s.table ≡ some slot) (r : R.State) (r_valid : R.IsValid r)
      (tracks-r : (j : PageKey)
        → R.tracks j r ≡ (if eq_key k j then not b else R.tracks j s.replacer)) where
    abbrev mark : BufferSlot → BufferSlot
    mark x = set_pinned x b

    abbrev pub marked : Pool R F
    marked = record s { table = modify k mark s.table; replacer = r }

    pub find_marked : find k marked.table ≡ some (mark slot)
    find_marked = find-modify k mark (λ x. refl) k s.table ∙ rw (eq_key_refl k, there)

    find_other : (j : PageKey) → eq_key k j ≡ false → find j marked.table ≡ find j s.table
    find_other j ne = find-modify k mark (λ x. refl) j s.table ∙ rw ne

    pub marked-Keeps : (j : PageKey) → eq_key k j ≡ false → Keeps R F s marked j
    marked-Keeps j ne = record {
      content_is = λ dur. ap₂ held (find_other j ne) refl;
      durable = λ dur x e. dur x (sym (find_other j ne) ∙ e);
      pinned_stays = λ x e p. (x, find_other j ne ∙ e, refl, p);
    }

    pub content-marked : content R F marked k ≡ content R F s k
    content-marked = ap₂ held find_marked refl ∙ sym (ap₂ held there refl)

    pub marked-Durable : Durable R F s k → Durable R F marked k
    marked-Durable dur x e c =
        let m : mark slot ≡ x = some_eq (sym find_marked ∙ e) in
        dur slot there (ap (λ (y : BufferSlot). y.dirty) m ∙ c)
        ∙ ap (λ (y : BufferSlot). some y.page) m

    pub marked-IsValid : IsValid R F marked
    marked-IsValid = record {
      replacer_valid = r_valid;
      disk_valid = h.disk_valid;
      distinct = rw (keys-modify k mark (λ x. refl) s.table) h.distinct;
      bounded = rw (length-modify k mark (λ x. refl) s.table) h.bounded;
      positive = h.positive;
      suits = λ j x e. elim (eq_key-cases k j) [
        | inl (at, _) ↦
            let m : mark slot ≡ x =
              some_eq (sym find_marked ∙ ap (λ i. find i marked.table) at ∙ e) in
            subst (λ y. Suits j y.page) m (subst (λ i. Suits i slot.page) at (h.suits k slot there))
        | inr (ne, _) ↦ h.suits j x (sym (find_other j ne) ∙ e)
      ];
      tracked = λ j t. elim (eq_key-cases k j) [
        | inl (at, eq) ↦ (
          mark slot,
          ap (λ i. find i marked.table) (sym at) ∙ find_marked,
          not-true b (sym (tracks-r j ∙ rw eq) ∙ t),
        )
        | inr (ne, _) ↦
            let (x, e, p) = h.tracked j (sym (tracks-r j ∙ rw ne) ∙ t) in
            (x, find_other j ne ∙ e, p)
      ];
    }
      where
        not-true : (b : Bool) → not b ≡ true → b ≡ false
        not-true true e = cc
        not-true false e = refl

  -- What pinning leaves: the invariant, every key's view, and on success the key's slot in the table, pinned,
  -- with the page that the key stood for.
  pub record Pinned (k : PageKey) (s : Pool R F)
      (p : Pool R F × Outcome (PoolError F.Error) (Unit {0})) : Type 0 where
    pub valid : IsValid R F p.0
    pub keeps : (j : PageKey) → Keeps R F s p.0 j
    pub in_slot :
        p.1 ≡ ok tt
        → (slot : BufferSlot) × (find k p.0.table ≡ some slot)
          × (slot.pinned ≡ true)
          × (content R F s k ≡ some slot.page)

  delete-tracks :
      (s : Pool R F)
      → IsValid R F s
      → (k j : PageKey)
      → R.tracks j (R.delete k s.replacer)
        ≡ (if eq_key k j then not true else R.tracks j s.replacer)
  delete-tracks s h k j =
      R.tracks-delete j k s.replacer h.replacer_valid
      ∙ elim (Bool-cases (eq_key k j)) [ inl e ↦ rw e | inr e ↦ rw e ]

  Pinned-slot :
      (s t : Pool R F) (k : PageKey) (slot : BufferSlot)
      → IsValid R F t
      → ((j : PageKey) → Keeps R F s t j)
      → find k t.table ≡ some slot
      → content R F s k ≡ some slot.page
      → Pinned k s (pin_slot R F k slot t)
  Pinned-slot s t k slot v keeps there is =
      let r = R.delete k t.replacer in
      let rv = R.delete-IsValid k t.replacer v.replacer_valid in
      let tr = delete-tracks t v k in
      let self : Keeps R F t (marked t v k true slot there r rv tr) k = record {
        content_is = λ _. content-marked t v k true slot there r rv tr;
        durable = marked-Durable t v k true slot there r rv tr;
        pinned_stays = λ x e p. (
          set_pinned slot true,
          find_marked t v k true slot there r rv tr,
          ap (λ (y : BufferSlot). y.page) (some_eq (sym there ∙ e)),
          refl,
        );
      } in
      record {
        valid = marked-IsValid t v k true slot there r rv tr;
        keeps = λ j.
            Keeps-trans R F s t (marked t v k true slot there r rv tr) j (keeps j)
              (elim (eq_key-cases k j) [
                | inl (at, _) ↦ subst (Keeps R F t (marked t v k true slot there r rv tr)) at self
                | inr (ne, _) ↦ marked-Keeps t v k true slot there r rv tr j ne
              ]);
        in_slot = λ _. (set_pinned slot true, find_marked t v k true slot there r rv tr, refl, is);
      }

  Pinned-Got :
      (s : Pool R F) (k : PageKey) (p : Pool R F × Outcome (PoolError F.Error) BufferSlot)
      → Got R F k s p
      → Pinned k s (with_slot R F (pin_slot R F k) p)
  Pinned-Got s k (t, ok slot) g =
      Pinned-slot s t k slot g.valid g.keeps (g.slot_is slot refl).1 (g.slot_is slot refl).0
  Pinned-Got s k (t, err e) g = record { valid = g.valid; keeps = g.keeps; in_slot = λ x. cc }
  Pinned-Got s k (t, panic) g = record { valid = g.valid; keeps = g.keeps; in_slot = λ x. cc }

  -- On a valid pool `PinPage` keeps the invariant and every key's view, and on success the key's slot is in the
  -- table, pinned, with the page that the key stood for.
  pub pin_page-Pinned :
      (s : Pool R F) → IsValid R F s → (k : PageKey) → Pinned k s (pin_page R F k s)
  unfolding pin_page
  pin_page-Pinned s h k = elim (Option-cases (find k s.table)) [
    | inr (slot, there) ↦
        subst (λ o. Pinned k s (with_slot R F (pin_slot R F k) (slot_or_load R F k o s)))
          (sym there) (Pinned-slot s s k slot h (Keeps-refl R F s) there (ap₂ held there refl))
    | inl absent ↦
        subst (λ o. Pinned k s (with_slot R F (pin_slot R F k) (slot_or_load R F k o s)))
          (sym absent) (Pinned-Got s k (get_page R F k s) (get_page-Got R F s h k))
  ]

  -- What unpinning leaves: the invariant, the page of every key, other keys' pins, and no pin at the key.
  pub record Unpinned (k : PageKey) (s : Pool R F)
      (p : Pool R F × Outcome (PoolError F.Error) (Unit {0})) : Type 0 where
    pub succeeds : p.1 ≡ ok tt
    pub valid : IsValid R F p.0
    pub others : (j : PageKey) → eq_key k j ≡ false → Keeps R F s p.0 j
    pub content_is : content R F p.0 k ≡ content R F s k
    pub durable : Durable R F s k → Durable R F p.0 k
    pub loose : (slot : BufferSlot) → find k p.0.table ≡ some slot → slot.pinned ≡ false

  push-tracks :
      (s : Pool R F)
      → IsValid R F s
      → (k j : PageKey)
      → R.tracks j (R.push k false s.replacer)
        ≡ (if eq_key k j then not false else R.tracks j s.replacer)
  push-tracks s h k j =
      R.tracks-push j k s.replacer h.replacer_valid
      ∙ elim (Bool-cases (eq_key k j)) [ inl e ↦ rw e | inr e ↦ rw e ]

  Unpinned-same :
      (s : Pool R F) (k : PageKey)
      → IsValid R F s
      → ((slot : BufferSlot) → find k s.table ≡ some slot → slot.pinned ≡ false)
      → Unpinned k s (s, ok tt)
  Unpinned-same s k h loose = record {
    succeeds = refl;
    valid = h;
    others = λ j _. Keeps-refl R F s j;
    content_is = refl;
    durable = λ d. d;
    loose = loose;
  }

  Unpinned-slot :
      (s : Pool R F) (k : PageKey) (slot : BufferSlot)
      → IsValid R F s
      → find k s.table ≡ some slot
      → Unpinned k s (
        record s {
          table = modify k (λ x. set_pinned x false) s.table;
          replacer = R.push k false s.replacer;
        },
        ok tt,
      )
  Unpinned-slot s k slot h there =
      let rv = R.push-IsValid k false s.replacer h.replacer_valid in
      let tr = push-tracks s h k in
      let r = R.push k false s.replacer in
      record {
        succeeds = refl;
        valid = marked-IsValid s h k false slot there r rv tr;
        others = marked-Keeps s h k false slot there r rv tr;
        content_is = content-marked s h k false slot there r rv tr;
        durable = marked-Durable s h k false slot there r rv tr;
        loose = λ x e. sym (
            ap (λ (y : BufferSlot). y.pinned)
              (some_eq (sym (find_marked s h k false slot there r rv tr) ∙ e)));
      }

  -- On a valid pool `UnpinPage` succeeds and keeps the invariant, the page of every key and the pins of the
  -- other keys, and the key's slot, if it has one, is not pinned afterwards.
  pub unpin_page-Unpinned :
      (s : Pool R F) → IsValid R F s → (k : PageKey) → Unpinned k s (unpin_page R F k s)
  unfolding unpin_page
  unpin_page-Unpinned s h k = elim (Option-cases (find k s.table)) [
    | inl absent ↦
        subst (λ o. Unpinned k s (unpin_found R F k o s)) (sym absent)
          (Unpinned-same s k h (λ x e. absurd (nothing (sym absent ∙ e))))
    | inr (slot, there) ↦
        subst (λ o. Unpinned k s (unpin_found R F k o s)) (sym there)
          (elim (Bool-cases slot.pinned) [
            | inl p ↦
                subst
                  (λ j. Unpinned k s (
                    if not slot.pinned then (s, ok tt) else (
                      record s {
                        table = modify k (λ x. set_pinned x false) s.table;
                        replacer = R.push j false s.replacer;
                      },
                      ok tt,
                    )))
                  (sym (find-key k s.table there)) (rw p (Unpinned-slot s k slot h there))
            | inr p ↦ rw p (
                Unpinned-same s k h
                  (λ x e. ap (λ (y : BufferSlot). y.pinned) (some_eq (sym e ∙ there)) ∙ p))
          ])
  ]
    where
      nothing : {x : BufferSlot} → none ≡ some x → ⊥
      nothing e = cc
