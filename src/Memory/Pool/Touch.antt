-- ===== src/Memory/Pool/Touch.antt =====
-- The two ways in which a slot changes under a key: it is added, or modified and touched.
use mathlib.Core.Path.{ap₂}
use gopher_db.Base.{
  ◌<◌, ◌≡◌, refl, sym, subst, ap, ◌∙◌, true, false, ◌||◌, ◌⊎◌, none, some, arith, length,
  if◌then◌else◌, Bool-cases, inl, inr, ◌∷◌,
}
use gopher_db.Memory.Disk.{PageFileManager}
use gopher_db.Memory.Page.{HeapPage}
use gopher_db.Memory.Pool.Invariant.{Suits, held, IsValid, Keeps}
use gopher_db.Memory.Pool.Table.{find-modify, keys-modify, length-modify, not-mem-keys, find-key}
use gopher_db.Memory.Pool.{Pool, find, modify, touch}
use gopher_db.Memory.Replacer.{Replacer}
use gopher_db.Memory.Slot.{
  PageKey, eq_key, eq_key-cases, eq_key_refl, eq_key_sound, BufferSlot, new_buffer_slot,
}

module _ (R : Replacer) (F : PageFileManager) where
  -- the replacer after `touch`
  unfoldable pub touched : BufferSlot → R.State → R.State
  touched x r = if x.pinned then r else R.push x.key x.pinned r

  pub touch-touched :
      (x : BufferSlot) (s : Pool R F) → touch R F x s ≡ record s { replacer = touched x s.replacer }
  unfolding touch touched
  touch-touched x s = ground arith

  touched-IsValid : (x : BufferSlot) (r : R.State) → R.IsValid r → R.IsValid (touched x r)
  unfolding touched
  touched-IsValid x r v = elim (Bool-cases x.pinned) [
    | inl e ↦ rw e v
    | inr e ↦ rw e (R.push-IsValid x.key false r v)
  ]

  -- it holds no more than it held, and the slot's key if that is not pinned
  tracks-touched :
      (x : BufferSlot) (r : R.State) (j : PageKey)
      → R.IsValid r
      → R.tracks j (touched x r) ≡ true
      → ((x.pinned ≡ false) × (x.key ≡ j)) ⊎ (R.tracks j r ≡ true)
  unfolding touched
  tracks-touched x r j v t = elim (Bool-cases x.pinned) [
    | inl e ↦ inr (rw e at t)
    | inr e ↦
        let both : (eq_key x.key j || R.tracks j r) ≡ true =
          sym (R.tracks-push j x.key r v) ∙ (rw e at t) in
        elim (Bool-cases (eq_key x.key j)) [
          | inl same ↦ inl (e, eq_key_sound x.key j same)
          | inr ne ↦ inr (rw ne at both)
        ]
  ]

  module _ (s : Pool R F) (h : IsValid R F s) (k : PageKey) (f : BufferSlot → BufferSlot)
      (same : (x : BufferSlot) → (f x).key ≡ x.key)
      (pin : (x : BufferSlot) → (f x).pinned ≡ x.pinned) (slot : BufferSlot)
      (there : find k s.table ≡ some slot) (suits : Suits k (f slot).page) where
    abbrev pub modified : Pool R F
    modified = record s { table = modify k f s.table; replacer = touched (f slot) s.replacer }

    pub find_self : find k modified.table ≡ some (f slot)
    find_self = find-modify k f same k s.table ∙ rw (eq_key_refl k, there)

    find_other : (j : PageKey) → eq_key k j ≡ false → find j modified.table ≡ find j s.table
    find_other j ne = find-modify k f same j s.table ∙ rw ne

    pub modified-Keeps : (j : PageKey) → eq_key k j ≡ false → Keeps R F s modified j
    modified-Keeps j ne = record {
      content_is = λ dur. ap₂ held (find_other j ne) refl;
      durable = λ dur x e. dur x (sym (find_other j ne) ∙ e);
      pinned_stays = λ x e p. (x, find_other j ne ∙ e, refl, p);
    }

    tracked_self : R.tracks k modified.replacer ≡ true → (f slot).pinned ≡ false
    tracked_self t = elim (tracks-touched (f slot) s.replacer k h.replacer_valid t) [
      | inl (p, _) ↦ p
      | inr t' ↦ let (x, e, p) = h.tracked k t' in pin slot ∙ ap_pinned (sym e ∙ there) p
    ]
      where
        ap_pinned : {x y : BufferSlot} → some x ≡ some y → x.pinned ≡ false → y.pinned ≡ false
        ap_pinned e p = ground arith

    pub modified-IsValid : IsValid R F modified
    modified-IsValid = record {
      replacer_valid = touched-IsValid (f slot) s.replacer h.replacer_valid;
      disk_valid = h.disk_valid;
      distinct = rw (keys-modify k f same s.table) h.distinct;
      bounded = rw (length-modify k f same s.table) h.bounded;
      positive = h.positive;
      suits = λ j x e. elim (eq_key-cases k j) [
        | inl (at, _) ↦
            let same_slot : f slot ≡ x =
              some_eq (sym find_self ∙ ap (λ i. find i modified.table) at ∙ e) in
            subst (λ y. Suits j y.page) same_slot (subst (λ i. Suits i (f slot).page) at suits)
        | inr (ne, _) ↦ h.suits j x (sym (find_other j ne) ∙ e)
      ];
      tracked = λ j t. elim (eq_key-cases k j) [
        | inl (at, _) ↦ (
          f slot,
          ap (λ i. find i modified.table) (sym at) ∙ find_self,
          tracked_self (ap (λ i. R.tracks i modified.replacer) at ∙ t),
        )
        | inr (ne, _) ↦ elim (tracks-touched (f slot) s.replacer j h.replacer_valid t) [
          | inl (_, at) ↦
              absurd (apart j ne (sym (find-key k s.table there) ∙ sym (same slot) ∙ at))
          | inr t' ↦ let (x, e, p) = h.tracked j t' in (x, find_other j ne ∙ e, p)
        ]
      ];
    }
      where
        some_eq : {x y : BufferSlot} → some x ≡ some y → x ≡ y
        some_eq e = cc

        apart : (j : PageKey) → eq_key k j ≡ false → k ≡ j → ⊥
        apart j ne at = ground (arith, eq_key_refl k)

  module _ (s : Pool R F) (h : IsValid R F s) (k : PageKey) (pg : HeapPage)
      (absent : find k s.table ≡ none) (room : length s.table < s.pool_size)
      (suits : Suits k pg) where
    abbrev fresh : BufferSlot
    fresh = new_buffer_slot k pg

    abbrev pub added : Pool R F
    added = record s { table = fresh ∷ s.table; replacer = touched fresh s.replacer }

    pub find_added : find k added.table ≡ some fresh
    unfolding find
    find_added = rw (eq_key_refl k)

    find_rest : (j : PageKey) → eq_key k j ≡ false → find j added.table ≡ find j s.table
    unfolding find
    find_rest j ne = rw ne

    pub added-Keeps : (j : PageKey) → eq_key k j ≡ false → Keeps R F s added j
    added-Keeps j ne = record {
      content_is = λ dur. ap₂ held (find_rest j ne) refl;
      durable = λ dur x e. dur x (sym (find_rest j ne) ∙ e);
      pinned_stays = λ x e p. (x, find_rest j ne ∙ e, refl, p);
    }

    pub added-IsValid : IsValid R F added
    added-IsValid = record {
      replacer_valid = touched-IsValid fresh s.replacer h.replacer_valid;
      disk_valid = h.disk_valid;
      distinct = (not-mem-keys k s.table absent, h.distinct);
      bounded = omega (arith, room);
      positive = h.positive;
      suits = λ j x e. elim (eq_key-cases k j) [
        | inl (at, _) ↦
            let same_slot : fresh ≡ x =
              some_eq (sym find_added ∙ ap (λ i. find i added.table) at ∙ e) in
            subst (λ y. Suits j y.page) same_slot (subst (λ i. Suits i pg) at suits)
        | inr (ne, _) ↦ h.suits j x (sym (find_rest j ne) ∙ e)
      ];
      tracked = λ j t. elim (eq_key-cases k j) [
        | inl (at, _) ↦ (fresh, ap (λ i. find i added.table) (sym at) ∙ find_added, refl)
        | inr (ne, _) ↦ elim (tracks-touched fresh s.replacer j h.replacer_valid t) [
          | inl (_, at) ↦ absurd (apart j ne at)
          | inr t' ↦ let (x, e, p) = h.tracked j t' in (x, find_rest j ne ∙ e, p)
        ]
      ];
    }
      where
        some_eq : {x y : BufferSlot} → some x ≡ some y → x ≡ y
        some_eq e = cc

        apart : (j : PageKey) → eq_key k j ≡ false → k ≡ j → ⊥
        apart j ne at = ground (arith, eq_key_refl k)
