-- ===== src/Memory/Pool/Space.antt =====
-- `ensureSpaceLocked`: what an eviction keeps.
use mathlib.Core.Path.{ap₂}
use gopher_db.Base.{
  ◌+◌, ◌≡◌, refl, sym, subst, ◌∙◌, Bool, true, false, not, ◌&&◌, Option, none, some, arith, length,
  if◌then◌else◌, inl, inr,
}
use gopher_db.Memory.Disk.{PageFileManager, found}
use gopher_db.Memory.Keys.{remove, Distinct-remove}
use gopher_db.Memory.Pool.Invariant.{on_disk, Durable, IsValid, Keeps, held}
use gopher_db.Memory.Pool.Table.{keys}
use gopher_db.Memory.Pool.{Pool, Table, find, path}
use gopher_db.Memory.Replacer.{Replacer}
use gopher_db.Memory.Slot.{PageKey, eq_key, eq_key-cases, eq_key_refl, BufferSlot}

module _ (R : Replacer) (F : PageFileManager) where
  pub Keeps-refl : (s : Pool R F) (j : PageKey) → Keeps R F s s j
  Keeps-refl s j = record {
    content_is = λ d. refl;
    durable = λ d. d;
    pinned_stays = λ slot e p. (slot, e, refl, p);
  }

  pub Keeps-trans :
      (s t u : Pool R F) (j : PageKey) → Keeps R F s t j → Keeps R F t u j → Keeps R F s u j
  Keeps-trans s t u j h k = record {
    content_is = λ d. k.content_is (h.durable d) ∙ h.content_is d;
    durable = λ d. k.durable (h.durable d);
    pinned_stays = λ slot e p.
        let (x, there, same, pin) = h.pinned_stays slot e p in
        let (y, there', same', pin') = k.pinned_stays x there pin in
        (y, there', same' ∙ same, pin');
  }

  -- what holds after `ensureSpaceLocked`, and after any call that may have evicted
  pub record Spaced (s s' : Pool R F) : Type 0 where
    pub valid : IsValid R F s'
    pub keeps : (j : PageKey) → Keeps R F s s' j
    pub absent : (j : PageKey) → find j s.table ≡ none → find j s'.table ≡ none
    pub root_is : s'.root ≡ s.root
    pub size_is : s'.pool_size ≡ s.pool_size

  -- only the replacer changes, and holds no key that it did not hold
  pub replacer_only :
      (s : Pool R F) (r : R.State)
      → IsValid R F s
      → R.IsValid r
      → ((k : PageKey) → R.tracks k r ≡ true → R.tracks k s.replacer ≡ true)
      → Spaced s (record s { replacer = r })
  replacer_only s r h v less = record {
    valid = record {
      replacer_valid = v;
      disk_valid = h.disk_valid;
      distinct = h.distinct;
      bounded = h.bounded;
      positive = h.positive;
      suits = h.suits;
      tracked = λ k t. h.tracked k (less k t);
    };
    keeps = λ j. record {
      content_is = λ d. refl;
      durable = λ d. d;
      pinned_stays = λ slot e p. (slot, e, refl, p);
    };
    absent = λ j e. e;
    root_is = refl;
    size_is = refl;
  }

  module _ (s : Pool R F) (h : IsValid R F s) (k : PageKey) (slot : BufferSlot)
      (there : find k s.table ≡ some slot) (loose : slot.pinned ≡ false) (r : R.State) (t : Table)
      (d : F.Disk) (r-IsValid : R.IsValid r)
      (tracks-r : (j : PageKey) → R.tracks j r ≡ (not (eq_key k j) && R.tracks j s.replacer))
      (d_valid : F.IsValid d)
      (find-t : (j : PageKey) → find j t ≡ (if eq_key k j then none else find j s.table))
      (keys-t : keys t ≡ remove k (keys s.table)) (length-t : length t + 1 ≡ length s.table)
      (read_others : (j : PageKey)
        → eq_key k j ≡ false
        → found (F.read j.page_id (path R F s j) d) ≡ on_disk R F s j)
      (read_self : Durable R F s k
        → found (F.read k.page_id (path R F s k) d) ≡ some slot.page) where
    abbrev pub after : Pool R F
    after = record s { replacer = r; table = t; disk = d }

    gone : find k t ≡ none
    gone = find-t k ∙ rw (eq_key_refl k)

    kept : (j : PageKey) → eq_key k j ≡ false → find j t ≡ find j s.table
    kept j ne = find-t j ∙ rw ne

    Keeps-self : Keeps R F s after k
    Keeps-self = record {
      content_is = λ dur. ap₂ held gone refl ∙ read_self dur ∙ sym (ap₂ held there refl);
      durable = λ dur x e c. absurd (none≢some gone e);
      pinned_stays = λ x e p. absurd (not_both x e p);
    }
      where
        none≢some : {o : Option BufferSlot} {x : BufferSlot} → o ≡ none → o ≡ some x → ⊥
        none≢some a b = cc

        not_both : (x : BufferSlot) → find k s.table ≡ some x → x.pinned ≡ true → ⊥
        not_both x e p = ground (arith, there, loose)

    Keeps-other : (j : PageKey) → eq_key k j ≡ false → Keeps R F s after j
    Keeps-other j ne = record {
      content_is = λ dur. ap₂ held (kept j ne) (read_others j ne);
      durable = λ dur x e c. read_others j ne ∙ dur x (sym (kept j ne) ∙ e) c;
      pinned_stays = λ x e p. (x, kept j ne ∙ e, refl, p);
    }

    keeps : (j : PageKey) → Keeps R F s after j
    keeps j = elim (eq_key-cases k j) [
      | inl (same, _) ↦ subst (Keeps R F s after) same Keeps-self
      | inr (ne, _) ↦ Keeps-other j ne
    ]

    tracked_after :
        (j : PageKey)
        → R.tracks j r ≡ true
        → (x : BufferSlot) × (find j t ≡ some x) × (x.pinned ≡ false)
    tracked_after j tr =
        let both : (not (eq_key k j) && R.tracks j s.replacer) ≡ true = sym (tracks-r j) ∙ tr in
        let split = and_split (eq_key k j) (R.tracks j s.replacer) both in
        let (x, e, p) = h.tracked j split.1 in (x, kept j split.0 ∙ e, p)
      where
        and_split : (a b : Bool) → (not a && b) ≡ true → (a ≡ false) × (b ≡ true)
        and_split a b e = ground arith

    pub evicted : Spaced s after
    evicted = record {
      valid = record {
        replacer_valid = r-IsValid;
        disk_valid = d_valid;
        distinct = rw keys-t (Distinct-remove k (keys s.table) h.distinct);
        bounded = omega (arith, length-t, h.bounded);
        positive = h.positive;
        suits = λ j x e. elim (eq_key-cases k j) [
          | inl (same, yes') ↦ absurd (none_some (find-t j ∙ rw yes') e)
          | inr (ne, _) ↦ h.suits j x (sym (kept j ne) ∙ e)
        ];
        tracked = tracked_after;
      };
      keeps = keeps;
      absent = λ j e. find-t j ∙ rw e (if_same (eq_key k j));
      root_is = refl;
      size_is = refl;
    }
      where
        none_some : {o : Option BufferSlot} {x : BufferSlot} → o ≡ none → o ≡ some x → ⊥
        none_some a b = cc

        if_same : (b : Bool) → ◌≡◌ {A = Option BufferSlot} (if b then none else none) none
        if_same b = ground arith
