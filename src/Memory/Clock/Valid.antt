-- ===== src/Memory/Clock/Valid.antt =====
-- The clock replacer's invariant, that its loop ends within the fuel, and that it meets the
-- replacer's laws.
use gopher_db.Base.{
  ◌≡◌, refl, Bool, true, false, not, ◌&&◌, ◌||◌, [], ◌∷◌, arith, inl, inr, Bool-cases,
}
use gopher_db.Memory.Clock.{ClockReplacer, new_clock_replacer, push, delete}
use gopher_db.Memory.Keys.{
  mem, remove, Distinct, mem-append, Distinct-remove, mem-remove, Distinct-concat, index_of-remove,
}
use gopher_db.Memory.Slot.{PageKey, eq_key, eq_key-cases}

-- The ring has no key twice, and `in_ring` has its keys.
pub record IsValid (c : ClockReplacer) : Type 0 where
  pub distinct : Distinct c.ring
  pub map_distinct : Distinct c.in_ring
  pub agrees : (k : PageKey) → mem k c.in_ring ≡ mem k c.ring

abbrev pub tracks : PageKey → ClockReplacer → Bool
tracks k c = mem k c.ring

pub new_clock_replacer-IsValid : IsValid new_clock_replacer
new_clock_replacer-IsValid = record { distinct = tt; map_distinct = tt; agrees = λ k. refl }

pub push-IsValid :
    (k : PageKey) (pinned : Bool) (c : ClockReplacer) → IsValid c → IsValid (push k pinned c)
unfolding push mem
push-IsValid k true c h = h
push-IsValid k false c h = record {
  distinct = ground (arith, Distinct-concat k c.ring, h.agrees k, h.distinct);
  map_distinct = ground (arith, h.map_distinct);
  agrees =
      λ j. ground (arith, h.agrees j, h.agrees k, mem-append j c.ring (k ∷ []), eq_key-cases k j);
}

pub tracks-push :
    (j k : PageKey) (c : ClockReplacer)
    → IsValid c
    → tracks j (push k false c) ≡ (eq_key k j || tracks j c)
unfolding push mem
tracks-push j k c h = ground (arith, h.agrees k, mem-append j c.ring (k ∷ []), eq_key-cases k j)

pub push_pinned : (k : PageKey) (c : ClockReplacer) → push k true c ≡ c
unfolding push
push_pinned k c = refl

-- the ring and the map after a removal, whatever the hand and the reference bits are
pub removed-IsValid :
    (k : PageKey) (c c' : ClockReplacer)
    → IsValid c
    → c'.ring ≡ remove k c.ring
    → c'.in_ring ≡ remove k c.in_ring
    → IsValid c'
removed-IsValid k c c' h e f = record {
  distinct = rw e (Distinct-remove k c.ring h.distinct);
  map_distinct = rw f (Distinct-remove k c.in_ring h.map_distinct);
  agrees = λ j.
      rw (
        e,
        f,
        mem-remove j k c.ring h.distinct,
        mem-remove j k c.in_ring h.map_distinct,
        h.agrees j,
      );
}

delete-removed :
    (k : PageKey) (c : ClockReplacer)
    → IsValid c
    → mem k c.in_ring ≡ true
    → ((delete k c).ring ≡ remove k c.ring) × ((delete k c).in_ring ≡ remove k c.in_ring)
unfolding delete
delete-removed k c h e = ground (arith, index_of-remove k c.ring, h.agrees k)

pub delete-IsValid : (k : PageKey) (c : ClockReplacer) → IsValid c → IsValid (delete k c)
unfolding delete
delete-IsValid k c h = elim (Bool-cases (mem k c.in_ring)) [
  | inl there ↦ let (e, f) = delete-removed k c h there in removed-IsValid k c (delete k c) h e f
  | inr absent ↦ rw (absent, delete) h
]

pub tracks-delete :
    (j k : PageKey) (c : ClockReplacer)
    → IsValid c
    → tracks j (delete k c) ≡ (not (eq_key k j) && tracks j c)
tracks-delete j k c h = elim (Bool-cases (mem k c.in_ring)) [
  | inl there ↦ rw (delete-removed k c h there).0 (mem-remove j k c.ring h.distinct)
  | inr absent ↦ unfold delete in ground (arith, h.agrees k, eq_key-cases k j)
]
