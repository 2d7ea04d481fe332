-- ===== src/Memory/Clock/Victim.antt =====
-- `PickVictim` of the clock replacer: its loop ends within the fuel, and with the other operations it
-- meets the replacer's laws.
use gopher_db.Base.{
  ℕ, zero, suc, ◌+◌, ◌<◌, ◌≡◌, ◌↔◌, refl, sym, ap, true, false, not, ◌&&◌, List, [], ◌∷◌, Option,
  none, some, arith, length, get_elem?, inl, inr, Option-cases, Bool-cases, le_of_get_elem?,
  lt_of_get_elem?, subst,
}
use gopher_db.Memory.Clock.Valid.{
  IsValid, tracks, push-IsValid, tracks-push, push_pinned, removed-IsValid, delete-IsValid,
  tracks-delete,
}
use gopher_db.Memory.Clock.{ClockReplacer, push, delete, wrap_head, pick_loop, pick_victim}
use gopher_db.Memory.Keys.{
  mem, remove, remove_at, Distinct, mem-remove, mem_of_get_elem?, remove_at-remove, length-remove,
}
use gopher_db.Memory.Replacer.{Replacer}
use gopher_db.Memory.Slot.{PageKey, eq_key}

-- What the loop comes to: the victim leaves the ring and its map, or the ring is empty.
abbrev Picked : ClockReplacer → ClockReplacer × Option PageKey → Type 0
Picked c (c', some k) =
    (mem k c.ring ≡ true) × (c'.ring ≡ remove k c.ring) × (c'.in_ring ≡ remove k c.in_ring)
Picked c (c', none) = (c.ring ≡ []) × (c' ≡ c)

-- A round that only moves the hand and clears a bit does not matter, on a ring that is not empty.
Picked-round :
    (c : ClockReplacer) (h : ℕ) (refs : List PageKey) (i : ℕ) {k : PageKey}
    → get_elem? c.ring i ≡ some k
    → (r : ClockReplacer × Option PageKey) → Picked (record c { head = h; ref = refs }) r
    → Picked c r
Picked-round c h refs i e (c', some k) p = p
Picked-round c h refs i e (c', none) p =
    absurd (omega (arith, lt_of_get_elem? c.ring i e, ap length p.0))

empty_of_none :
    (l : List PageKey) (head : ℕ) → get_elem? l (wrap_head head (length l)) ≡ none → l ≡ []
empty_of_none [] head e = refl
empty_of_none (x ∷ xs) head e = absurd (ground (arith, le_of_get_elem? (x ∷ xs) _ e))

module _ (fuel : ℕ) (c : ClockReplacer) where
  abbrev hand : ℕ
  hand = wrap_head c.head (length c.ring)

  loop_stop : get_elem? c.ring hand ≡ none → pick_loop (suc fuel) c ≡ (c, none)
  unfolding pick_loop
  loop_stop e = ground arith

  loop_round :
      (k : PageKey)
      → get_elem? c.ring hand ≡ some k
      → mem k c.ref ≡ true
      → pick_loop (suc fuel) c ≡ pick_loop fuel (record c { head = hand + 1; ref = remove k c.ref })
  unfolding pick_loop
  loop_round k e marked = ground arith

  loop_victim :
      (k : PageKey)
      → get_elem? c.ring hand ≡ some k
      → mem k c.ref ≡ false
      → pick_loop (suc fuel) c ≡ (
        record c {
          ring = remove_at hand c.ring;
          head = wrap_head hand (length (remove_at hand c.ring));
          in_ring = remove k c.in_ring;
        },
        some k,
      )
  unfolding pick_loop
  loop_victim k e clear = ground arith

pick_loop-Picked :
    (fuel : ℕ) (c : ClockReplacer)
    → Distinct c.ring
    → length c.ref < fuel
    → Picked c (pick_loop fuel c)
pick_loop-Picked zero c d lt = elim lt [ ]
pick_loop-Picked (suc fuel) c d lt =
    let i = wrap_head c.head (length c.ring) in
    elim (Option-cases (get_elem? c.ring i)) [
      | inl e ↦ subst (Picked c) (sym (loop_stop fuel c e)) (empty_of_none c.ring c.head e, refl)
      | inr (k, e) ↦ elim (Bool-cases (mem k c.ref)) [
        | inl marked ↦
            let shorter : length (remove k c.ref) < fuel =
              omega (arith, length-remove k c.ref marked) in
            subst (Picked c) (sym (loop_round fuel c k e marked)) (
              Picked-round c (i + 1) (remove k c.ref) i e _
                (pick_loop-Picked fuel (record c { head = i + 1; ref = remove k c.ref }) d shorter))
        | inr clear ↦
            subst (Picked c) (sym (loop_victim fuel c k e clear))
              (mem_of_get_elem? c.ring i k e, remove_at-remove i k c.ring e d, refl)
      ]
    ]

pick_victim-Picked : (c : ClockReplacer) → IsValid c → Picked c (pick_victim c)
unfolding pick_victim
pick_victim-Picked c h = pick_loop-Picked (suc (length c.ref)) c h.distinct (omega arith)

Picked-none :
    (c : ClockReplacer) (r : ClockReplacer × Option PageKey)
    → Picked c r
    → r.1 ≡ none
    → (c.ring ≡ []) × (r.0 ≡ c)
Picked-none c (c', none) p e = p
Picked-none c (c', some k) p e = cc

Picked-some :
    (c : ClockReplacer) (r : ClockReplacer × Option PageKey) (k : PageKey)
    → Picked c r
    → r.1 ≡ some k
    → (mem k c.ring ≡ true) × (r.0.ring ≡ remove k c.ring) × (r.0.in_ring ≡ remove k c.in_ring)
Picked-some c (c', none) k p e = cc
Picked-some c (c', some x) k p e =
    let same : x ≡ k = cc in
    subst
      (λ y. (mem y c.ring ≡ true) × (c'.ring ≡ remove y c.ring) × (c'.in_ring ≡ remove y c.in_ring))
      same p

Picked-empty :
    (c : ClockReplacer) (r : ClockReplacer × Option PageKey) → Picked c r → c.ring ≡ [] → r.1 ≡ none
unfolding mem
Picked-empty c (c', none) p e = refl
Picked-empty c (c', some k) p e = absurd (absurd_mem (rw e at p.0))
  where
    absurd_mem : mem k [] ≡ true → ⊥
    absurd_mem m = cc

-- Picking a victim fails exactly when no slot is in the ring, and then leaves the replacer as it is.
-- Otherwise the loop ends with a slot of the ring, which leaves the ring and its map, and no other
-- slot does.
pub pick_victim_lem :
    (c : ClockReplacer)
    → IsValid c
    → (((pick_victim c).1 ≡ none) ↔ (c.ring ≡ []))
      × ((pick_victim c).1 ≡ none → (pick_victim c).0 ≡ c)
      × ((k : PageKey)
          → (pick_victim c).1 ≡ some k
          → (mem k c.ring ≡ true)
            × ((pick_victim c).0.ring ≡ remove k c.ring)
            × ((pick_victim c).0.in_ring ≡ remove k c.in_ring))
pick_victim_lem c h =
    let p = pick_victim-Picked c h in
    (
      (λ e. (Picked-none c (pick_victim c) p e).0, Picked-empty c (pick_victim c) p),
      λ e. (Picked-none c (pick_victim c) p e).1,
      λ k e. Picked-some c (pick_victim c) k p e,
    )

pub pick_victim-IsValid : (c : ClockReplacer) → IsValid c → IsValid (pick_victim c).0
pick_victim-IsValid c h = elim (Option-cases (pick_victim c).1) [
  | inl e ↦ rw ((pick_victim_lem c h).1 e) h
  | inr (k, e) ↦
      let out = (pick_victim_lem c h).2 k e in removed-IsValid k c (pick_victim c).0 h out.1 out.2
]

pub tracks-pick_victim :
    (j k : PageKey) (c : ClockReplacer)
    → IsValid c
    → (pick_victim c).1 ≡ some k
    → tracks j (pick_victim c).0 ≡ (not (eq_key k j) && tracks j c)
tracks-pick_victim j k c h e = rw ((pick_victim_lem c h).2 k e).1 (mem-remove j k c.ring h.distinct)

pub no_victim_tracks :
    (j : PageKey) (c : ClockReplacer) → IsValid c → (pick_victim c).1 ≡ none → tracks j c ≡ false
unfolding mem
no_victim_tracks j c h e = rw ((pick_victim_lem c h).0.0 e)

-- The clock replacer meets the replacer's laws.
unfoldable pub clock_replacer : Replacer
clock_replacer = record {
  State = ClockReplacer;
  IsValid = IsValid;
  tracks = tracks;
  push = push;
  delete = delete;
  pick_victim = pick_victim;
  push-IsValid = push-IsValid;
  tracks-push = tracks-push;
  push_pinned = push_pinned;
  delete-IsValid = delete-IsValid;
  tracks-delete = tracks-delete;
  pick_victim-IsValid = pick_victim-IsValid;
  tracks-victim = λ k c h e. ((pick_victim_lem c h).2 k e).0;
  tracks-pick_victim = tracks-pick_victim;
  no_victim = no_victim_tracks;
  no_victim_state = λ c h e. (pick_victim_lem c h).1 e;
}
