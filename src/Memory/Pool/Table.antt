-- ===== src/Memory/Pool/Table.antt =====
-- The page table as a map: what a look-up sees of a change or a removal.
use mathlib.Core.Option
use gopher_db.Base.{
  ◌+◌, ◌≡◌, refl, true, false, List, [], ◌∷◌, none, some, arith, length, if◌then◌else◌,
}
use gopher_db.Memory.Keys.{mem, remove, Distinct}
use gopher_db.Memory.Pool.{Table, find, modify, evict}
use gopher_db.Memory.Slot.{PageKey, eq_key, eq_key-cases, eq_key_sound, BufferSlot}

abbrev pub keys : Table → List PageKey
keys [] = []
keys (s ∷ t) = s.key ∷ keys t

pub find-key : (k : PageKey) (t : Table) {slot : BufferSlot} → find k t ≡ some slot → slot.key ≡ k
unfolding find
find-key k [] h = cc
find-key k (s ∷ t) {slot} h = ground (arith, find-key k t {slot = slot}, eq_key_sound s.key k)

pub mem-keys :
    (k : PageKey) (t : Table) {slot : BufferSlot} → find k t ≡ some slot → mem k (keys t) ≡ true
unfolding find mem
mem-keys k [] h = cc
mem-keys k (s ∷ t) {slot} h = ground (arith, mem-keys k t {slot = slot})

pub not-mem-keys : (k : PageKey) (t : Table) → find k t ≡ none → mem k (keys t) ≡ false
unfolding find mem
not-mem-keys k [] h = refl
not-mem-keys k (s ∷ t) h = ground (arith, not-mem-keys k t)

find_of_not-mem : (k : PageKey) (t : Table) → mem k (keys t) ≡ false → find k t ≡ none
unfolding find mem
find_of_not-mem k [] h = refl
find_of_not-mem k (s ∷ t) h = ground (arith, find_of_not-mem k t)

module _ (k : PageKey) (f : BufferSlot → BufferSlot)
    (same : (s : BufferSlot) → (f s).key ≡ s.key) where
  pub find-modify :
      (j : PageKey) (t : Table)
      → find j (modify k f t) ≡ (if eq_key k j then Option.map f (find j t) else find j t)
  unfolding find modify
  find-modify j [] = ground arith
  find-modify j (s ∷ t) =
      ground (
        arith,
        find-modify j t,
        same s,
        eq_key-cases s.key k,
        eq_key-cases k j,
        eq_key-cases s.key j,
      )

  pub keys-modify : (t : Table) → keys (modify k f t) ≡ keys t
  unfolding modify
  keys-modify [] = refl
  keys-modify (s ∷ t) = ground (arith, keys-modify t, same s)

  pub length-modify : (t : Table) → length (modify k f t) ≡ length t
  unfolding modify
  length-modify [] = refl
  length-modify (s ∷ t) = ground (arith, length-modify t)

pub keys-evict : (k : PageKey) (t : Table) → keys (evict k t) ≡ remove k (keys t)
unfolding evict remove
keys-evict k [] = refl
keys-evict k (s ∷ t) = ground (arith, keys-evict k t)

pub find-evict :
    (j k : PageKey) (t : Table)
    → Distinct (keys t)
    → find j (evict k t) ≡ (if eq_key k j then none else find j t)
unfolding find evict
find-evict j k [] d = ground arith
find-evict j k (s ∷ t) d = ground (
  arith,
  find-evict j k t d.1,
  eq_key-cases s.key k,
  eq_key-cases k j,
  eq_key-cases s.key j,
  find_of_not-mem s.key t d.0,
)

pub length-evict :
    (k : PageKey) (t : Table) {slot : BufferSlot}
    → find k t ≡ some slot
    → length (evict k t) + 1 ≡ length t
unfolding find evict
length-evict k [] h = cc
length-evict k (s ∷ t) {slot} h = ground (arith, length-evict k t {slot = slot})
