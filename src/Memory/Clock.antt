-- ===== src/Memory/Clock.antt =====
-- `internal/core/memory/replacer/clock_replacer.go`: a ring of slots with a hand, `head`, and two maps that
-- are used as sets: the keys in the ring, and those whose reference bit is set.
pub mod Valid
pub mod Victim
use gopher_db.Base.{
  ℕ, zero, suc, ◌+◌, ◌-◌, Bool, not, List, [], ◌∷◌, ◌++◌, Option, none, some, length, get_elem?,
  ltb, leb, ◌==◌, if◌then◌else◌,
}
use gopher_db.Memory.Keys.{mem, remove, add, remove_at, index_of}
use gopher_db.Memory.Slot.{PageKey}

pub record ClockReplacer : Type 0 where
  pub ring : List PageKey
  pub head : ℕ
  pub in_ring : List PageKey
  pub ref : List PageKey

abbrev pub new_clock_replacer : ClockReplacer
new_clock_replacer = record { ring = []; head = 0; in_ring = []; ref = [] }

unfoldable pub push : PageKey → Bool → ClockReplacer → ClockReplacer
push key pinned c =
    if pinned
    then c
    else if mem key c.in_ring
    then record c { ref = add key c.ref }
    else record c { ring = c.ring ++ (key ∷ []); in_ring = key ∷ c.in_ring; ref = add key c.ref }

-- where the hand stands once the slot at position `i` is out and `left` slots remain
unfoldable pub head_after : ℕ → ℕ → ℕ → ℕ
head_after i left head =
    if left == 0 then 0 else if ltb i head then head - 1 else if leb left head then 0 else head

unfoldable pub delete : PageKey → ClockReplacer → ClockReplacer
unfolding head_after
delete key c =
    if not (mem key c.in_ring)
    then c
    else let i = index_of key c.ring in
      let rest = remove_at i c.ring in
      record {
        ring = rest;
        head = if ltb i (length c.ring) then head_after i (length rest) c.head else c.head;
        in_ring = remove key c.in_ring;
        ref = remove key c.ref;
      }

-- `if c.head >= len(c.ring) { c.head = 0 }`
abbrev pub wrap_head : ℕ → ℕ → ℕ
wrap_head head len = if leb len head then 0 else head

-- The loop of `PickVictim`: each round but the last clears a reference bit, so one round more than
-- there are bits set is enough. `none` for the slot under the hand would be an index out of range.
unfoldable pub pick_loop : ℕ → ClockReplacer → ClockReplacer × Option PageKey
pick_loop zero c = (c, none)
pick_loop (suc fuel) c =
    let head = wrap_head c.head (length c.ring) in
    elim (get_elem? c.ring head) [
      | none ↦ (c, none)
      | some key ↦
          let next = pick_loop fuel (record c { head = head + 1; ref = remove key c.ref }) in
          let rest = remove_at head c.ring in
          if mem key c.ref then next else (
            record c {
              ring = rest;
              head = wrap_head head (length rest);
              in_ring = remove key c.in_ring;
            },
            some key,
          )
    ]

unfoldable pub pick_victim : ClockReplacer → ClockReplacer × Option PageKey
unfolding pick_loop
pick_victim c = pick_loop (suc (length c.ref)) c
