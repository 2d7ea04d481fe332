-- ===== src/Memory/Pool/Methods.antt =====
-- The methods of the buffer pool that change a slot or flush: `UpdatePage` to `DirtyPages`.
use gopher_db.Base.{true, false, not, [], ◌∷◌, Option, none, some, if◌then◌else◌}
use gopher_db.Base.Outcome.{Outcome, ok, err, panic}
use gopher_db.Memory.Disk.{PageFileManager}
use gopher_db.Memory.Page.{HeapPage}
use gopher_db.Memory.Pool.{PoolError, Pool, M, find, modify, touch, flush_slot, get_page, Table}
use gopher_db.Memory.Replacer.{Replacer}
use gopher_db.Memory.Slot.{PageKey, BufferSlot, set_page, set_dirty, set_pinned}

module _ (R : Replacer) (F : PageFileManager) where
  -- the slot of the table, or the one that `getPageLocked` loads, and what is done with it
  abbrev pub with_slot :
      {A : Type 0}
      → (BufferSlot → M R F A)
      → Pool R F × Outcome (PoolError F.Error) BufferSlot
      → Pool R F × Outcome (PoolError F.Error) A
  with_slot next (s, ok slot) = next slot s
  with_slot next (s, err e) = (s, err e)
  with_slot next (s, panic) = (s, panic)

  abbrev pub slot_or_load : PageKey → Option BufferSlot → M R F BufferSlot
  slot_or_load k (some slot) s = (s, ok slot)
  slot_or_load k none s = get_page R F k s

  -- `SetPage`, `SetDirty(true)` and `touch` on the table's slot
  abbrev pub store_page : PageKey → HeapPage → BufferSlot → M R F (Unit {0})
  store_page k pg slot s =
      let change = λ (x : BufferSlot). set_dirty (set_page x pg) true in
      (touch R F (change slot) (record s { table = modify k change s.table }), ok tt)

  -- `UpdatePage`, for a page that is not nil
  unfoldable pub update_page : PageKey → HeapPage → M R F (Unit {0})
  update_page k pg s = with_slot (store_page k pg) (slot_or_load k (find k s.table) s)

  abbrev pub pin_slot : PageKey → BufferSlot → M R F (Unit {0})
  pin_slot k slot s = (
    record s {
      table = modify k (λ x. set_pinned x true) s.table;
      replacer = R.delete k s.replacer;
    },
    ok tt,
  )

  unfoldable pub pin_page : PageKey → M R F (Unit {0})
  pin_page k s = with_slot (pin_slot k) (slot_or_load k (find k s.table) s)

  abbrev pub unpin_found : PageKey → Option BufferSlot → M R F (Unit {0})
  unpin_found k none s = (s, ok tt)
  unpin_found k (some slot) s = if not slot.pinned then (s, ok tt) else (
    record s {
      table = modify k (λ x. set_pinned x false) s.table;
      replacer = R.push slot.key false s.replacer;
    },
    ok tt,
  )

  unfoldable pub unpin_page : PageKey → M R F (Unit {0})
  unpin_page k s = unpin_found k (find k s.table) s

  abbrev pub flush_found : PageKey → Option BufferSlot → M R F (Unit {0})
  flush_found k none s = (s, ok tt)
  flush_found k (some slot) s = flush_slot R F k slot s

  unfoldable pub flush_page : PageKey → M R F (Unit {0})
  flush_page k s = flush_found k (find k s.table) s

  -- The loop of `FlushAllPages` over the slots of the map; it stops at the first error.
  unfoldable pub flush_slots : Table → M R F (Unit {0})
  flush_slots [] s = (s, ok tt)
  flush_slots (slot ∷ rest) s =
      let (s', r) = flush_slot R F slot.key slot s in
      let next = flush_slots rest s' in
      elim r [ ok _ ↦ next | err e ↦ (s', err e) | panic ↦ (s', panic) ]

  unfoldable pub flush_all_pages : M R F (Unit {0})
  unfolding flush_slots
  flush_all_pages s = flush_slots s.table s

  only_dirty : Table → Table
  only_dirty [] = []
  only_dirty (slot ∷ rest) = if slot.dirty then slot ∷ only_dirty rest else only_dirty rest

  unfoldable pub dirty_pages : Pool R F → Table
  unfolding only_dirty
  dirty_pages s = only_dirty s.table
