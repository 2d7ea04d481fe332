-- ===== src/Tests/Pools.antt =====
-- The buffer pool, its replacers and pages on fixed inputs.
use mathlib.Core.List.{head?}
use gopher_db.Base.{◌≡◌, ◌↔◌, refl, true, false, [], ◌∷◌, none, some, arith}
use gopher_db.Base.Int.{pos, negsuc}
use gopher_db.Base.Outcome.{Outcome, ok, err}
use gopher_db.Bytes.Copy.{Bytes}
use gopher_db.Memory.Clock.Valid
use gopher_db.Memory.Clock.Victim.{pick_victim_lem}
use gopher_db.Memory.Clock
use gopher_db.Memory.Keys.{mem, remove}
use gopher_db.Memory.Lru.Order.{pushes, victim-keep_last}
use gopher_db.Memory.Lru.Recency.{keep_last}
use gopher_db.Memory.Lru.Valid.{lru_replacer, new_lru_replacer-IsValid}
use gopher_db.Memory.Lru.{new_lru_replacer}
use gopher_db.Memory.Lru
use gopher_db.Memory.Page.Read.{read-get_elem?, read_negative, new_heap_page-Represents}
use gopher_db.Memory.Page.Records.{Represents}
use gopher_db.Memory.Page.Write.{HasRoom, write-Represents, write-HasRoom}
use gopher_db.Memory.Page.{HeapPage, new_heap_page, read, write, no_space, nil_data, slot_index}
use gopher_db.Memory.Pool.Content.{Got}
use gopher_db.Memory.Pool.Evict.{MadeRoom, ensure_space-MadeRoom}
use gopher_db.Memory.Pool.Flush.{flush_page-new_page}
use gopher_db.Memory.Pool.Invariant.{Suits, IsValid}
use gopher_db.Memory.Pool.Methods.{update_page, flush_page, pin_page, unpin_page, flush_all_pages}
use gopher_db.Memory.Pool.FlushAll.{AllFlushed, flush_all_pages-AllFlushed}
use gopher_db.Memory.Pool.Pins.{Pinned, pin_page-Pinned, Unpinned, unpin_page-Unpinned}
use gopher_db.Memory.Pool.Written.{Flushed, flush_page-Flushed}
use gopher_db.Memory.Pool.Refines.{get_page-Got}
use gopher_db.Memory.Pool.Store.{Stored, new_page-Stored, update_page-Stored}
use gopher_db.Bytes.Compare.{eq_bytes}
use gopher_db.Memory.Pool.{Pool, PoolError, find, touch, ensure_space, get_page, new_page}
use gopher_db.Memory.Slot.{eq_key, PageKey, BufferSlot, new_buffer_slot}
use gopher_db.Tests.MemoryDisk.{memory_disk, DiskError}

abbrev first_key : PageKey
first_key = record { file_id = b'f' ∷ []; page_id = pos 0 }

abbrev second_key : PageKey
second_key = record { file_id = b'f' ∷ []; page_id = pos 1 }

abbrev first_page : HeapPage
first_page = new_heap_page (pos 0)

abbrev second_page : HeapPage
second_page = new_heap_page (pos 1)

abbrev small_pool : Pool lru_replacer memory_disk
unfolding lru_replacer memory_disk
small_pool = record {
  pool_size = 1;
  root = b'r' ∷ [];
  table = [];
  replacer = new_lru_replacer;
  disk = [];
}

small_pool-IsValid : IsValid lru_replacer memory_disk small_pool
unfolding lru_replacer memory_disk find mem
small_pool-IsValid = record {
  replacer_valid = new_lru_replacer-IsValid;
  disk_valid = tt;
  distinct = tt;
  bounded = omega arith;
  positive = omega arith;
  suits = λ k slot e. absurd (empty e);
  tracked = λ k t. absurd (untracked t);
}
  where
    empty : {x : BufferSlot} → none ≡ some x → ⊥
    empty e = cc

    untracked : false ≡ true → ⊥
    untracked e = cc

first_page-Suits : Suits first_key first_page
unfolding new_heap_page
first_page-Suits = record {
  size_is = (new_heap_page-Represents (pos 0)).size_is;
  page_id_is = refl;
}

second_page-Suits : Suits second_key second_page
unfolding new_heap_page
second_page-Suits = record {
  size_is = (new_heap_page-Represents (pos 1)).size_is;
  page_id_is = refl;
}

-- the one slot holds the first page, which is dirty, so that the next page evicts it
full_update : Pool lru_replacer memory_disk × Outcome (PoolError DiskError) (Unit {0})
unfolding memory_disk
full_update =
    update_page lru_replacer memory_disk first_key first_page
      (new_page lru_replacer memory_disk first_key first_page small_pool).0

full_pool : Pool lru_replacer memory_disk
unfolding full_update
full_pool = full_update.0

full_pool-IsValid : IsValid lru_replacer memory_disk full_pool
unfolding full_pool full_update
full_pool-IsValid =
    (update_page-Stored lru_replacer memory_disk _
      (new_page-Stored lru_replacer memory_disk small_pool small_pool-IsValid first_key first_page
        first_page-Suits).valid
      first_key first_page first_page-Suits).valid

get_page-Got_example :
    Got lru_replacer memory_disk second_key full_pool
      (get_page lru_replacer memory_disk second_key full_pool)
get_page-Got_example = get_page-Got lru_replacer memory_disk full_pool full_pool-IsValid second_key

new_page-Stored_example :
    Stored lru_replacer memory_disk second_key second_page false full_pool
      (new_page lru_replacer memory_disk second_key second_page full_pool)
new_page-Stored_example =
    new_page-Stored lru_replacer memory_disk full_pool full_pool-IsValid second_key second_page
      second_page-Suits

update_page-Stored_example :
    Stored lru_replacer memory_disk second_key second_page true full_pool
      (update_page lru_replacer memory_disk second_key second_page full_pool)
update_page-Stored_example =
    update_page-Stored lru_replacer memory_disk full_pool full_pool-IsValid second_key second_page
      second_page-Suits

ensure_space-MadeRoom_example :
    MadeRoom lru_replacer memory_disk full_pool (ensure_space lru_replacer memory_disk full_pool)
ensure_space-MadeRoom_example =
    ensure_space-MadeRoom lru_replacer memory_disk full_pool full_pool-IsValid

fresh_result :
    (new_page lru_replacer memory_disk first_key first_page small_pool).1
    ≡ ok (new_buffer_slot first_key first_page)
unfolding new_page lru_replacer memory_disk ensure_space find
fresh_result = refl

flush_page-new_page_example :
    flush_page lru_replacer memory_disk first_key
      (new_page lru_replacer memory_disk first_key first_page small_pool).0
    ≡ ((new_page lru_replacer memory_disk first_key first_page small_pool).0, ok tt)
flush_page-new_page_example =
    flush_page-new_page lru_replacer memory_disk small_pool small_pool-IsValid first_key first_page
      first_page-Suits (new_buffer_slot first_key first_page) fresh_result

full_slot :
    (slot : BufferSlot) × (find first_key full_pool.table ≡ some slot)
    × (slot.page ≡ first_page)
    × (slot.dirty ≡ true)
unfolding full_pool update_page find new_page small_pool ensure_space touch eq_key eq_bytes
full_slot =
    (update_page-Stored lru_replacer memory_disk _
        (new_page-Stored lru_replacer memory_disk small_pool small_pool-IsValid first_key first_page
          first_page-Suits).valid
        first_key first_page first_page-Suits).in_slot
      tt update_result
  where
    update_result : full_update.1 ≡ ok tt
    update_result = refl

pin_page-Pinned_example :
    Pinned lru_replacer memory_disk second_key full_pool
      (pin_page lru_replacer memory_disk second_key full_pool)
pin_page-Pinned_example =
    pin_page-Pinned lru_replacer memory_disk full_pool full_pool-IsValid second_key

unpin_page-Unpinned_example :
    Unpinned lru_replacer memory_disk first_key full_pool
      (unpin_page lru_replacer memory_disk first_key full_pool)
unpin_page-Unpinned_example =
    unpin_page-Unpinned lru_replacer memory_disk full_pool full_pool-IsValid first_key

flush_page-Flushed_example :
    Flushed lru_replacer memory_disk first_key full_slot.0 full_pool
      (flush_page lru_replacer memory_disk first_key full_pool)
flush_page-Flushed_example =
    flush_page-Flushed lru_replacer memory_disk full_pool full_pool-IsValid first_key full_slot.0
      full_slot.1

flush_all_pages-AllFlushed_example :
    AllFlushed lru_replacer memory_disk full_pool.table full_pool
      (flush_all_pages lru_replacer memory_disk full_pool)
flush_all_pages-AllFlushed_example =
    flush_all_pages-AllFlushed lru_replacer memory_disk full_pool full_pool-IsValid

write-Represents_example :
    (p' : HeapPage) × (write first_page (some (7 ∷ [])) ≡ ok p')
    × (p'.page_id ≡ first_page.page_id)
    × Represents p'.buf ((7 ∷ []) ∷ [])
write-Represents_example =
    write-Represents first_page [] (7 ∷ []) (new_heap_page-Represents (pos 0)) (omega arith)

write-HasRoom_example :
    ((d : Bytes) → ¬ HasRoom [] d → write first_page (some d) ≡ err no_space)
    × (write first_page none ≡ err nil_data)
write-HasRoom_example = write-HasRoom first_page [] (new_heap_page-Represents (pos 0))

-- a page with one record
one_record : HeapPage
one_record =
    (write-Represents first_page [] (7 ∷ []) (new_heap_page-Represents (pos 0)) (omega arith)).0

one_record-Represents : Represents one_record.buf ((7 ∷ []) ∷ [])
unfolding one_record
one_record-Represents =
    (write-Represents first_page [] (7 ∷ []) (new_heap_page-Represents (pos 0)) (omega arith)).3

read-get_elem?_example : read one_record (pos 0) ≡ ok (7 ∷ [])
read-get_elem?_example = read-get_elem? one_record 0 one_record-Represents

read_negative_example : read one_record (negsuc 0) ≡ err slot_index
read_negative_example = read_negative one_record 0 one_record-Represents

victim-keep_last_example :
    ((pushes (first_key ∷ second_key ∷ first_key ∷ []) new_lru_replacer).linked_list
      ≡ keep_last (first_key ∷ second_key ∷ first_key ∷ []))
    × ((Lru.pick_victim (pushes (first_key ∷ second_key ∷ first_key ∷ []) new_lru_replacer)).1
        ≡ head? (keep_last (first_key ∷ second_key ∷ first_key ∷ [])))
victim-keep_last_example = victim-keep_last (first_key ∷ second_key ∷ first_key ∷ [])

abbrev two_slots : Clock.ClockReplacer
two_slots = Clock.push second_key false (Clock.push first_key false Clock.new_clock_replacer)

two_slots-IsValid : Clock.Valid.IsValid two_slots
two_slots-IsValid =
    Clock.Valid.push-IsValid second_key false (Clock.push first_key false Clock.new_clock_replacer)
      (Clock.Valid.push-IsValid first_key false Clock.new_clock_replacer
        Clock.Valid.new_clock_replacer-IsValid)

pick_victim_lem_example :
    (((Clock.pick_victim two_slots).1 ≡ none) ↔ (two_slots.ring ≡ []))
    × ((Clock.pick_victim two_slots).1 ≡ none → (Clock.pick_victim two_slots).0 ≡ two_slots)
    × ((k : PageKey)
        → (Clock.pick_victim two_slots).1 ≡ some k
        → (mem k two_slots.ring ≡ true)
          × ((Clock.pick_victim two_slots).0.ring ≡ remove k two_slots.ring)
          × ((Clock.pick_victim two_slots).0.in_ring ≡ remove k two_slots.in_ring))
pick_victim_lem_example = pick_victim_lem two_slots two_slots-IsValid
