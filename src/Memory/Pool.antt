-- ===== src/Memory/Pool.antt =====
-- `internal/core/memory/buffer/heap_buffer_pool_manager.go`: the page table over a replacer and a page file
-- manager. A method returns the new state beside its outcome, since a call that fails may have
-- evicted a page before. The mutex makes each method one step.
pub mod Methods
pub mod Table
pub mod Invariant
pub mod Space
pub mod Evict
pub mod Touch
pub mod Content
pub mod Refines
pub mod Store
pub mod Flush
pub mod Pins
pub mod Written
pub mod FlushAll
use gopher_db.Base.{
  ℕ, ◌+◌, ◌≡◌, Bool, true, false, not, ◌&&◌, List, [], ◌∷◌, ◌++◌, Option, none, some, length, ltb,
  ◌==◌, if◌then◌else◌,
}
use gopher_db.Base.Int.{ℤ, pos, negsuc, lt_ℤ}
use gopher_db.Base.Outcome.{Outcome, ok, err, panic}
use gopher_db.Bytes.Compare.{eq_bytes}
use gopher_db.Bytes.Copy.{Bytes}
use gopher_db.Memory.Disk.{PageFileManager}
use gopher_db.Memory.Page.{HeapPage}
use gopher_db.Memory.Replacer.{Replacer}
use gopher_db.Memory.Slot.{
  PageKey, eq_key, BufferSlot, new_buffer_slot, set_page, set_dirty, set_pinned, increment_usage,
}

-- The page table: the map's slots, each under its own key.
abbrev pub Table : Type 0
Table = List BufferSlot

unfoldable pub find : PageKey → Table → Option BufferSlot
find k [] = none
find k (s ∷ t) = if eq_key s.key k then some s else find k t

-- a change of the slot that the table holds for a key
unfoldable pub modify : PageKey → (BufferSlot → BufferSlot) → Table → Table
modify k f [] = []
modify k f (s ∷ t) = if eq_key s.key k then f s ∷ t else s ∷ modify k f t

-- `delete(pageTable, key)`
unfoldable pub evict : PageKey → Table → Table
evict k [] = []
evict k (s ∷ t) = if eq_key s.key k then t else s ∷ evict k t

-- `filepath.Join(root, fileID)`, where neither holds a part that `Clean` would change
abbrev pub join_path : Bytes → Bytes → Bytes
join_path root file_id = root ++ (b'/' ∷ file_id)

pub data PoolError (E : Type 0) : Type 0 where
  pool_size_error storage_root_empty page_already_in_buffer no_victim : PoolError E
  io : E → PoolError E

-- a size that is positive, as a number of slots
abbrev magnitude : ℤ → ℕ
magnitude (pos n) = n
magnitude (negsuc n) = 0

module _ (R : Replacer) (F : PageFileManager) where
  pub record Pool : Type 0 where
    pub pool_size : ℕ
    pub root : Bytes
    pub table : Table
    pub replacer : R.State
    pub disk : F.Disk

  -- a method's effect on the pool, and its outcome
  abbrev pub M : Type 0 → Type 0
  M A = Pool → Pool × Outcome (PoolError F.Error) A

  abbrev pub path : Pool → PageKey → Bytes
  path s k = join_path s.root k.file_id

  -- `NewHeapBufferPoolManager`, given a replacer and a manager that are not nil
  unfoldable pub new_pool : ℤ → R.State → F.Disk → Bytes → Outcome (PoolError F.Error) Pool
  new_pool pool_size replacer disk root =
      if not (lt_ℤ (pos 0) pool_size)
      then err pool_size_error
      else if eq_bytes root []
      then err storage_root_empty
      else ok (record {
        pool_size = magnitude pool_size;
        root = root;
        table = [];
        replacer = replacer;
        disk = disk;
      })

  unfoldable pub touch : BufferSlot → Pool → Pool
  touch slot s =
      if slot.pinned then s else record s { replacer = R.push slot.key slot.pinned s.replacer }

  -- `flushSlotLocked` on a dirty slot, with the write's outcome
  abbrev pub flushed :
      PageKey → Pool → Outcome F.Error F.Disk → Pool × Outcome (PoolError F.Error) (Unit {0})
  flushed k s (ok disk) =
      (record s { disk = disk; table = modify k (λ slot. set_dirty slot false) s.table }, ok tt)
  flushed k s (err e) = (s, err (io e))
  flushed k s panic = (s, panic)

  unfoldable pub flush_slot : PageKey → BufferSlot → M (Unit {0})
  flush_slot k slot s =
      if slot.dirty then flushed k s (F.write slot.page (path s k) s.disk) else (s, ok tt)

  -- the end of `ensureSpaceLocked`: the slot leaves the table unless its flush failed
  abbrev pub dropped :
      PageKey
      → Pool × Outcome (PoolError F.Error) (Unit {0})
      → Pool × Outcome (PoolError F.Error) (Unit {0})
  dropped k (s, ok _) = (record s { table = evict k s.table }, ok tt)
  dropped k (s, err e) = (s, err e)
  dropped k (s, panic) = (s, panic)

  -- `ensureSpaceLocked` with the victim that the replacer picked. The replacer's slot for a key is the
  -- table's; a key with no slot in the table does not occur (see `Pool.Invariant`).
  abbrev pub evict_slot : PageKey → Option BufferSlot → M (Unit {0})
  evict_slot k none s = (s, ok tt)
  evict_slot k (some slot) s = dropped k (flush_slot k slot s)

  abbrev pub evict_victim : Option PageKey → M (Unit {0})
  evict_victim none s = (s, err no_victim)
  evict_victim (some k) s = evict_slot k (find k s.table) s

  unfoldable pub ensure_space : M (Unit {0})
  unfolding flush_slot
  ensure_space s =
      if ltb (length s.table) s.pool_size
      then (s, ok tt)
      else let picked = R.pick_victim s.replacer in
        evict_victim picked.1 (record s { replacer = picked.0 })

  -- a new slot, put into the table and touched
  abbrev pub add_slot : PageKey → HeapPage → Pool → Pool × Outcome (PoolError F.Error) BufferSlot
  add_slot k pg s =
      let slot = new_buffer_slot k pg in (touch slot (record s { table = slot ∷ s.table }), ok slot)

  abbrev pub loaded :
      PageKey → Pool → Outcome F.Error HeapPage → Pool × Outcome (PoolError F.Error) BufferSlot
  loaded k s (ok pg) = add_slot k pg s
  loaded k s (err e) = (s, err (io e))
  loaded k s panic = (s, panic)

  -- what follows `ensureSpaceLocked`, unless it failed
  abbrev pub with_space :
      {A : Type 0}
      → M A
      → Pool × Outcome (PoolError F.Error) (Unit {0})
      → Pool × Outcome (PoolError F.Error) A
  with_space next (s, ok _) = next s
  with_space next (s, err e) = (s, err e)
  with_space next (s, panic) = (s, panic)

  -- `GetPage`, and `getPageLocked`, which is the same code, on what the table has for the key
  abbrev pub get_found : PageKey → Option BufferSlot → M BufferSlot
  get_found k (some slot) s =
      let used = increment_usage slot in
      (touch used (record s { table = modify k increment_usage s.table }), ok used)
  get_found k none s =
      with_space (λ t. loaded k t (F.read k.page_id (path t k) t.disk)) (ensure_space s)

  unfoldable pub get_page : PageKey → M BufferSlot
  get_page k s = get_found k (find k s.table) s

  -- `NewPage`, for a page that is not nil, on what the table has for the key
  abbrev pub new_found : PageKey → HeapPage → Option BufferSlot → M BufferSlot
  new_found k pg (some _) s = (s, err page_already_in_buffer)
  new_found k pg none s = with_space (add_slot k pg) (ensure_space s)

  unfoldable pub new_page : PageKey → HeapPage → M BufferSlot
  new_page k pg s = new_found k pg (find k s.table) s
