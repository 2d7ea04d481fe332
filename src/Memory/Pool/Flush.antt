-- ===== src/Memory/Pool/Flush.antt =====
-- `FlushPage` and the dirty mark that `NewPage` and `UpdatePage` leave.
use gopher_db.Base.{◌≡◌, sym, subst}
use gopher_db.Base.Outcome.{ok}
use gopher_db.Memory.Disk.{PageFileManager}
use gopher_db.Memory.Page.{HeapPage}
use gopher_db.Memory.Pool.Evict.{flush_slot-clean}
use gopher_db.Memory.Pool.Invariant.{Suits, IsValid}
use gopher_db.Memory.Pool.Methods.{flush_page, flush_found}
use gopher_db.Memory.Pool.Store.{new_page-Stored}
use gopher_db.Memory.Pool.{Pool, new_page}
use gopher_db.Memory.Replacer.{Replacer}
use gopher_db.Memory.Slot.{PageKey, BufferSlot}

module _ (R : Replacer) (F : PageFileManager) where
  -- After `NewPage` put a page into a valid pool, `FlushPage` of its key succeeds and changes nothing: the
  -- page is not written.
  pub flush_page-new_page :
      (s : Pool R F)
      → IsValid R F s
      → (k : PageKey) (pg : HeapPage) → Suits k pg
      → (slot : BufferSlot) → (new_page R F k pg s).1 ≡ ok slot
      → flush_page R F k (new_page R F k pg s).0 ≡ ((new_page R F k pg s).0, ok tt)
  unfolding flush_page
  flush_page-new_page s h k pg suits slot e =
      let (x, there, same, clean) = (new_page-Stored R F s h k pg suits).in_slot slot e in
      subst (λ o. flush_found R F k o (new_page R F k pg s).0 ≡ ((new_page R F k pg s).0, ok tt))
        (sym there) (flush_slot-clean R F k x (new_page R F k pg s).0 clean)
