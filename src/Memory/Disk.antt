-- ===== src/Memory/Disk.antt =====
-- `internal/core/memory/manager/page_file_manager.go`: the interface through which the buffer pool reads
-- and writes pages, with the laws that the pool relies on.
use gopher_db.Base.{◌≡◌, Option, none, some, length, if◌then◌else◌}
use gopher_db.Base.Int.{ℤ}
use gopher_db.Base.Outcome.{Outcome, ok, err, panic}
use gopher_db.Bytes.Copy.{Bytes}
use gopher_db.Memory.Page.{HeapPage, page_size}
use gopher_db.Memory.Slot.{PageKey, eq_key}

-- what a read finds, with the kind of its failure forgotten
abbrev pub found : {E A : Type 0} → Outcome E A → Option A
found (ok a) = some a
found (err e) = none
found panic = none

-- `write p path d` is the disk after `Write(p, path)`, or the error, with the disk as it was. A disk is a
-- state, so failures of the operating system are states in which calls fail; a write that fails half-way and leaves a part of
-- the page in the file is not covered.
pub record PageFileManager : Type 1 where
  pub Disk : Type 0
  pub Error : Type 0
  pub IsValid : Disk → Type 0
  pub write : HeapPage → Bytes → Disk → Outcome Error Disk
  pub read : ℤ → Bytes → Disk → Outcome Error HeapPage
  pub write-IsValid :
      (p : HeapPage) (path : Bytes) (d d' : Disk)
      → IsValid d
      → length p.buf ≡ page_size
      → write p path d ≡ ok d'
      → IsValid d'
  -- a written page is read back, and every other page is read as before
  pub read-write :
      (p : HeapPage) (path : Bytes) (d d' : Disk)
      → IsValid d
      → length p.buf ≡ page_size
      → write p path d ≡ ok d'
      → (k : PageKey)
      → found (read k.page_id k.file_id d') ≡ (
          if eq_key (record { file_id = path; page_id = p.page_id }) k
          then some p
          else found (read k.page_id k.file_id d))
  -- a page that is read has the size and the number asked for
  pub read_sound :
      (id : ℤ) (path : Bytes) (d : Disk) (p : HeapPage)
      → read id path d ≡ ok p
      → (length p.buf ≡ page_size) × (p.page_id ≡ id)
