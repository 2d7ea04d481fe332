-- ===== src/Memory/Pool/Invariant.antt =====
-- The pool's invariant, and its abstract view: the page that each key stands for.
use gopher_db.Base.{◌≤◌, ◌<◌, ◌≡◌, true, false, [], ◌∷◌, Option, none, some, arith, length}
use gopher_db.Bytes.Compare.{eq_bytes}
use gopher_db.Bytes.Copy.{Bytes}
use gopher_db.Memory.Disk.{PageFileManager, found}
use gopher_db.Memory.Keys.{Distinct}
use gopher_db.Memory.Page.{HeapPage, page_size}
use gopher_db.Memory.Pool.Table.{keys}
use gopher_db.Memory.Pool.{Pool, find, path, join_path}
use gopher_db.Memory.Replacer.{Replacer}
use gopher_db.Memory.Slot.{PageKey, eq_key, BufferSlot}

-- A page that can be kept under the key: of the right size, with the key's page number.
pub record Suits (k : PageKey) (p : HeapPage) : Type 0 where
  pub size_is : length p.buf ≡ page_size
  pub page_id_is : p.page_id ≡ k.page_id

abbrev pub held : Option BufferSlot → Option HeapPage → Option HeapPage
held (some slot) disk = some slot.page
held none disk = disk

module _ (R : Replacer) (F : PageFileManager) where
  -- what the file holds for a key
  abbrev pub on_disk : Pool R F → PageKey → Option HeapPage
  on_disk s k = found (F.read k.page_id (path R F s k) s.disk)

  -- The page that a key stands for: the slot's if it has one, else the file's.
  abbrev pub content : Pool R F → PageKey → Option HeapPage
  content s k = held (find k s.table) (on_disk s k)

  -- A slot that is not dirty holds what the file holds. (`NewPage` makes slots that are neither.)
  abbrev pub Durable : Pool R F → PageKey → Type 0
  Durable s k =
      (slot : BufferSlot)
      → find k s.table ≡ some slot
      → slot.dirty ≡ false
      → on_disk s k ≡ some slot.page

  -- Never more slots than the pool's size, one for a key, each with a fitting page; and the replacer
  -- holds only keys of slots that are in the table and not pinned.
  pub record IsValid (s : Pool R F) : Type 0 where
    pub replacer_valid : R.IsValid s.replacer
    pub disk_valid : F.IsValid s.disk
    pub distinct : Distinct (keys s.table)
    pub bounded : length s.table ≤ s.pool_size
    pub positive : 0 < s.pool_size
    pub suits : (k : PageKey) (slot : BufferSlot) → find k s.table ≡ some slot → Suits k slot.page
    pub tracked :
        (k : PageKey)
        → R.tracks k s.replacer ≡ true
        → (slot : BufferSlot) × (find k s.table ≡ some slot) × (slot.pinned ≡ false)

  -- Nothing that a client can observe of key `j` changed: its page, whether it is safe to evict, and
  -- a pinned slot is still in the table, pinned, with its page.
  pub record Keeps (s s' : Pool R F) (j : PageKey) : Type 0 where
    pub content_is : Durable s j → content s' j ≡ content s j
    pub durable : Durable s j → Durable s' j
    pub pinned_stays :
        (slot : BufferSlot)
        → find j s.table ≡ some slot
        → slot.pinned ≡ true
        → (slot' : BufferSlot) × (find j s'.table ≡ some slot')
          × (slot'.page ≡ slot.page)
          × (slot'.pinned ≡ true)

eq_bytes-join_path :
    (root a b : Bytes) → eq_bytes (join_path root a) (join_path root b) ≡ eq_bytes a b
unfolding eq_bytes
eq_bytes-join_path [] a b = ground arith
eq_bytes-join_path (x ∷ root) a b = ground (arith, eq_bytes-join_path root a b)

-- Two keys have the same file and page number exactly if they are one key.
pub eq_key-join_path :
    (root : Bytes) (k j : PageKey)
    → eq_key
        (record k { file_id = join_path root k.file_id })
        (record j { file_id = join_path root j.file_id })
      ≡ eq_key k j
unfolding eq_key
eq_key-join_path root k j = rw (eq_bytes-join_path root k.file_id j.file_id)
