-- ===== src/Memory/Lru.antt =====
-- `internal/core/memory/replacer/lru_replacer.go`: a linked list of entries, the least recently pushed in
-- front, and a map from a key to its entry. An entry is named by its key, in the list and in the map.
pub mod Valid
pub mod Recency
pub mod Order
use gopher_db.Base.{Bool, List, [], ◌∷◌, ◌++◌, Option, none, some, if◌then◌else◌}
use gopher_db.Memory.Keys.{mem, remove}
use gopher_db.Memory.Slot.{PageKey}

pub record LruReplacer : Type 0 where
  pub linked_list : List PageKey
  pub lru : List PageKey

abbrev pub new_lru_replacer : LruReplacer
new_lru_replacer = record { linked_list = []; lru = [] }

unfoldable pub push : PageKey → Bool → LruReplacer → LruReplacer
push key pinned r =
    if pinned
    then r
    else if mem key r.lru
    then record r { linked_list = remove key r.linked_list ++ (key ∷ []) }
    else record { linked_list = r.linked_list ++ (key ∷ []); lru = key ∷ r.lru }

unfoldable pub delete : PageKey → LruReplacer → LruReplacer
delete key r =
    if mem key r.lru
    then record { linked_list = remove key r.linked_list; lru = remove key r.lru }
    else r

-- `PickVictim` on the list and the map's keys
unfoldable pub pick_front : List PageKey → List PageKey → LruReplacer × Option PageKey
pick_front [] lru = (record { linked_list = []; lru = lru }, none)
pick_front (key ∷ rest) lru = (record { linked_list = rest; lru = remove key lru }, some key)

unfoldable pub pick_victim : LruReplacer → LruReplacer × Option PageKey
unfolding pick_front
pick_victim r = pick_front r.linked_list r.lru
