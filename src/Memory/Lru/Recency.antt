-- ===== src/Memory/Lru/Recency.antt =====
-- The eviction order of the LRU replacer, against the history of pushes.
use gopher_db.Base.{◌≡◌, refl, false, List, [], ◌∷◌, ◌++◌, arith, if◌then◌else◌}
use gopher_db.Memory.Keys.{mem, remove, mem-append, remove_absent}
use gopher_db.Memory.Slot.{PageKey, eq_key-cases, eq_key_refl}

-- The keys of a history in the order of their last push.
unfoldable pub keep_last : List PageKey → List PageKey
keep_last [] = []
keep_last (k ∷ ks) = let rest = keep_last ks in if mem k ks then rest else k ∷ rest

pub mem-keep_last : (j : PageKey) (ks : List PageKey) → mem j (keep_last ks) ≡ mem j ks
unfolding keep_last mem
mem-keep_last j [] = refl
mem-keep_last j (k ∷ ks) = ground (arith, mem-keep_last j ks, eq_key-cases k j)

remove-append :
    (k : PageKey) (xs : List PageKey) → mem k xs ≡ false → remove k (xs ++ (k ∷ [])) ≡ xs
unfolding remove mem
remove-append k [] h = ground (arith, eq_key_refl k)
remove-append k (x ∷ xs) h = ground (arith, remove-append k xs)

pub keep_last-concat :
    (k : PageKey) (ks : List PageKey)
    → keep_last (ks ++ (k ∷ [])) ≡ remove k (keep_last ks) ++ (k ∷ [])
unfolding keep_last mem remove
keep_last-concat k [] = refl
keep_last-concat k (x ∷ ks) = ground (
  arith,
  keep_last-concat k ks,
  mem-append x ks (k ∷ []),
  mem-keep_last k ks,
  eq_key-cases x k,
  remove_absent k (keep_last ks),
)
