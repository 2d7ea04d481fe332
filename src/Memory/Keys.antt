-- ===== src/Memory/Keys.antt =====
-- Lists of page keys as the keys of a Go map or the elements of a list: membership and removal.
use gopher_db.Base.{
  ℕ, zero, suc, ◌+◌, ◌<◌, ◌≡◌, refl, Bool, true, false, not, ◌&&◌, ◌||◌, List, [], ◌∷◌, ◌++◌, some,
  arith, length, get_elem?, if◌then◌else◌,
}
use gopher_db.Memory.Slot.{PageKey, eq_key, eq_key-cases, eq_key_refl}

unfoldable pub mem : PageKey → List PageKey → Bool
mem k [] = false
mem k (x ∷ xs) = eq_key x k || mem k xs

unfoldable pub remove : PageKey → List PageKey → List PageKey
remove k [] = []
remove k (x ∷ xs) = if eq_key x k then xs else x ∷ remove k xs

-- adding a key to a map that is used as a set
unfoldable pub add : PageKey → List PageKey → List PageKey
add k xs = if mem k xs then xs else k ∷ xs

-- `copy(l[i:], l[i+1:]); l = l[:len(l)-1]`
unfoldable pub remove_at : ℕ → List PageKey → List PageKey
remove_at i [] = []
remove_at zero (x ∷ xs) = xs
remove_at (suc i) (x ∷ xs) = x ∷ remove_at i xs

-- the first position of a key, or the length
unfoldable pub index_of : PageKey → List PageKey → ℕ
index_of k [] = 0
index_of k (x ∷ xs) = if eq_key x k then 0 else suc (index_of k xs)

abbrev pub Distinct : List PageKey → Type 0
Distinct [] = Unit {0}
Distinct (x ∷ xs) = (mem x xs ≡ false) × Distinct xs

pub mem-append : (k : PageKey) (xs ys : List PageKey) → mem k (xs ++ ys) ≡ (mem k xs || mem k ys)
unfolding mem
mem-append k [] ys = refl
mem-append k (x ∷ xs) ys = ground (arith, mem-append k xs ys)

mem_of_mem-remove :
    (j k : PageKey) (xs : List PageKey) → mem j xs ≡ false → mem j (remove k xs) ≡ false
unfolding mem remove
mem_of_mem-remove j k [] h = refl
mem_of_mem-remove j k (x ∷ xs) h = ground (arith, mem_of_mem-remove j k xs)

pub Distinct-remove : (k : PageKey) (xs : List PageKey) → Distinct xs → Distinct (remove k xs)
unfolding remove
Distinct-remove k [] d = tt
Distinct-remove k (x ∷ xs) d =
    ground (arith, Distinct-remove k xs d.1, mem_of_mem-remove x k xs d.0)

pub mem-remove :
    (j k : PageKey) (xs : List PageKey)
    → Distinct xs
    → mem j (remove k xs) ≡ (not (eq_key k j) && mem j xs)
unfolding mem remove
mem-remove j k [] d = ground arith
mem-remove j k (x ∷ xs) d =
    ground (arith, mem-remove j k xs d.1, eq_key-cases x k, eq_key-cases k j, eq_key-cases x j, d.0)

pub remove_absent : (k : PageKey) (xs : List PageKey) → mem k xs ≡ false → remove k xs ≡ xs
unfolding mem remove
remove_absent k [] h = refl
remove_absent k (x ∷ xs) h = ground (arith, remove_absent k xs)

pub length-remove :
    (k : PageKey) (xs : List PageKey) → mem k xs ≡ true → length (remove k xs) + 1 ≡ length xs
unfolding mem remove
length-remove k [] h = cc
length-remove k (x ∷ xs) h = ground (arith, length-remove k xs)

pub Distinct-concat :
    (k : PageKey) (xs : List PageKey) → mem k xs ≡ false → Distinct xs → Distinct (xs ++ (k ∷ []))
unfolding mem
Distinct-concat k [] h d = (refl, tt)
Distinct-concat k (x ∷ xs) h d =
    ground (arith, Distinct-concat k xs, mem-append x xs (k ∷ []), d.0, eq_key-cases x k)

pub Distinct-add : (k : PageKey) (xs : List PageKey) → Distinct xs → Distinct (add k xs)
unfolding add
Distinct-add k xs d = ground arith

pub mem-add : (j k : PageKey) (xs : List PageKey) → mem j (add k xs) ≡ (eq_key k j || mem j xs)
unfolding add mem
mem-add j k xs = ground (arith, eq_key-cases k j)

pub mem_of_get_elem? :
    (ys : List PageKey) (j : ℕ) (y : PageKey) → get_elem? ys j ≡ some y → mem y ys ≡ true
unfolding mem
mem_of_get_elem? [] j y e = cc
mem_of_get_elem? (z ∷ ys) zero y e = ground (arith, eq_key_refl z)
mem_of_get_elem? (z ∷ ys) (suc j) y e = ground (arith, mem_of_get_elem? ys j y e)

pub remove_at-remove :
    (i : ℕ) (k : PageKey) (xs : List PageKey)
    → get_elem? xs i ≡ some k
    → Distinct xs
    → remove_at i xs ≡ remove k xs
unfolding remove_at remove mem
remove_at-remove i k [] h d = cc
remove_at-remove zero k (x ∷ xs) h d = ground (arith, eq_key_refl x)
remove_at-remove (suc i) k (x ∷ xs) h d =
    ground (arith, remove_at-remove i k xs h d.1, mem_of_get_elem? xs i k h, eq_key-cases x k, d.0)

pub index_of-remove :
    (k : PageKey) (xs : List PageKey) → mem k xs ≡ true → remove_at (index_of k xs) xs ≡ remove k xs
unfolding remove_at index_of remove mem
index_of-remove k [] h = cc
index_of-remove k (x ∷ xs) h = ground (arith, index_of-remove k xs)

pub index_of-lt : (k : PageKey) (xs : List PageKey) → mem k xs ≡ true → index_of k xs < length xs
unfolding index_of mem
index_of-lt k [] h = cc
index_of-lt k (x ∷ xs) h = ground (arith, index_of-lt k xs)
