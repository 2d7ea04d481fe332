-- ===== src/Index/Leaf.antt =====
-- One leaf in `internal/core/index/disk_btree_index.go`: `insertIntoLeaf`, and what `Search` does in the leaf that it finds.
-- `none` is a run-time panic.
use gopher_db.Base.Int.{pos, eq_ℤ}
use gopher_db.Base.{
  ℕ, zero, suc, Bool, true, false, List, [], ◌∷◌, ◌++◌, Option, none, some, get_elem?,
}
use gopher_db.Execution.{◌>>=◌}
use gopher_db.Index.Keys.{KeyKind, compare_keys, lower_bound}
use gopher_db.Index.Node.{Tid, BtreeNode}
use gopher_db.Value.{Value}

-- `append(xs, nil); copy(xs[n+1:], xs[n:]); xs[n] = a`, for `n` up to the length
unfoldable pub insert_at : {A : Type 0} → ℕ → A → List A → List A
insert_at zero a xs = a ∷ xs
insert_at (suc n) a [] = a ∷ []
insert_at (suc n) a (x ∷ xs) = x ∷ insert_at n a xs

-- `values[n] = append(values[n], tid)`
unfoldable pub append_at : ℕ → Tid → List (List Tid) → Option (List (List Tid))
append_at n tid [] = none
append_at zero tid (v ∷ vs) = some ((v ++ tid ∷ []) ∷ vs)
append_at (suc n) tid (v ∷ vs) = append_at n tid vs >>= λ more. some (v ∷ more)

-- `pos < len(keys) && compareKeys(keys[pos], key) == 0`, on what stands at `pos`
abbrev pub matches_key : KeyKind → Value → Option Value → Option Bool
matches_key kind key none = some false
matches_key kind key (some k) = compare_keys kind k key >>= λ sign. some (eq_ℤ sign (pos 0))

abbrev pub with_tid : BtreeNode → Value → Tid → ℕ → Bool → Option BtreeNode
with_tid leaf key tid n true =
    append_at n tid leaf.values >>= λ values. some (record leaf { values = values })
with_tid leaf key tid n false =
    some (record leaf {
      keys = insert_at n key leaf.keys;
      values = insert_at n (tid ∷ []) leaf.values;
    })

unfoldable pub insert_into_leaf : KeyKind → BtreeNode → Value → Tid → Option BtreeNode
insert_into_leaf kind leaf key tid = lower_bound kind leaf.keys key >>= λ n.
    matches_key kind key (get_elem? leaf.keys n) >>= λ found. with_tid leaf key tid n found

abbrev pub tids_at : BtreeNode → ℕ → Bool → Option (List Tid)
tids_at leaf n false = some []
tids_at leaf n true = get_elem? leaf.values n

-- `Search` in the leaf; a nil slice has no tuple
unfoldable pub search_leaf : KeyKind → BtreeNode → Value → Option (List Tid)
search_leaf kind leaf key = lower_bound kind leaf.keys key >>= λ n.
    matches_key kind key (get_elem? leaf.keys n) >>= λ found. tids_at leaf n found
