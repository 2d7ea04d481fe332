-- ===== src/Memory/Replacer.antt =====
-- `internal/core/memory/replacer/replacer.go`: the interface that the buffer pool calls. A replacer keeps
-- pointers to slots; the pool has one slot for a key, so a slot is named by its key here, and `Push`
-- is given the slot's key and its pinned flag. `PickVictim` returns `none` for the nil slot.
use gopher_db.Base.{◌≡◌, Bool, true, false, not, ◌&&◌, ◌||◌, Option, none, some}
use gopher_db.Memory.Slot.{PageKey, eq_key}

-- The laws say which keys a replacer holds, `tracks`, after each call, on the states that its own
-- operations reach, `IsValid`.
pub record Replacer : Type 1 where
  pub State : Type 0
  pub IsValid : State → Type 0
  pub tracks : PageKey → State → Bool
  pub push : PageKey → Bool → State → State
  pub delete : PageKey → State → State
  pub pick_victim : State → State × Option PageKey
  pub push-IsValid :
      (k : PageKey) (pinned : Bool) (s : State) → IsValid s → IsValid (push k pinned s)
  pub tracks-push :
      (j k : PageKey) (s : State)
      → IsValid s
      → tracks j (push k false s) ≡ (eq_key k j || tracks j s)
  pub push_pinned : (k : PageKey) (s : State) → push k true s ≡ s
  pub delete-IsValid : (k : PageKey) (s : State) → IsValid s → IsValid (delete k s)
  pub tracks-delete :
      (j k : PageKey) (s : State)
      → IsValid s
      → tracks j (delete k s) ≡ (not (eq_key k j) && tracks j s)
  pub pick_victim-IsValid : (s : State) → IsValid s → IsValid (pick_victim s).0
  pub tracks-victim :
      (k : PageKey) (s : State) → IsValid s → (pick_victim s).1 ≡ some k → tracks k s ≡ true
  pub tracks-pick_victim :
      (j k : PageKey) (s : State)
      → IsValid s
      → (pick_victim s).1 ≡ some k
      → tracks j (pick_victim s).0 ≡ (not (eq_key k j) && tracks j s)
  pub no_victim :
      (j : PageKey) (s : State) → IsValid s → (pick_victim s).1 ≡ none → tracks j s ≡ false
  pub no_victim_state : (s : State) → IsValid s → (pick_victim s).1 ≡ none → (pick_victim s).0 ≡ s
