-- ===== src/Memory/Slot.antt =====
-- `internal/core/memory/model/page_key.go` and `buffer_slot.go`.
use gopher_db.Base.{ℕ, ◌+◌, ◌≡◌, sym, Bool, true, false, ◌&&◌, arith, Bool-cases, inl, inr, ◌⊎◌}
use gopher_db.Base.Int.{ℤ, pos, negsuc, eq_ℤ}
use gopher_db.Bytes.Compare.{eq_bytes, eq_bytes_refl, eq_bytes_sound}
use gopher_db.Bytes.Copy.{Bytes}
use gopher_db.Memory.Page.{HeapPage}

pub record PageKey : Type 0 where
  pub file_id : Bytes
  pub page_id : ℤ

-- Go's `==` on the struct
unfoldable pub eq_key : PageKey → PageKey → Bool
eq_key a b = eq_bytes a.file_id b.file_id && eq_ℤ a.page_id b.page_id

pub record BufferSlot : Type 0 where
  pub key : PageKey
  pub page : HeapPage
  pub dirty : Bool
  pub pinned : Bool
  pub usage_count : ℕ

abbrev pub new_buffer_slot : PageKey → HeapPage → BufferSlot
new_buffer_slot k p = record { key = k; page = p; dirty = false; pinned = false; usage_count = 0 }

abbrev pub set_page : BufferSlot → HeapPage → BufferSlot
set_page s p = record s { page = p }

abbrev pub set_dirty : BufferSlot → Bool → BufferSlot
set_dirty s v = record s { dirty = v }

abbrev pub set_pinned : BufferSlot → Bool → BufferSlot
set_pinned s v = record s { pinned = v }

abbrev pub increment_usage : BufferSlot → BufferSlot
increment_usage s = record s { usage_count = s.usage_count + 1 }

pub eq_key_refl : (a : PageKey) → eq_key a a ≡ true
unfolding eq_key
eq_key_refl a = elim (Bool-cases (eq_ℤ a.page_id a.page_id)) [
  | inl e ↦ rw (eq_bytes_refl a.file_id, e)
  | inr n ↦ absurd (eq_ℤ_refl a.page_id n)
]
  where
    eq_ℤ_refl : (z : ℤ) → ¬ (eq_ℤ z z ≡ false)
    eq_ℤ_refl (pos n) = ground arith
    eq_ℤ_refl (negsuc n) = ground arith

eq_ℤ-sound : (a b : ℤ) → eq_ℤ a b ≡ true → a ≡ b
eq_ℤ-sound (pos a) (pos b) h = ground arith
eq_ℤ-sound (negsuc a) (negsuc b) h = ground arith
eq_ℤ-sound (pos a) (negsuc b) h = cc
eq_ℤ-sound (negsuc a) (pos b) h = cc

pub eq_key_sound : (a b : PageKey) → eq_key a b ≡ true → a ≡ b
unfolding eq_key
eq_key_sound a b h =
    ground (arith, eq_bytes_sound a.file_id b.file_id, eq_ℤ-sound a.page_id b.page_id)

-- Two keys are the same key, or the test tells them apart both ways round.
pub eq_key-cases :
    (a b : PageKey)
    → ((a ≡ b) × (eq_key a b ≡ true)) ⊎ ((eq_key a b ≡ false) × (eq_key b a ≡ false))
eq_key-cases a b = elim (Bool-cases (eq_key a b)) [
  | inl e ↦ inl (eq_key_sound a b e, e)
  | inr n ↦ elim (Bool-cases (eq_key b a)) [
    | inl e ↦ let same = eq_key_sound b a e in inl (sym same, rw same (eq_key_refl a))
    | inr m ↦ inr (n, m)
  ]
]
