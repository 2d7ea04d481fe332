-- ===== src/Memory/Page/Records.antt =====
-- The abstract view of a page: the list of the records written to it, in slot order.
use gopher_db.Base.{ℕ, ◌+◌, ◌*◌, ◌≤◌, ◌≡◌, List, [], ◌∷◌, some, length, get_elem?}
use gopher_db.Bytes.Copy.{Bytes, slice}
use gopher_db.Memory.Page.{page_size, signature, header_size, slot_size, short_size, u16_at, u32_at}

-- the bytes that the records take in the data area
abbrev pub total : List Bytes → ℕ
total [] = 0
total (r ∷ rs) = length r + total rs

abbrev pub slot_pos : ℕ → ℕ
slot_pos i = header_size + i * slot_size

-- Slot `i` of the buffer points at the record `r`, inside the data area.
pub record SlotHolds (buf : Bytes) (i : ℕ) (r : Bytes) : Type 0 where
  pub offset_ge : u16_at buf 8 ≤ u16_at buf (slot_pos i)
  pub end_le : u16_at buf (slot_pos i) + length r ≤ page_size
  pub length_is : u16_at buf (slot_pos i + short_size) ≡ length r
  pub bytes_are : slice (u16_at buf (slot_pos i)) (length r) buf ≡ r

pub record Represents (buf : Bytes) (rs : List Bytes) : Type 0 where
  pub size_is : length buf ≡ page_size
  pub signed : u32_at buf 0 ≡ signature
  pub count_is : u16_at buf 4 ≡ length rs
  pub lower_is : u16_at buf 6 ≡ header_size + length rs * slot_size
  pub upper_is : u16_at buf 8 + total rs ≡ page_size
  pub room : header_size + length rs * slot_size + total rs ≤ page_size
  pub slots : (i : ℕ) (r : Bytes) → get_elem? rs i ≡ some r → SlotHolds buf i r
