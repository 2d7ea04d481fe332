-- ===== src/Memory/Page.antt =====
-- `internal/core/memory/page/heap_page.go`: a slotted page in one buffer. The header holds the
-- signature, the slot count and the two bounds; slots grow up from the header, data grows down from
-- the end. A method that changes the page returns the new page.
pub mod Records
pub mod Write
pub mod Read
use gopher_db.Base.{
  ℕ, ◌+◌, ◌-◌, ◌*◌, Bool, not, ◌||◌, Option, none, some, arith, length, drop, replicate, ltb, leb,
  ◌==◌, if◌then◌else◌,
}
use gopher_db.Base.Int.{ℤ, pos, negsuc}
use gopher_db.Base.Outcome.{Outcome, ok, err, panic, ◌>>=◌}
use gopher_db.Bytes.BigEndian.{put_u16, put_u32, be_u16, be_u32}
use gopher_db.Bytes.Copy.{Bytes, copy_at, slice}

pub data Error : Type 0 where
  nil_buffer bad_buffer_size invalid_signature : Error
  slot_index corrupted_page nil_data no_space : Error

abbrev pub page_size : ℕ
page_size = 8 * 1024

abbrev pub signature : ℕ
signature = 0x00db_db01

abbrev pub header_size : ℕ
header_size = 10

abbrev pub slot_size : ℕ
slot_size = 4

abbrev pub signature_off : ℕ
signature_off = 0

abbrev pub slot_count_off : ℕ
slot_count_off = 4

abbrev pub lower_bound_off : ℕ
lower_bound_off = 6

abbrev pub upper_bound_off : ℕ
upper_bound_off = 8

abbrev pub short_size : ℕ
short_size = 2

pub record HeapPage : Type 0 where
  pub page_id : ℤ
  pub buf : Bytes

-- `readU32` and `readU16` at the header's positions, which lie in every buffer of a page
abbrev pub u32_at : Bytes → ℕ → ℕ
u32_at buf at = be_u32 (slice at 4 buf)

abbrev pub u16_at : Bytes → ℕ → ℕ
u16_at buf at = be_u16 (slice at 2 buf)

-- `readU16` at a computed position
unfoldable pub read_u16 : Bytes → ℕ → Outcome Error ℕ
read_u16 buf at = if leb (at + 2) (length buf) then ok (u16_at buf at) else panic

-- `writeU16`, which cuts the value to 16 bits
unfoldable pub write_u16 : ℕ → ℕ → Bytes → Outcome Error Bytes
write_u16 at v buf = if leb (at + 2) (length buf) then ok (copy_at at (put_u16 v) buf) else panic

-- `initHeaders`
unfoldable pub init_headers : Bytes → Bytes
init_headers buf =
    let signed = copy_at signature_off (put_u32 signature) buf in
    let counted = copy_at slot_count_off (put_u16 0) signed in
    let lowered = copy_at lower_bound_off (put_u16 header_size) counted in
    copy_at upper_bound_off (put_u16 page_size) lowered

unfoldable pub new_heap_page : ℤ → HeapPage
unfolding init_headers
new_heap_page page_id = record { page_id = page_id; buf = init_headers (replicate page_size 0) }

unfoldable pub is_valid : HeapPage → Bool
is_valid p = u32_at p.buf signature_off == signature

-- `none` is the nil slice.
unfoldable pub new_heap_page_from_buffer : ℤ → Option Bytes → Outcome Error HeapPage
unfolding is_valid
new_heap_page_from_buffer page_id none = err nil_buffer
new_heap_page_from_buffer page_id (some buffer) =
    if not (length buffer == page_size)
    then err bad_buffer_size
    else let p : HeapPage = record { page_id = page_id; buf = buffer } in
      if not (is_valid p) then err invalid_signature else ok p

abbrev pub size : HeapPage → ℕ
size p = u16_at p.buf slot_count_off

-- the end of `Read`, with the slot's two fields read
read_payload : Bytes → ℕ → ℕ → Outcome Error Bytes
read_payload buf offset len =
    if ltb page_size (offset + len) || ltb offset (u16_at buf upper_bound_off)
    then err corrupted_page
    else ok (slice offset len buf)

-- `Read`, with the index's sign taken apart
read_slot : HeapPage → ℤ → Outcome Error Bytes
unfolding read_payload read_u16
read_slot p (negsuc _) = err slot_index
read_slot p (pos index) = if leb (u16_at p.buf slot_count_off) index then err slot_index else do
  let slot_pos = header_size + index * slot_size
  offset ← read_u16 p.buf slot_pos
  len ← read_u16 p.buf (slot_pos + short_size)
  read_payload p.buf offset len

unfoldable pub read : HeapPage → ℤ → Outcome Error Bytes
unfolding read_slot is_valid
read p index = if not (is_valid p) then err invalid_signature else read_slot p index

-- `Write` behind its tests. The copy of the data panics if the upper bound is no bound.
write_record : HeapPage → Bytes → Outcome Error HeapPage
unfolding write_u16
write_record p bytes =
    let slot_count = u16_at p.buf slot_count_off in
    let lower = u16_at p.buf lower_bound_off in
    let upper = u16_at p.buf upper_bound_off in
    let new_upper = upper - length bytes in
    let slot_pos = header_size + slot_count * slot_size in
    do
      stored ← if leb upper (length p.buf) then ok (copy_at new_upper bytes p.buf) else panic
      placed ← write_u16 slot_pos new_upper stored
      sized ← write_u16 (slot_pos + short_size) (length bytes) placed
      counted ← write_u16 slot_count_off (slot_count + 1) sized
      lowered ← write_u16 lower_bound_off (lower + slot_size) counted
      final ← write_u16 upper_bound_off new_upper lowered
      ok (record p { buf = final })

-- `Write`; `none` is the nil slice. `required > upper - lower` is taken over the integers.
unfoldable pub write : HeapPage → Option Bytes → Outcome Error HeapPage
unfolding write_record is_valid
write p data' = if not (is_valid p) then err invalid_signature else elim data' [
  | none ↦ err nil_data
  | some bytes ↦
      if ltb (u16_at p.buf upper_bound_off)
        (u16_at p.buf lower_bound_off + (slot_size + length bytes))
      then err no_space
      else write_record p bytes
]
