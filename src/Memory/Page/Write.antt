-- ===== src/Memory/Page/Write.antt =====
-- `Write` on a page with a known list of records: it appends the record while the page has room.
use gopher_db.Base.{
  ℕ, ◌+◌, ◌-◌, ◌*◌, ◌≤◌, ◌<◌, ◌≡◌, refl, ap, ◌∙◌, List, [], ◌∷◌, ◌++◌, none, some, arith, length,
  get_elem?, length-append, inl, inr, get_elem?-concat, lt_of_get_elem?,
}
use gopher_db.Base.Outcome.{ok, err}
use gopher_db.Bytes.BigEndian.{put_u16, be_u16, be_u32, be_u16-put_u16}
use gopher_db.Bytes.Copy.{Bytes, copy_at, slice, length-copy_at}
use gopher_db.Bytes.Edits.{
  Edit, AllFar, apply_edits, length-apply_edits, slice-apply_edits_far, slice-apply_edits_hit,
}
use gopher_db.Memory.Page.Records.{SlotHolds, Represents, total, slot_pos}
use gopher_db.Memory.Page.{
  no_space, nil_data, HeapPage, page_size, header_size, slot_size, short_size, u16_at, write,
}

pub total-concat : (rs : List Bytes) (d : Bytes) → total (rs ++ (d ∷ [])) ≡ total rs + length d
total-concat [] d = omega arith
total-concat (r ∷ rs) d = omega (arith, total-concat rs d)

-- The record fits behind those that the page holds.
abbrev pub HasRoom : List Bytes → Bytes → Type 0
HasRoom rs d = header_size + (length rs + 1) * slot_size + total rs + length d ≤ page_size

module _ (p : HeapPage) (rs : List Bytes) (d : Bytes) (h : Represents p.buf rs)
    (fits : HasRoom rs d) where
  new_upper : ℕ
  new_upper = u16_at p.buf 8 - length d

  abbrev slot_edits : List Edit
  slot_edits =
      (new_upper, d)
      ∷ (slot_pos (u16_at p.buf 4), put_u16 new_upper)
      ∷ (slot_pos (u16_at p.buf 4) + short_size, put_u16 (length d))
      ∷ []

  abbrev edits : List Edit
  edits =
      slot_edits
      ++ ((4, put_u16 (u16_at p.buf 4 + 1))
          ∷ (6, put_u16 (u16_at p.buf 6 + slot_size))
          ∷ (8, put_u16 new_upper)
          ∷ [])

  abbrev result : HeapPage
  result = record p { buf = apply_edits edits p.buf }

  abbrev stored : Bytes
  stored = copy_at new_upper d p.buf

  abbrev placed : Bytes
  placed = copy_at (slot_pos (u16_at p.buf 4)) (put_u16 new_upper) stored

  abbrev sized : Bytes
  sized = copy_at (slot_pos (u16_at p.buf 4) + short_size) (put_u16 (length d)) placed

  abbrev counted : Bytes
  counted = copy_at 4 (put_u16 (u16_at p.buf 4 + 1)) sized

  abbrev lowered : Bytes
  lowered = copy_at 6 (put_u16 (u16_at p.buf 6 + slot_size)) counted

  write-result : write p (some d) ≡ ok result
  unfolding write new_upper
  write-result = ground (
    arith,
    h.signed,
    h.size_is,
    h.count_is,
    h.lower_is,
    h.upper_is,
    fits,
    length-copy_at new_upper d p.buf,
    length-copy_at (slot_pos (u16_at p.buf 4)) (put_u16 new_upper) stored,
    length-copy_at (slot_pos (u16_at p.buf 4) + short_size) (put_u16 (length d)) placed,
    length-copy_at 4 (put_u16 (u16_at p.buf 4 + 1)) sized,
    length-copy_at 6 (put_u16 (u16_at p.buf 6 + slot_size)) counted,
  )

  -- where the data and its slot go
  upper-eq : new_upper + length d ≡ u16_at p.buf 8
  unfolding new_upper
  upper-eq = omega (arith, h.upper_is, fits)

  upper-ge : slot_pos (u16_at p.buf 4) + slot_size ≤ new_upper
  unfolding new_upper
  upper-ge = omega (arith, h.upper_is, h.count_is, fits)

  upper-lt : new_upper < 65536
  unfolding new_upper
  upper-lt = omega (arith, h.upper_is)

  -- a 16-bit field that no edit touches
  far : (at n : ℕ) → AllFar at n edits → slice at n result.buf ≡ slice at n p.buf
  far at n a = slice-apply_edits_far at n edits p.buf a

  hit :
      (before : List Edit) (at v : ℕ) (after : List Edit)
      → v < 65536
      → AllFar at 2 after
      → at + 2 ≤ page_size
      → u16_at (apply_edits (before ++ ((at, put_u16 v) ∷ after)) p.buf) at ≡ v
  hit before at v after small a at_fits =
      ap be_u16
        (slice-apply_edits_hit before at (put_u16 v) after p.buf a (omega (arith, h.size_is)))
      ∙ be_u16-put_u16 v [] small

  old_slot : (i : ℕ) (r : Bytes) → i < length rs → SlotHolds p.buf i r → SlotHolds result.buf i r
  old_slot i r lt s = record {
    offset_ge = rw offset (rw upper (omega (arith, upper-eq, s.offset_ge)));
    end_le = rw offset s.end_le;
    length_is =
        ap be_u16 (far (slot_pos i + short_size) 2 (omega (arith, below, upper-ge))) ∙ s.length_is;
    bytes_are = rw offset (
        far (u16_at p.buf (slot_pos i)) (length r) (omega (arith, upper-eq, s.offset_ge, upper-ge))
        ∙ s.bytes_are);
  }
    where
      below : slot_pos i + slot_size ≤ slot_pos (u16_at p.buf 4)
      below = omega (arith, h.count_is)

      offset : u16_at result.buf (slot_pos i) ≡ u16_at p.buf (slot_pos i)
      offset = ap be_u16 (far (slot_pos i) 2 (omega (arith, below, upper-ge)))

      upper : u16_at result.buf 8 ≡ new_upper
      upper =
          hit
            (slot_edits
              ++ ((4, put_u16 (u16_at p.buf 4 + 1))
                  ∷ (6, put_u16 (u16_at p.buf 6 + slot_size))
                  ∷ []))
            8 new_upper [] upper-lt tt (omega arith)

  count : u16_at result.buf 4 ≡ length rs + 1
  count =
      hit slot_edits 4 (u16_at p.buf 4 + 1)
        ((6, put_u16 (u16_at p.buf 6 + slot_size)) ∷ (8, put_u16 new_upper) ∷ [])
        (omega (arith, h.count_is, fits)) (omega arith) (omega arith)
      ∙ omega (arith, h.count_is)

  lower : u16_at result.buf 6 ≡ header_size + (length rs + 1) * slot_size
  lower =
      hit (slot_edits ++ ((4, put_u16 (u16_at p.buf 4 + 1)) ∷ [])) 6 (u16_at p.buf 6 + slot_size)
        ((8, put_u16 new_upper) ∷ []) (omega (arith, h.lower_is, fits)) (omega arith) (omega arith)
      ∙ omega (arith, h.lower_is)

  upper : u16_at result.buf 8 ≡ new_upper
  upper =
      hit
        (slot_edits
          ++ ((4, put_u16 (u16_at p.buf 4 + 1)) ∷ (6, put_u16 (u16_at p.buf 6 + slot_size)) ∷ []))
        8 new_upper [] upper-lt tt (omega arith)

  new_slot : SlotHolds result.buf (length rs) d
  new_slot = record {
    offset_ge = rw (offset, upper) (omega arith);
    end_le = rw offset (omega (arith, upper-eq, h.upper_is));
    length_is = rw (← h.count_is) (
        hit ((new_upper, d) ∷ (slot_pos (u16_at p.buf 4), put_u16 new_upper) ∷ [])
          (slot_pos (u16_at p.buf 4) + short_size) (length d)
          ((4, put_u16 (u16_at p.buf 4 + 1))
            ∷ (6, put_u16 (u16_at p.buf 6 + slot_size))
            ∷ (8, put_u16 new_upper)
            ∷ [])
          (omega (arith, fits)) (omega arith) (omega (arith, h.count_is, fits)));
    bytes_are = rw offset (
        slice-apply_edits_hit [] new_upper d
          ((slot_pos (u16_at p.buf 4), put_u16 new_upper)
            ∷ (slot_pos (u16_at p.buf 4) + short_size, put_u16 (length d))
            ∷ (4, put_u16 (u16_at p.buf 4 + 1))
            ∷ (6, put_u16 (u16_at p.buf 6 + slot_size))
            ∷ (8, put_u16 new_upper)
            ∷ [])
          p.buf (omega (arith, upper-ge)) (omega (arith, upper-eq, h.upper_is, h.size_is)));
  }
    where
      offset : u16_at result.buf (slot_pos (length rs)) ≡ new_upper
      offset = rw (← h.count_is) (
          hit ((new_upper, d) ∷ []) (slot_pos (u16_at p.buf 4)) new_upper
            ((slot_pos (u16_at p.buf 4) + short_size, put_u16 (length d))
              ∷ (4, put_u16 (u16_at p.buf 4 + 1))
              ∷ (6, put_u16 (u16_at p.buf 6 + slot_size))
              ∷ (8, put_u16 new_upper)
              ∷ [])
            upper-lt (omega arith) (omega (arith, h.count_is, fits)))

  all_slots : (i : ℕ) (r : Bytes) → get_elem? (rs ++ (d ∷ [])) i ≡ some r → SlotHolds result.buf i r
  all_slots i r e = elim (get_elem?-concat rs d i e) [
    | inl found ↦ old_slot i r (lt_of_get_elem? rs i found) (h.slots i r found)
    | inr (at, same) ↦ rw (at, ← same) new_slot
  ]

  result-Represents : Represents result.buf (rs ++ (d ∷ []))
  result-Represents = record {
    size_is = length-apply_edits edits p.buf ∙ h.size_is;
    signed = ap be_u32 (far 0 4 (omega (arith, upper-ge))) ∙ h.signed;
    count_is = omega (arith, count, length-append rs (d ∷ []));
    lower_is = omega (arith, lower, length-append rs (d ∷ []));
    upper_is = omega (arith, upper, upper-eq, h.upper_is, total-concat rs d);
    room = omega (arith, fits, total-concat rs d, length-append rs (d ∷ []));
    slots = all_slots;
  }

-- On a page that holds the records `rs`, writing a record for which there is room succeeds, and the new
-- page, with the same page number, holds `rs` and then that record: the slot count grows by one,
-- the new slot reads back as the record and no other slot changes.
pub write-Represents :
    (p : HeapPage) (rs : List Bytes) (d : Bytes)
    → Represents p.buf rs
    → HasRoom rs d
    → (p' : HeapPage) × (write p (some d) ≡ ok p')
      × (p'.page_id ≡ p.page_id)
      × Represents p'.buf (rs ++ (d ∷ []))
write-Represents p rs d h fits =
    (result p rs d h fits, write-result p rs d h fits, refl, result-Represents p rs d h fits)

-- Writing a record for which the page has no room is refused with that error, and a nil record with its own.
pub write-HasRoom :
    (p : HeapPage) (rs : List Bytes)
    → Represents p.buf rs
    → ((d : Bytes) → ¬ HasRoom rs d → write p (some d) ≡ err no_space)
      × (write p none ≡ err nil_data)
unfolding write
write-HasRoom p rs h =
    (λ d full. ground (arith, h.signed, h.lower_is, h.upper_is, h.room), ground (arith, h.signed))
