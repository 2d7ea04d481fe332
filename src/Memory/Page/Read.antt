-- ===== src/Memory/Page/Read.antt =====
-- `Read` on a page with a known list of records, and the fresh page.
use gopher_db.Base.{
  ℕ, ◌+◌, ◌≡◌, ap, List, [], ◌∷◌, Option, none, some, arith, length, get_elem?, replicate,
  length-replicate, Option-cases, inl, inr, lt_of_get_elem?, le_of_get_elem?, ◌∙◌,
}
use gopher_db.Base.Int.{ℤ, pos, negsuc}
use gopher_db.Base.Outcome.{Outcome, ok, err}
use gopher_db.Bytes.BigEndian.{put_u16, put_u32, be_u16, be_u32}
use gopher_db.Bytes.Copy.{Bytes}
use gopher_db.Bytes.Edits.{Edit, length-apply_edits, slice-apply_edits_hit}
use gopher_db.Memory.Page.Records.{Represents}
use gopher_db.Memory.Page.{
  Error, slot_index, HeapPage, page_size, signature, header_size, read_u16, new_heap_page, read,
}

abbrev pub lookup_result : Option Bytes → Outcome Error Bytes
lookup_result (some r) = ok r
lookup_result none = err slot_index

-- `Read` at a non-negative index is the look-up in the list of records: it gives the record, or the
-- index error past the end, and neither calls the page corrupted nor panics.
pub read-get_elem? :
    (p : HeapPage) {rs : List Bytes} (i : ℕ)
    → Represents p.buf rs
    → read p (pos i) ≡ lookup_result (get_elem? rs i)
unfolding read read_u16
read-get_elem? p {rs} i h = elim (Option-cases (get_elem? rs i)) [
  | inl missing ↦ rw missing (ground (arith, h.signed, h.count_is, le_of_get_elem? rs i missing))
  | inr (r, found) ↦
      let s = h.slots i r found in
      rw found (
        ground (
          arith,
          h,
          s,
          s.bytes_are,
          s.end_le,
          s.offset_ge,
          s.length_is,
          lt_of_get_elem? rs i found,
        ))
]

-- a negative index
pub read_negative :
    (p : HeapPage) {rs : List Bytes} (n : ℕ)
    → Represents p.buf rs
    → read p (negsuc n) ≡ err slot_index
unfolding read
read_negative p n h = ground (arith, h.signed)

abbrev header_edits : List Edit
header_edits =
    (0, put_u32 signature) ∷ (4, put_u16 0) ∷ (6, put_u16 header_size) ∷ (8, put_u16 page_size) ∷ []

abbrev blank : Bytes
blank = replicate page_size 0

-- A new page holds no record.
pub new_heap_page-Represents : (page_id : ℤ) → Represents (new_heap_page page_id).buf []
unfolding new_heap_page
new_heap_page-Represents page_id =
    let len : length blank ≡ page_size = length-replicate page_size 0 in
    record {
      size_is = length-apply_edits header_edits blank ∙ len;
      signed = ap be_u32 (
          slice-apply_edits_hit [] 0 (put_u32 signature)
            ((4, put_u16 0) ∷ (6, put_u16 header_size) ∷ (8, put_u16 page_size) ∷ []) blank
            (omega arith) (omega arith));
      count_is = ap be_u16 (
          slice-apply_edits_hit ((0, put_u32 signature) ∷ []) 4 (put_u16 0)
            ((6, put_u16 header_size) ∷ (8, put_u16 page_size) ∷ []) blank (omega arith)
            (omega arith));
      lower_is = ap be_u16 (
          slice-apply_edits_hit ((0, put_u32 signature) ∷ (4, put_u16 0) ∷ []) 6
            (put_u16 header_size) ((8, put_u16 page_size) ∷ []) blank (omega arith) (omega arith));
      upper_is =
          ap (λ s. be_u16 s + 0)
            (slice-apply_edits_hit
              ((0, put_u32 signature) ∷ (4, put_u16 0) ∷ (6, put_u16 header_size) ∷ []) 8
              (put_u16 page_size) [] blank tt (omega arith));
      room = omega arith;
      slots = λ i r e. cc;
    }
