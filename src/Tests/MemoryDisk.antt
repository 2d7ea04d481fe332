-- ===== src/Tests/MemoryDisk.antt =====
-- A page file manager that keeps the pages in memory, the newest first.
use gopher_db.Base.{
  ◌≡◌, sym, ap, ◌∙◌, Bool, true, ◌&&◌, List, [], ◌∷◌, some, length, ◌==◌, ==_iff, if◌then◌else◌,
  Bool-cases, inl, inr,
}
use gopher_db.Base.Int.{ℤ}
use gopher_db.Base.Outcome.{Outcome, ok, err}
use gopher_db.Bytes.Copy.{Bytes}
use gopher_db.Memory.Disk.{PageFileManager, found}
use gopher_db.Memory.Page.{HeapPage, page_size}
use gopher_db.Memory.Slot.{PageKey, eq_key, eq_key_sound}

abbrev pub Pages : Type 0
Pages = List (Bytes × HeapPage)

pub data DiskError : Type 0 where
  bad_page missing_page : DiskError

abbrev key_of : Bytes × HeapPage → PageKey
key_of (path, p) = record { file_id = path; page_id = p.page_id }

abbrev full : HeapPage → Bool
full p = length p.buf == page_size

unfoldable pub find_page : PageKey → Pages → Outcome DiskError HeapPage
find_page k [] = err missing_page
find_page k (x ∷ d) = if full x.1 && eq_key (key_of x) k then ok x.1 else find_page k d

unfoldable pub write_page : HeapPage → Bytes → Pages → Outcome DiskError Pages
write_page p path d = if full p then ok ((path, p) ∷ d) else err bad_page

value : {A : Type 0} {x y : A} → ◌≡◌ {A = Outcome DiskError A} (ok x) (ok y) → x ≡ y
value e = cc

pub read-write :
    (p : HeapPage) (path : Bytes) (d d' : Pages)
    → Unit {0}
    → length p.buf ≡ page_size
    → write_page p path d ≡ ok d'
    → (k : PageKey)
    → found (find_page k d') ≡ (
        if eq_key (record { file_id = path; page_id = p.page_id }) k
        then some p
        else found (find_page k d))
unfolding find_page write_page
read-write p path d d' _ len w k =
    let fits : full p ≡ true = (==_iff (length p.buf) page_size).1 len in
    let new : ((path, p) ∷ d) ≡ d' = value (rw fits at w) in
    rw (sym new, fits)
      (elim (Bool-cases (eq_key (record { file_id = path; page_id = p.page_id }) k)) [
        | inl e ↦ rw e
        | inr e ↦ rw e
      ])

pub read_sound :
    (id : ℤ) (path : Bytes) (d : Pages) (p : HeapPage)
    → find_page (record { file_id = path; page_id = id }) d ≡ ok p
    → (length p.buf ≡ page_size) × (p.page_id ≡ id)
unfolding find_page
read_sound id path [] p e = cc
read_sound id path (x ∷ d) p e = elim (Bool-cases (full x.1)) [
  | inr n ↦ read_sound id path d p (rw n at e)
  | inl f ↦ elim (Bool-cases (eq_key (key_of x) (record { file_id = path; page_id = id }))) [
    | inr n ↦ read_sound id path d p (rw (f, n) at e)
    | inl g ↦
        let here : x.1 ≡ p = value (rw (f, g) at e) in
        (
          ap (λ (p : HeapPage). length p.buf) (sym here) ∙ (==_iff (length x.1.buf) page_size).0 f,
          ap (λ (p : HeapPage). p.page_id) (sym here)
              ∙ ap (λ (k : PageKey). k.page_id)
                  (eq_key_sound (key_of x) (record { file_id = path; page_id = id }) g),
        )
  ]
]

unfoldable pub memory_disk : PageFileManager
memory_disk = record {
  Disk = Pages;
  Error = DiskError;
  IsValid = λ _. Unit {0};
  write = write_page;
  read = λ id path d. find_page (record { file_id = path; page_id = id }) d;
  write-IsValid = λ p path d d' _ _ _. tt;
  read-write = read-write;
  read_sound = read_sound;
}
