-- ===== src/Bytes/Copy.antt =====
-- `copy(buf[p:], data)` and reading back: a copy changes the bytes that it covers and no others.
use gopher_db.Base.{
  ℕ, zero, suc, ◌+◌, ◌≤◌, ◌≡◌, refl, ap, List, [], ◌∷◌, ◌++◌, arith, length, take, drop, flatten,
  length-append, length-take, length-drop, take-append-drop, append_assoc, sym, ◌∙◌, replicate,
  length-replicate, get_elem?, some,
}

abbrev pub Bytes : Type 0
Bytes = List ℕ

-- `copy(buf[p:], data)`: it stops at the end of `buf`, and never changes its length.
unfoldable pub copy_at : ℕ → Bytes → Bytes → Bytes
copy_at zero [] buf = buf
copy_at zero (d ∷ ds) [] = []
copy_at zero (d ∷ ds) (b ∷ bs) = d ∷ copy_at zero ds bs
copy_at (suc p) ds [] = []
copy_at (suc p) ds (b ∷ bs) = b ∷ copy_at p ds bs

-- `buf[p : p+n]`, where that is in range
abbrev pub slice : ℕ → ℕ → Bytes → Bytes
slice p n buf = take n (drop p buf)

pub length-copy_at : (p : ℕ) (ds buf : Bytes) → length (copy_at p ds buf) ≡ length buf
unfolding copy_at
length-copy_at zero [] buf = refl
length-copy_at zero (d ∷ ds) [] = refl
length-copy_at zero (d ∷ ds) (b ∷ bs) = ap suc (length-copy_at zero ds bs)
length-copy_at (suc p) ds [] = refl
length-copy_at (suc p) ds (b ∷ bs) = ap suc (length-copy_at p ds bs)

pub length-slice : (p n : ℕ) (buf : Bytes) → p + n ≤ length buf → length (slice p n buf) ≡ n
length-slice zero zero buf h = refl
length-slice zero (suc n) [] h = absurd (omega arith)
length-slice zero (suc n) (b ∷ bs) h = ap suc (length-slice zero n bs (omega arith))
length-slice (suc p) zero [] h = refl
length-slice (suc p) (suc n) [] h = absurd (omega arith)
length-slice (suc p) n (b ∷ bs) h = length-slice p n bs (omega arith)

pub slice-copy_at_self :
    (p : ℕ) (ds buf : Bytes)
    → p + length ds ≤ length buf
    → slice p (length ds) (copy_at p ds buf) ≡ ds
unfolding copy_at
slice-copy_at_self zero [] buf h = refl
slice-copy_at_self zero (d ∷ ds) [] h = absurd (omega arith)
slice-copy_at_self zero (d ∷ ds) (b ∷ bs) h =
    ap (◌∷◌ d) (slice-copy_at_self zero ds bs (omega arith))
slice-copy_at_self (suc p) ds [] h = absurd (omega arith)
slice-copy_at_self (suc p) ds (b ∷ bs) h = slice-copy_at_self p ds bs (omega arith)

-- the bytes before the copy
pub slice-copy_at_before :
    (q n p : ℕ) (ds buf : Bytes) → q + n ≤ p → slice q n (copy_at p ds buf) ≡ slice q n buf
unfolding copy_at
slice-copy_at_before q n zero [] buf h = refl
slice-copy_at_before zero zero p ds buf h = refl
slice-copy_at_before zero (suc n) zero ds buf h = absurd (omega arith)
slice-copy_at_before (suc q) n zero ds buf h = absurd (omega arith)
slice-copy_at_before q n (suc p) ds [] h = refl
slice-copy_at_before zero (suc n) (suc p) ds (b ∷ bs) h =
    ap (◌∷◌ b) (slice-copy_at_before zero n p ds bs (omega arith))
slice-copy_at_before (suc q) n (suc p) ds (b ∷ bs) h =
    slice-copy_at_before q n p ds bs (omega arith)

-- the bytes behind the copy
pub slice-copy_at_after :
    (q n p : ℕ) (ds buf : Bytes) → p + length ds ≤ q → slice q n (copy_at p ds buf) ≡ slice q n buf
unfolding copy_at
slice-copy_at_after q n zero [] buf h = refl
slice-copy_at_after q n zero (d ∷ ds) [] h = refl
slice-copy_at_after zero n zero (d ∷ ds) (b ∷ bs) h = absurd (omega arith)
slice-copy_at_after (suc q) n zero (d ∷ ds) (b ∷ bs) h =
    slice-copy_at_after q n zero ds bs (omega arith)
slice-copy_at_after q n (suc p) ds [] h = refl
slice-copy_at_after zero n (suc p) ds (b ∷ bs) h = absurd (omega arith)
slice-copy_at_after (suc q) n (suc p) ds (b ∷ bs) h = slice-copy_at_after q n p ds bs (omega arith)

-- Successive copies from offset `off` on, each behind the one before: `offset += len(piece)`.
unfoldable pub fill : ℕ → List Bytes → Bytes → Bytes
fill off [] buf = buf
fill off (d ∷ ds) buf = fill (off + length d) ds (copy_at off d buf)

copy_at-append :
    (pre d mid rest : Bytes)
    → length d ≡ length mid
    → copy_at (length pre) d (pre ++ (mid ++ rest)) ≡ pre ++ (d ++ rest)
unfolding copy_at
copy_at-append (x ∷ pre) d mid rest h = ap (◌∷◌ x) (copy_at-append pre d mid rest h)
copy_at-append [] [] [] rest h = refl
copy_at-append [] [] (m ∷ mid) rest h = absurd (omega arith)
copy_at-append [] (d ∷ ds) [] rest h = absurd (omega arith)
copy_at-append [] (d ∷ ds) (m ∷ mid) rest h =
    ap (◌∷◌ d) (copy_at-append [] ds mid rest (omega arith))

fill-append :
    (ds : List Bytes) (pre buf : Bytes)
    → length buf ≡ length (flatten ds)
    → fill (length pre) ds (pre ++ buf) ≡ pre ++ flatten ds
unfolding fill
fill-append [] pre [] h = refl
fill-append [] pre (b ∷ bs) h = absurd (omega arith)
fill-append (d ∷ ds) pre buf h =
    let n = length d in
    let total = length-append d (flatten ds) in
    let cut : length d ≡ length (take n buf) = omega (arith, length-take n buf, total) in
    let rest : length (drop n buf) ≡ length (flatten ds) =
      omega (arith, length-drop n buf, total) in
    ap (λ b. fill (length pre + n) ds (copy_at (length pre) d (pre ++ b)))
      (sym (take-append-drop n buf))
    ∙ ap (fill (length pre + n) ds) (copy_at-append pre d (take n buf) (drop n buf) cut)
    ∙ rw (← append_assoc pre d (drop n buf), ← length-append pre d)
        (fill-append ds (pre ++ d) (drop n buf) rest)
    ∙ append_assoc pre d (flatten ds)

-- Successive copies into a fresh buffer of the right size leave exactly the pieces in order.
pub fill-flatten :
    (ds : List Bytes) (n : ℕ) → n ≡ length (flatten ds) → fill 0 ds (replicate n 0) ≡ flatten ds
fill-flatten ds n h = fill-append ds [] (replicate n 0) (length-replicate n 0 ∙ h)

-- pieces that are put into the middle of a buffer
pub fill-inside :
    (ds : List Bytes) (pre mid rest : Bytes)
    → length mid ≡ length (flatten ds)
    → fill (length pre) ds (pre ++ (mid ++ rest)) ≡ pre ++ (flatten ds ++ rest)
unfolding fill
fill-inside [] pre [] rest h = refl
fill-inside [] pre (b ∷ bs) rest h = absurd (omega arith)
fill-inside (d ∷ ds) pre mid rest h =
    let n = length d in
    let total = length-append d (flatten ds) in
    let mid' = drop n mid in
    let cut : n ≡ length (take n mid) = omega (arith, length-take n mid, total) in
    let left : length mid' ≡ length (flatten ds) = omega (arith, length-drop n mid, total) in
    ap (λ b. fill (length pre + n) ds (copy_at (length pre) d (pre ++ b)))
      (ap (λ b. b ++ rest) (sym (take-append-drop n mid)) ∙ append_assoc (take n mid) mid' rest)
    ∙ ap (fill (length pre + n) ds) (copy_at-append pre d (take n mid) (mid' ++ rest) cut)
    ∙ ap (fill (length pre + n) ds) (sym (append_assoc pre d (mid' ++ rest)))
    ∙ ap (λ k. fill k ds ((pre ++ d) ++ (mid' ++ rest))) (sym (length-append pre d))
    ∙ fill-inside ds (pre ++ d) mid' rest left
    ∙ append_assoc pre d (flatten ds ++ rest)
    ∙ ap (λ b. pre ++ b) (sym (append_assoc d (flatten ds) rest))

-- the same, with what stands around them cut out of the buffer
pub fill-window :
    (ds : List Bytes) (p : ℕ) (buf : Bytes)
    → p + length (flatten ds) ≤ length buf
    → fill p ds buf ≡ take p buf ++ (flatten ds ++ drop (length (flatten ds)) (drop p buf))
fill-window ds p buf h =
    let enc = flatten ds in
    let at_p : length (take p buf) ≡ p = omega (arith, length-take p buf) in
    let mid_length : length (take (length enc) (drop p buf)) ≡ length enc =
      omega (arith, length-take (length enc) (drop p buf), length-drop p buf) in
    ap (fill p ds) (
      sym (take-append-drop p buf)
      ∙ ap (λ more. take p buf ++ more) (sym (take-append-drop (length enc) (drop p buf))))
    ∙ ap
        (λ k.
          fill k ds
            (take p buf ++ (take (length enc) (drop p buf) ++ drop (length enc) (drop p buf))))
        (sym at_p)
    ∙ fill-inside ds (take p buf) (take (length enc) (drop p buf)) (drop (length enc) (drop p buf))
        mid_length

pub length-fill : (p : ℕ) (ds : List Bytes) (buf : Bytes) → length (fill p ds buf) ≡ length buf
unfolding fill
length-fill p [] buf = refl
length-fill p (d ∷ ds) buf =
    length-fill (p + length d) ds (copy_at p d buf) ∙ length-copy_at p d buf

pub get_elem?-copy_at :
    (p d : ℕ) (buf : Bytes) → suc p ≤ length buf → get_elem? (copy_at p (d ∷ []) buf) p ≡ some d
unfolding copy_at
get_elem?-copy_at zero d [] h = absurd (omega arith)
get_elem?-copy_at zero d (b ∷ bs) h = refl
get_elem?-copy_at (suc p) d [] h = absurd (omega arith)
get_elem?-copy_at (suc p) d (b ∷ bs) h = get_elem?-copy_at p d bs (omega arith)
