-- ===== src/Bytes/Edits.antt =====
-- A sequence of copies into a buffer, and what a later read sees of it.
use gopher_db.Base.{ℕ, ◌+◌, ◌≤◌, ◌≡◌, refl, ◌∙◌, ◌⊎◌, inl, inr, List, [], ◌∷◌, ◌++◌, arith, length}
use gopher_db.Bytes.Copy.{
  Bytes, copy_at, slice, length-copy_at, slice-copy_at_self, slice-copy_at_before,
  slice-copy_at_after,
}

abbrev pub Edit : Type 0
Edit = ℕ × Bytes

-- the copies in order, the first one first
abbrev pub apply_edits : List Edit → Bytes → Bytes
apply_edits [] buf = buf
apply_edits ((p, ds) ∷ es) buf = apply_edits es (copy_at p ds buf)

-- No edit touches the `n` bytes at `q`.
abbrev pub AllFar : ℕ → ℕ → List Edit → Type 0
AllFar q n [] = Unit {0}
AllFar q n ((p, ds) ∷ es) = ((q + n ≤ p) ⊎ (p + length ds ≤ q)) × AllFar q n es

pub length-apply_edits : (es : List Edit) (buf : Bytes) → length (apply_edits es buf) ≡ length buf
length-apply_edits [] buf = refl
length-apply_edits ((p, ds) ∷ es) buf =
    length-apply_edits es (copy_at p ds buf) ∙ length-copy_at p ds buf

slice-copy_at_far :
    (q n p : ℕ) (ds buf : Bytes)
    → (q + n ≤ p) ⊎ (p + length ds ≤ q)
    → slice q n (copy_at p ds buf) ≡ slice q n buf
slice-copy_at_far q n p ds buf (inl h) = slice-copy_at_before q n p ds buf h
slice-copy_at_far q n p ds buf (inr h) = slice-copy_at_after q n p ds buf h

pub slice-apply_edits_far :
    (q n : ℕ) (es : List Edit) (buf : Bytes)
    → AllFar q n es
    → slice q n (apply_edits es buf) ≡ slice q n buf
slice-apply_edits_far q n [] buf h = refl
slice-apply_edits_far q n ((p, ds) ∷ es) buf (h, hs) =
    slice-apply_edits_far q n es (copy_at p ds buf) hs ∙ slice-copy_at_far q n p ds buf h

-- What one edit wrote is read back if no later edit touches it.
pub slice-apply_edits_hit :
    (before : List Edit) (p : ℕ) (ds : Bytes) (after : List Edit) (buf : Bytes)
    → AllFar p (length ds) after
    → p + length ds ≤ length buf
    → slice p (length ds) (apply_edits (before ++ ((p, ds) ∷ after)) buf) ≡ ds
slice-apply_edits_hit [] p ds after buf far fits =
    slice-apply_edits_far p (length ds) after (copy_at p ds buf) far
    ∙ slice-copy_at_self p ds buf fits
slice-apply_edits_hit ((q, e) ∷ before) p ds after buf far fits =
    slice-apply_edits_hit before p ds after (copy_at q e buf) far
      (omega (arith, length-copy_at q e buf))
