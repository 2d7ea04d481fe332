-- ===== src/Lexer/Bounds.antt =====
-- What a token's offsets, line and column say.
use gopher_db.Base.{
  ℕ, ◌+◌, ◌≤◌, ◌≡◌, refl, sym, ap, subst, ◌∙◌, List, [], ◌∷◌, ◌++◌, some, arith, length, take, ◌==◌,
  if◌then◌else◌, length-append, append_assoc, append-nil, take-length-append,
}
use gopher_db.Base.Outcome.{ok}
use gopher_db.Base.Select.{All}
use gopher_db.Lexer.{Place, advance, eof_at, origin, tokenize}
use gopher_db.Lexer.Cover.{Covers, covers_end, covers_space, covers_token, tokenize-Covers}
use gopher_db.Lexer.Places.{moved, moved-append}
use gopher_db.Lexer.Tokens.{Token}

-- how many lines end in these runes
pub newlines : List ℕ → ℕ
newlines [] = 0
newlines (c ∷ cs) = (if c == 10 then 1 else 0) + newlines cs

-- how many runes stand behind the last end of a line, where `n` stood before
pub column_after : ℕ → List ℕ → ℕ
column_after n [] = n
column_after n (c ∷ cs) = column_after (if c == 10 then 0 else n + 1) cs

moved-pos : (cs : List ℕ) (p : Place) → (moved cs p).pos ≡ p.pos + length cs
unfolding advance
moved-pos [] p = omega arith
moved-pos (c ∷ cs) p = ground (arith, moved-pos cs (advance c p))

moved-line : (cs : List ℕ) (p : Place) → (moved cs p).line ≡ p.line + newlines cs
unfolding advance newlines
moved-line [] p = omega arith
moved-line (c ∷ cs) p = ground (arith, moved-line cs (advance c p))

moved-col :
    (cs : List ℕ) (p : Place) (n : ℕ) → p.col ≡ n + 1 → (moved cs p).col ≡ column_after n cs + 1
unfolding advance column_after
moved-col [] p n h = h
moved-col (c ∷ cs) p n h = moved-col cs (advance c p) (if c == 10 then 0 else n + 1) (ground arith)

-- The token's line and column are those of its first rune, and it ends within the statement.
abbrev pub Placed : List ℕ → Token → Type 0
Placed input t =
    (t.end_offset ≤ length input)
    × (t.line ≡ newlines (take t.start_offset input) + 1)
    × (t.column ≡ column_after 0 (take t.start_offset input) + 1)

-- From `n` on, each token ends where it begins or later, and the next begins there or later.
abbrev pub Ordered : ℕ → List Token → Type 0
Ordered n [] = Unit
Ordered n (t ∷ ts) =
    (n ≤ t.start_offset) × (t.start_offset ≤ t.end_offset) × Ordered t.end_offset ts

Ordered-weaken : (m n : ℕ) (ts : List Token) → m ≤ n → Ordered n ts → Ordered m ts
Ordered-weaken m n [] h o = tt
Ordered-weaken m n (t ∷ ts) h (a, b, o) = (omega arith, b, o)

-- `p` is the place behind the runes `before` of a statement, and `cs` stand behind it
Placed-at :
    (before cs used : List ℕ) (t : Token)
    → t.start_offset ≡ (moved before origin).pos
    → t.end_offset ≡ (moved (before ++ used) origin).pos
    → t.line ≡ (moved before origin).line
    → t.column ≡ (moved before origin).col
    → length used ≤ length cs
    → Placed (before ++ cs) t
Placed-at before cs used t start stop line column h =
    let begins : t.start_offset ≡ length before = omega (arith, start, moved-pos before origin) in
    let taken : take t.start_offset (before ++ cs) ≡ before =
      rw begins (take-length-append before cs) in
    (
      omega (
        arith,
        moved-pos (before ++ used) origin,
        length-append before used,
        length-append before cs,
      ),
      rw taken (omega (arith, line, moved-line before origin)),
      rw taken (omega (arith, column, moved-col before origin 0 refl)),
    )

moved_on :
    (before used : List ℕ) (p : Place)
    → p ≡ moved before origin
    → moved used p ≡ moved (before ++ used) origin
moved_on before used p at = ap (moved used) at ∙ sym (moved-append before used origin)

Covers-Placed :
    (before cs : List ℕ) (p : Place) (ts : List Token)
    → p ≡ moved before origin
    → Covers cs p ts
    → All (Placed (before ++ cs)) ts × Ordered (length before) ts
Covers-Placed before cs p ts at covers_end = (
  (
    Placed-at before [] [] (eof_at p) (ap (λ (q : Place). q.pos) at)
        (rw append-nil (ap (λ (q : Place). q.pos) at)) (ap (λ (q : Place). q.line) at)
        (ap (λ (q : Place). q.col) at) (omega arith),
    tt,
  ),
  (omega (arith, ap (λ (q : Place). q.pos) at, moved-pos before origin), omega arith, tt),
)
Covers-Placed before cs p ts at (covers_space gap rest split blank h) =
    let (placed, ordered) =
      Covers-Placed (before ++ gap) rest (moved gap p) ts (moved_on before gap p at) h in
    (
      subst (λ w. All (Placed w) ts)
          (append_assoc before gap rest ∙ ap (λ xs. before ++ xs) (sym split)) placed,
      Ordered-weaken (length before) (length (before ++ gap)) ts
          (omega (arith, length-append before gap)) ordered,
    )
Covers-Placed before cs p ts at
      (covers_token {ts = later} t c used rest split (start, stop, line, column) h) =
    let taken = c ∷ used in
    let (placed, ordered) =
      Covers-Placed (before ++ taken) rest (moved taken p) later (moved_on before taken p at) h in
    let begins : t.start_offset ≡ length before =
      omega (arith, start, ap (λ (q : Place). q.pos) at, moved-pos before origin) in
    let ends : t.end_offset ≡ length (before ++ taken) =
      omega (arith, stop, begins, start, moved-pos taken p, length-append before taken) in
    (
      (
        Placed-at before cs taken t (start ∙ ap (λ (q : Place). q.pos) at)
            (stop ∙ ap (λ (q : Place). q.pos) (moved_on before taken p at))
            (line ∙ ap (λ (q : Place). q.line) at) (column ∙ ap (λ (q : Place). q.col) at)
            (omega (arith, ap length split, length-append used rest)),
        subst (λ w. All (Placed w) later)
            (append_assoc before taken rest ∙ ap (λ xs. before ++ xs) (sym split)) placed,
      ),
      (
        omega (arith, begins),
        omega (arith, begins, ends, length-append before taken),
        rw ends ordered,
      ),
    )

-- Each token of `Tokenize` ends within the statement, its line is one more than the ends of lines before it,
-- its column is one more than the runes behind the last of these, and the tokens stand in order and do not overlap.
pub tokenize-Placed :
    (input : List ℕ) (ts : List Token)
    → tokenize input ≡ some (ok ts)
    → All (Placed input) ts × Ordered 0 ts
tokenize-Placed input ts h = Covers-Placed [] input origin ts refl (tokenize-Covers input ts h)
