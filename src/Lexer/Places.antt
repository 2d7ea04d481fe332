-- ===== src/Lexer/Places.antt =====
-- Where the lexer's tokens stand: each round takes some runes off the input, and a token has the place
-- before and behind them.
use mathlib.Core.Option
use gopher_db.Base.{
  ℕ, ◌≡◌, refl, ap, inl, inr, Bool, true, false, ◌||◌, ◌&&◌, List, [], ◌∷◌, ◌++◌, Option, none,
  some, arith, ◌==◌, if◌then◌else◌, Bool-cases, ==_iff,
}
use gopher_db.Base.Outcome.{Outcome, ok, err, panic}
use gopher_db.Base.Select.{All}
use gopher_db.Bytes.Copy.{Bytes}
use gopher_db.Lexer.{
  keyword_or_ident, string_from, Place, Scan, Round, is_whitespace, is_digit, is_ident_start,
  is_ident_part, peek, advance, written, scan_while, scan_string, read_number, read_string,
  read_ident_or_keyword, handle_lt, handle_gt, handle_bang, handle, round, emitted, single, double,
  skipped,
}
use gopher_db.Lexer.Tokens.{
  Token, number_token, lparen_token, rparen_token, comma_token, semicolon_token, asterisk_token,
  eq_token, ne_token, lt_token, le_token, gt_token, ge_token, TokenType, SqlSyntaxError,
}

-- `advance` over each of these runes
abbrev pub moved : List ℕ → Place → Place
moved [] p = p
moved (c ∷ cs) p = moved cs (advance c p)

pub moved-append : (cs ds : List ℕ) (p : Place) → moved (cs ++ ds) p ≡ moved ds (moved cs p)
moved-append [] ds p = refl
moved-append (c ∷ cs) ds p = moved-append cs ds (advance c p)

pub scan_while_parts :
    (test : ℕ → Bool) (cs : List ℕ) (p : Place)
    → (used : List ℕ) × (cs ≡ used ++ (scan_while test cs p).rest)
      × ((scan_while test cs p).place ≡ moved used p)
      × All (λ c. test c ≡ true) used
unfolding scan_while
scan_while_parts test [] p = ([], refl, refl, tt)
scan_while_parts test (c ∷ cs) p = elim (Bool-cases (test c)) [
  | inl yes_c ↦
      let (used, split, at, all) = scan_while_parts test cs (advance c p) in
      rw yes_c (c ∷ used, ap (◌∷◌ c) split, at, (yes_c, all))
  | inr no_c ↦ rw no_c ([], refl, refl, tt)
]

-- `rest` and `place` are what remains of `cs` and `p` when some runes are used
abbrev pub Left : List ℕ → Place → List ℕ → Place → Type 0
Left cs p rest place = (used : List ℕ) × (cs ≡ used ++ rest) × (place ≡ moved used p)

abbrev LeftIfAny : List ℕ → Place → Option Scan → Type 0
LeftIfAny cs p none = Unit
LeftIfAny cs p (some s) = Left cs p s.rest s.place

LeftIfAny-written :
    (b : Bytes) (c : ℕ) (cs : List ℕ) (p : Place) (o : Option Scan)
    → LeftIfAny cs (advance c p) o
    → LeftIfAny (c ∷ cs) p (Option.map (written b) o)
LeftIfAny-written b c cs p none h = tt
LeftIfAny-written b c cs p (some s) (used, split, at) = (c ∷ used, ap (◌∷◌ c) split, at)

LeftIfAny-twice :
    (b : Bytes) (c d : ℕ) (cs : List ℕ) (p : Place) (o : Option Scan)
    → LeftIfAny cs (advance d (advance c p)) o
    → LeftIfAny (c ∷ d ∷ cs) p (Option.map (written b) o)
LeftIfAny-twice b c d cs p none h = tt
LeftIfAny-twice b c d cs p (some s) (used, split, at) =
    (c ∷ d ∷ used, ap (λ more. c ∷ d ∷ more) split, at)

scan_string-Left : (cs : List ℕ) (p : Place) → LeftIfAny cs p (scan_string cs p)
unfolding scan_string
scan_string-Left [] p = tt
scan_string-Left (c ∷ []) p = elim (Bool-cases (c == b'\'')) [
  | inl quote ↦ rw (quote, LeftIfAny) (c ∷ [], refl, refl)
  | inr other ↦ rw (other, LeftIfAny) tt
]
scan_string-Left (c ∷ d ∷ cs) p = elim (Bool-cases (c == b'\'')) [
  | inl quote ↦
      rw (quote, LeftIfAny)
        (elim (Bool-cases (d == b'\'')) [
          | inl twice ↦
              rw (twice, LeftIfAny)
                (LeftIfAny-twice _ c d cs p _ (scan_string-Left cs (advance d (advance c p))))
          | inr end ↦ rw (end, LeftIfAny) (c ∷ [], refl, refl)
        ])
  | inr other ↦
      rw (other, LeftIfAny)
        (LeftIfAny-written _ c (d ∷ cs) p _ (scan_string-Left (d ∷ cs) (advance c p)))
]

-- a round's token has the place before and behind the runes that the round used, and without a token these
-- are white space
abbrev pub Spans : List ℕ → Place → Place → Option Token → Type 0
Spans used p place none = All (λ c. is_whitespace c ≡ true) used
Spans used p place (some t) =
    (t.start_offset ≡ p.pos) × (t.end_offset ≡ place.pos) × (t.line ≡ p.line) × (t.column ≡ p.col)

abbrev pub IsStep : ℕ → List ℕ → Place → Round → Type 0
IsStep c cs p r =
    (used : List ℕ) × (cs ≡ used ++ r.rest)
    × (r.place ≡ moved used (advance c p))
    × Spans (c ∷ used) p r.place r.token

-- an error has the place before the round
abbrev pub IsStepOrError : ℕ → List ℕ → Place → Outcome SqlSyntaxError Round → Type 0
IsStepOrError c cs p (ok r) = IsStep c cs p r
IsStepOrError c cs p (err e) = (e.offset ≡ p.pos) × (e.line ≡ p.line) × (e.column ≡ p.col)
IsStepOrError c cs p panic = ⊥

module _ (c : ℕ) (cs : List ℕ) (p : Place) where
  IsStep-if :
      (b : Bool) (x y : Outcome SqlSyntaxError Round)
      → (b ≡ true → IsStepOrError c cs p x)
      → (b ≡ false → IsStepOrError c cs p y)
      → IsStepOrError c cs p (if b then x else y)
  IsStep-if true x y hx hy = hx refl
  IsStep-if false x y hx hy = hy refl

  -- a loop whose test the first rune passes
  IsStep-emitted :
      (test : ℕ → Bool) (t : TokenType)
      → test c ≡ true
      → IsStep c cs p (emitted t p (scan_while test (c ∷ cs) p))
  unfolding scan_while
  IsStep-emitted test t h =
      let (used, split, at, all) = scan_while_parts test cs (advance c p) in
      rw h (used, split, at, (refl, refl, refl, refl))

  skipped-IsStep :
      is_whitespace c ≡ true → IsStep c cs p (skipped (scan_while is_whitespace (c ∷ cs) p))
  unfolding scan_while
  skipped-IsStep h =
      let (used, split, at, all) = scan_while_parts is_whitespace cs (advance c p) in
      rw h (used, split, at, (refl, all))

  read_ident_or_keyword-IsStep :
      is_ident_start c ≡ true → IsStep c cs p (read_ident_or_keyword (c ∷ cs) p)
  read_ident_or_keyword-IsStep h =
      IsStep-emitted is_ident_part (keyword_or_ident (scan_while is_ident_part (c ∷ cs) p).text)
        (rw h refl)

  read_number-IsStep :
      (is_digit c || c == b'-' && is_digit (peek cs)) ≡ true
      → IsStep c cs p (read_number (c ∷ cs) p)
  unfolding read_number
  read_number-IsStep h = elim (Bool-cases (c == b'-')) [
    | inl minus ↦
        let (used, split, at, all) = scan_while_parts is_digit cs (advance c p) in
        rw minus (used, split, at, (refl, refl, refl, refl))
    | inr other ↦ rw other (IsStep-emitted is_digit number_token (ground arith))
  ]

  string_from-IsStep :
      (o : Option Scan) → LeftIfAny cs (advance c p) o → IsStepOrError c cs p (string_from p o)
  string_from-IsStep none h = (refl, refl, refl)
  string_from-IsStep (some s) (used, split, at) = (used, split, at, (refl, refl, refl, refl))

  read_string-IsStep : IsStepOrError c cs p (read_string c cs p)
  read_string-IsStep = string_from-IsStep _ (scan_string-Left cs (advance c p))

module _ (c : ℕ) (p : Place) where
  single-IsStep : (cs : List ℕ) (t : TokenType) → IsStep c cs p (single t c cs p)
  single-IsStep cs t = ([], refl, refl, (refl, refl, refl, refl))

  double-IsStep : (d : ℕ) (ds : List ℕ) (t : TokenType) → IsStep c (d ∷ ds) p (double t c d ds p)
  double-IsStep d ds t = (d ∷ [], refl, refl, (refl, refl, refl, refl))

module _ (c : ℕ) (p : Place) where
  handle_lt-IsStep : c ≡ b'<' → (cs : List ℕ) → IsStepOrError c cs p (handle_lt cs p)
  unfolding handle_lt
  handle_lt-IsStep e [] = rw e (single-IsStep b'<' p [] lt_token)
  handle_lt-IsStep e (d ∷ ds) = rw e (
      IsStep-if b'<' (d ∷ ds) p (d == b'=') _ _ (λ _. double-IsStep b'<' p d ds le_token)
        (λ _.
          IsStep-if b'<' (d ∷ ds) p (d == b'>') _ _ (λ _. double-IsStep b'<' p d ds ne_token)
            (λ _. single-IsStep b'<' p (d ∷ ds) lt_token)))

  handle_gt-IsStep : c ≡ b'>' → (cs : List ℕ) → IsStepOrError c cs p (handle_gt cs p)
  unfolding handle_gt
  handle_gt-IsStep e [] = rw e (single-IsStep b'>' p [] gt_token)
  handle_gt-IsStep e (d ∷ ds) = rw e (
      IsStep-if b'>' (d ∷ ds) p (d == b'=') _ _ (λ _. double-IsStep b'>' p d ds ge_token)
        (λ _. single-IsStep b'>' p (d ∷ ds) gt_token))

  handle_bang-IsStep : c ≡ b'!' → (cs : List ℕ) → IsStepOrError c cs p (handle_bang cs p)
  unfolding handle_bang
  handle_bang-IsStep e [] = (refl, refl, refl)
  handle_bang-IsStep e (d ∷ ds) = rw e (
      IsStep-if b'!' (d ∷ ds) p (d == b'=') _ _ (λ _. double-IsStep b'!' p d ds ne_token)
        (λ _. (refl, refl, refl)))

  handle-IsStep : (cs : List ℕ) → IsStepOrError c cs p (handle c cs p)
  unfolding handle
  handle-IsStep cs =
      let next = IsStep-if c cs p in
      next (c == b'(') _ _ (λ _. single-IsStep c p cs lparen_token)
        λ _.
          next (c == b')') _ _ (λ _. single-IsStep c p cs rparen_token)
            λ _.
              next (c == b',') _ _ (λ _. single-IsStep c p cs comma_token)
                λ _.
                  next (c == b';') _ _ (λ _. single-IsStep c p cs semicolon_token)
                    λ _.
                      next (c == b'*') _ _ (λ _. single-IsStep c p cs asterisk_token)
                        λ _.
                          next (c == b'=') _ _ (λ _. single-IsStep c p cs eq_token)
                            λ _.
                              next (c == b'<') _ _ (λ e. handle_lt-IsStep ((==_iff c _).0 e) cs)
                                λ _.
                                  next (c == b'>') _ _ (λ e. handle_gt-IsStep ((==_iff c _).0 e) cs)
                                    λ _.
                                      next (c == b'!') _ _
                                        (λ e. handle_bang-IsStep ((==_iff c _).0 e) cs)
                                        λ _. (refl, refl, refl)

  pub round-IsStep : (cs : List ℕ) → IsStepOrError c cs p (round c cs p)
  unfolding round
  round-IsStep cs =
      let next = IsStep-if c cs p in
      next (is_whitespace c) _ _ (skipped-IsStep c cs p) λ _.
        next (is_ident_start c) _ _ (read_ident_or_keyword-IsStep c cs p) λ _.
          next (is_digit c || c == b'-' && is_digit (peek cs)) _ _ (read_number-IsStep c cs p)
            λ _. next (c == b'\'') _ _ (λ _. read_string-IsStep c cs p) λ _. handle-IsStep cs
