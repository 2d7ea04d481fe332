-- ===== src/Lexer/RoundTrip.antt =====
-- What is spelled lexeme by lexeme is read back as the tokens of those lexemes.
use mathlib.Core.Option
use gopher_db.Base.{
  ℕ, zero, suc, ◌≤◌, ◌≡◌, refl, inl, inr, Bool, true, false, List, [], ◌∷◌, ◌++◌, none, some, arith,
  length, ltb, ◌==◌, Bool-cases, ==_iff, length-append, append_assoc,
}
use gopher_db.Base.Outcome.{ok}
use gopher_db.Base.Select.{All, All-map}
use gopher_db.Lexer.{
  Place, is_whitespace, is_digit, is_ident_start, is_ident_part, advance, write_rune, written,
  scan_while, scan_string, read_number, handle_lt, handle_gt, handle_bang, handle, round, new_token,
  tokens_from, origin, tokenize,
}
use gopher_db.Lexer.Lexeme.{
  Lexeme, word, numeral, quoted, symbol, Symbol, open_paren, escape, spell, encode, text_of,
  type_of, IsLexeme, print, behind, located,
}
use gopher_db.Lexer.Places.{moved}
use gopher_db.Lexer.Tokens.{Token}

-- a loop with this test stops here
abbrev Stops : (ℕ → Bool) → List ℕ → Type 0
Stops test [] = Unit
Stops test (c ∷ cs) = test c ≡ false

scan_while-All :
    (test : ℕ → Bool) (used rest : List ℕ) (p : Place)
    → All (λ c. test c ≡ true) used
    → Stops test rest
    → scan_while test (used ++ rest) p
      ≡ record { text = encode used; rest = rest; place = moved used p }
unfolding scan_while encode
scan_while-All test [] [] p all stop = refl
scan_while-All test [] (c ∷ rest) p all stop = rw stop
scan_while-All test (c ∷ used) rest p (h, all) stop =
    rw (h, scan_while-All test used rest (advance c p) all stop)

encode-ascii : (cs : List ℕ) → All (λ c. ltb c 0x80 ≡ true) cs → encode cs ≡ cs
unfolding encode write_rune
encode-ascii [] h = refl
encode-ascii (c ∷ cs) (h, hs) = rw (h, encode-ascii cs hs)

is_ident_part-ascii : (c : ℕ) → is_ident_part c ≡ true → ltb c 0x80 ≡ true
is_ident_part-ascii c h = ground arith

is_digit-ascii : (c : ℕ) → is_digit c ≡ true → ltb c 0x80 ≡ true
is_digit-ascii c h = ground arith

scan_string-other :
    (c : ℕ) (cs : List ℕ) (p : Place)
    → c == b'\'' ≡ false
    → scan_string (c ∷ cs) p ≡ Option.map (written (write_rune c)) (scan_string cs (advance c p))
unfolding scan_string
scan_string-other c [] p h = rw h
scan_string-other c (d ∷ cs) p h = rw (h, scan_string)

scan_string-twice :
    (s more : List ℕ) (p : Place)
    → scan_string (escape s ++ b'\'' ∷ b' ' ∷ more) (advance b'\'' (advance b'\'' p))
      ≡ some (record {
        text = encode s;
        rest = b' ' ∷ more;
        place = moved (escape s ++ b'\'' ∷ []) (advance b'\'' (advance b'\'' p));
      })
    → scan_string (b'\'' ∷ b'\'' ∷ escape s ++ b'\'' ∷ b' ' ∷ more) p
      ≡ some (record {
        text = write_rune b'\'' ++ encode s;
        rest = b' ' ∷ more;
        place = moved (b'\'' ∷ b'\'' ∷ escape s ++ b'\'' ∷ []) p;
      })
unfolding scan_string
scan_string-twice s more p h = rw h

scan_string-escape :
    (s more : List ℕ) (p : Place)
    → scan_string (escape s ++ b'\'' ∷ b' ' ∷ more) p
      ≡ some
          (record { text = encode s; rest = b' ' ∷ more; place = moved (escape s ++ b'\'' ∷ []) p })
unfolding escape encode
scan_string-escape [] more p = unfold scan_string in refl
scan_string-escape (c ∷ cs) more p = elim (Bool-cases (c == b'\'')) [
  | inl quote ↦
      rw ((==_iff c b'\'').0 quote) (scan_string-twice cs more p (scan_string-escape cs more _))
  | inr other ↦ rw (other, scan_string-other c _ p other, scan_string-escape cs more (advance c p))
]

-- The first rune of a lexeme tells what it is.
ident_start_facts :
    (c : ℕ) → is_ident_start c ≡ true → (is_whitespace c ≡ false) × (is_ident_part c ≡ true)
ident_start_facts c h = ground arith

digit_facts :
    (c : ℕ)
    → is_digit c ≡ true
    → (is_whitespace c ≡ false) × (is_ident_start c ≡ false) × (c == b'-' ≡ false)
digit_facts c h = ground arith

-- the round that reads the lexeme `l` where it is spelled in front of a space
abbrev Reads : Lexeme → List ℕ → List ℕ → Place → Type 0
Reads l [] more p = ⊥
Reads l (c ∷ cs) more p =
    round c (cs ++ b' ' ∷ more) p
    ≡ ok (record {
      token = some (new_token (type_of l) (text_of l) p (moved (spell l) p));
      rest = b' ' ∷ more;
      place = moved (spell l) p;
    })

word-Reads :
    (c : ℕ) (cs more : List ℕ) (p : Place)
    → IsLexeme (word (c ∷ cs))
    → Reads (word (c ∷ cs)) (c ∷ cs) more p
unfolding round
word-Reads c cs more p (start, part) =
    let (space, c_part) = ident_start_facts c start in
    let ascii = All-map _ _ is_ident_part-ascii (c ∷ cs) (c_part, part) in
    rw (
      space,
      start,
      scan_while-All is_ident_part (c ∷ cs) (b' ' ∷ more) p (c_part, part) refl,
      encode-ascii (c ∷ cs) ascii,
    )

positive-Reads :
    (d : ℕ) (ds more : List ℕ) (p : Place)
    → IsLexeme (numeral false (d ∷ ds))
    → Reads (numeral false (d ∷ ds)) (d ∷ ds) more p
unfolding round read_number
positive-Reads d ds more p (digit, digits) =
    let (space, ident, minus) = digit_facts d digit in
    let ascii = All-map _ _ is_digit-ascii (d ∷ ds) (digit, digits) in
    rw (
      space,
      ident,
      digit,
      minus,
      scan_while-All is_digit (d ∷ ds) (b' ' ∷ more) p (digit, digits) refl,
      encode-ascii (d ∷ ds) ascii,
    )

negative-Reads :
    (d : ℕ) (ds more : List ℕ) (p : Place)
    → IsLexeme (numeral true (d ∷ ds))
    → Reads (numeral true (d ∷ ds)) (b'-' ∷ d ∷ ds) more p
unfolding round read_number write_rune advance
negative-Reads d ds more p (digit, digits) =
    let ascii = All-map _ _ is_digit-ascii (d ∷ ds) (digit, digits) in
    rw (
      digit,
      scan_while-All is_digit (d ∷ ds) (b' ' ∷ more) (advance b'-' p) (digit, digits) refl,
      encode-ascii (d ∷ ds) ascii,
    )

quoted-Reads :
    (s more : List ℕ) (p : Place) → Reads (quoted s) (b'\'' ∷ escape s ++ b'\'' ∷ []) more p
unfolding round
quoted-Reads s more p = rw (append_assoc, scan_string-escape s more (advance b'\'' p))

symbol-Reads : (s : Symbol) (more : List ℕ) (p : Place) → Reads (symbol s) (spell (symbol s)) more p
unfolding round handle handle_lt handle_gt handle_bang
symbol-Reads open_paren more p = refl
symbol-Reads _ more p = refl

lexeme-Reads : (l : Lexeme) (more : List ℕ) (p : Place) → IsLexeme l → Reads l (spell l) more p
lexeme-Reads (word []) more p h = h
lexeme-Reads (word (c ∷ cs)) more p h = word-Reads c cs more p h
lexeme-Reads (numeral minus []) more p h = absurd h
lexeme-Reads (numeral true (d ∷ ds)) more p h = negative-Reads d ds more p h
lexeme-Reads (numeral false (d ∷ ds)) more p h = positive-Reads d ds more p h
lexeme-Reads (quoted s) more p h = quoted-Reads s more p
lexeme-Reads (symbol s) more p h = symbol-Reads s more p

lexeme-Stops : (l : Lexeme) (more : List ℕ) → IsLexeme l → Stops is_whitespace (spell l ++ more)
lexeme-Stops (word []) more h = absurd h
lexeme-Stops (word (c ∷ cs)) more (start, _) = (ident_start_facts c start).0
lexeme-Stops (numeral minus []) more h = absurd h
lexeme-Stops (numeral true (d ∷ ds)) more h = refl
lexeme-Stops (numeral false (d ∷ ds)) more (digit, _) = (digit_facts d digit).0
lexeme-Stops (quoted s) more h = refl
lexeme-Stops (symbol open_paren) more h = refl
lexeme-Stops (symbol _) more h = refl

print-Stops : (ls : List Lexeme) → All IsLexeme ls → Stops is_whitespace (print ls)
unfolding print
print-Stops [] h = tt
print-Stops (l ∷ ls) (h, hs) = lexeme-Stops l (b' ' ∷ print ls) h

round-space :
    (more : List ℕ) (p : Place)
    → Stops is_whitespace more
    → round b' ' more p ≡ ok (record { token = none; rest = more; place = advance b' ' p })
unfolding round
round-space more p stop = rw (scan_while-All is_whitespace (b' ' ∷ []) more p (refl, tt) stop)

tokens_from-lexeme :
    (l : Lexeme) (w more : List ℕ) (p : Place) (fuel : ℕ) (ts : List Token)
    → Reads l w more p
    → Stops is_whitespace more
    → ((rest_fuel : ℕ)
        → length more ≤ rest_fuel
        → tokens_from rest_fuel more (behind l p) ≡ some (ok ts))
    → length (w ++ b' ' ∷ more) ≤ fuel
    → tokens_from fuel (w ++ b' ' ∷ more) p
      ≡ some (ok (new_token (type_of l) (text_of l) p (moved (spell l) p) ∷ ts))
unfolding tokens_from
tokens_from-lexeme l [] more p fuel ts reads stop ih h = absurd reads
tokens_from-lexeme l (c ∷ cs) more p zero ts reads stop ih h = absurd (omega arith)
tokens_from-lexeme l (c ∷ cs) more p (suc zero) ts reads stop ih h =
    absurd (omega (arith, length-append cs (b' ' ∷ more)))
tokens_from-lexeme l (c ∷ cs) more p (suc (suc f)) ts reads stop ih h = rw (
  reads,
  round-space more (moved (spell l) p) stop,
  ih f (omega (arith, length-append cs (b' ' ∷ more))),
)

tokens_from-print :
    (ls : List Lexeme) (p : Place) (fuel : ℕ)
    → All IsLexeme ls
    → length (print ls) ≤ fuel
    → tokens_from fuel (print ls) p ≡ some (ok (located ls p))
unfolding print
tokens_from-print [] p fuel h le = unfold tokens_from in refl
tokens_from-print (l ∷ ls) p fuel (h, hs) le =
    tokens_from-lexeme l (spell l) (print ls) p fuel (located ls (behind l p))
      (lexeme-Reads l (print ls) p h) (print-Stops ls hs)
      (λ f. tokens_from-print ls (behind l p) f hs) le

-- `Tokenize` reads lexemes that are spelled with a space behind each, strings with their quotes doubled, as
-- exactly their tokens, with the types, texts, offsets, lines and columns that the spelling gives them, and an `EOF` token.
pub tokenize-print :
    (ls : List Lexeme) → All IsLexeme ls → tokenize (print ls) ≡ some (ok (located ls origin))
unfolding tokenize
tokenize-print ls h = tokens_from-print ls origin (length (print ls)) h (omega arith)
