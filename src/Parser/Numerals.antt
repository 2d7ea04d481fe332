-- ===== src/Parser/Numerals.antt =====
-- A number token's digits are read as the integer that they stand for.
use gopher_db.Base.Int.{ℤ}
use gopher_db.Base.{
  ℕ, ◌+◌, ◌-◌, ◌*◌, ◌≡◌, refl, Bool, true, false, List, [], ◌∷◌, some, arith, ◌==◌, le→leb, lt→ltb,
}
use gopher_db.Base.Select.{All}
use gopher_db.Lexer.Lexeme.{IsDigits, signed_digits}
use gopher_db.Lexer.{is_digit}
use gopher_db.Parser.Grammar.{digits_value, Denotes}
use gopher_db.Parser.Number.{decimal, parse_int}

decimal-digits_value :
    (n : ℕ) (ds : List ℕ)
    → All (λ d. is_digit d ≡ true) ds
    → decimal n ds ≡ some (digits_value n ds)
unfolding decimal
decimal-digits_value n [] h = refl
decimal-digits_value n (d ∷ ds) (h, hs) = rw (h, decimal-digits_value (n * 10 + (d - b'0')) ds hs)

sign_facts : (d : ℕ) → is_digit d ≡ true → (d == b'-' ≡ false) × (d == b'+' ≡ false)
sign_facts d h = ground arith

pub parse_int-Denotes :
    (minus : Bool) (ds : List ℕ) (z : ℤ)
    → IsDigits ds
    → Denotes minus ds z
    → parse_int (signed_digits minus ds) ≡ some z
unfolding parse_int
parse_int-Denotes minus [] z h v = absurd h
parse_int-Denotes true (d ∷ ds) z h (bound, e) =
    rw (decimal-digits_value 0 (d ∷ ds) h, le→leb _ _ bound, e)
parse_int-Denotes false (d ∷ ds) z (h, hs) (bound, e) =
    let (minus, plus) = sign_facts d h in
    rw (minus, plus, decimal-digits_value 0 (d ∷ ds) (h, hs), lt→ltb _ _ bound, e)
