-- ===== src/Parser/Number.antt =====
-- `strconv.ParseInt(s, 10, 64)`
use gopher_db.Base.Int.{ℤ, pos, negsuc, half_64}
use gopher_db.Base.{
  ℕ, zero, suc, ◌+◌, ◌-◌, ◌*◌, Bool, true, false, [], ◌∷◌, Option, none, some, ltb, leb, ◌==◌,
  if◌then◌else◌,
}
use gopher_db.Bytes.Copy.{Bytes}
use gopher_db.Lexer.{is_digit}

-- the number that the digits behind `n` come to
unfoldable pub decimal : ℕ → Bytes → Option ℕ
decimal n [] = some n
decimal n (c ∷ cs) =
    let more = decimal (n * 10 + (c - b'0')) cs in if is_digit c then more else none

abbrev pub unsigned_decimal : Bytes → Option ℕ
unsigned_decimal [] = none
unsigned_decimal (c ∷ cs) = decimal 0 (c ∷ cs)

abbrev pub negated : ℕ → ℤ
negated zero = pos 0
negated (suc n) = negsuc n

abbrev pub fitted : Bool → Option ℕ → Option ℤ
fitted minus none = none
fitted true (some n) = if leb n half_64 then some (negated n) else none
fitted false (some n) = if ltb n half_64 then some (pos n) else none

unfoldable pub parse_int : Bytes → Option ℤ
parse_int [] = none
parse_int (c ∷ cs) =
    if c == b'-'
    then fitted true (unsigned_decimal cs)
    else if c == b'+'
    then fitted false (unsigned_decimal cs)
    else fitted false (unsigned_decimal (c ∷ cs))
