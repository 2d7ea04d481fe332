-- ===== src/Lexer/Lexeme.antt =====
-- Statements spelled lexeme by lexeme, and the tokens that `internal/core/sql/lexer` should make of them.
use gopher_db.Base.{ℕ, ◌≡◌, Bool, true, false, List, [], ◌∷◌, ◌++◌, ◌==◌, if◌then◌else◌}
use gopher_db.Base.Select.{All}
use gopher_db.Base.Text.{codes}
use gopher_db.Bytes.Copy.{Bytes}
use gopher_db.Lexer.{
  Place, is_digit, is_ident_start, is_ident_part, advance, write_rune, keyword_or_ident, new_token,
  eof_at,
}
use gopher_db.Lexer.Places.{moved}
use gopher_db.Lexer.Tokens.{
  Token, TokenType, number_token, string_token, lparen_token, rparen_token, comma_token,
  semicolon_token, asterisk_token, eq_token, ne_token, lt_token, le_token, gt_token, ge_token,
}

pub data Symbol : Type 0 where
  open_paren close_paren comma semicolon asterisk : Symbol
  equal not_equal bang_equal less less_equal greater greater_equal : Symbol

abbrev pub symbol_text : Symbol → List ℕ
symbol_text open_paren = codes "("
symbol_text close_paren = codes ")"
symbol_text comma = codes ","
symbol_text semicolon = codes ";"
symbol_text asterisk = codes "*"
symbol_text equal = codes "="
symbol_text not_equal = codes "<>"
symbol_text bang_equal = codes "!="
symbol_text less = codes "<"
symbol_text less_equal = codes "<="
symbol_text greater = codes ">"
symbol_text greater_equal = codes ">="

abbrev pub symbol_type : Symbol → TokenType
symbol_type open_paren = lparen_token
symbol_type close_paren = rparen_token
symbol_type comma = comma_token
symbol_type semicolon = semicolon_token
symbol_type asterisk = asterisk_token
symbol_type equal = eq_token
symbol_type not_equal = ne_token
symbol_type bang_equal = ne_token
symbol_type less = lt_token
symbol_type less_equal = le_token
symbol_type greater = gt_token
symbol_type greater_equal = ge_token

-- a keyword or an identifier, a number with its sign and digits, a string of runes, a symbol
pub data Lexeme : Type 0 where
  word : List ℕ → Lexeme
  numeral : Bool → List ℕ → Lexeme
  quoted : List ℕ → Lexeme
  symbol : Symbol → Lexeme

-- quotes are doubled inside a string
unfoldable pub escape : List ℕ → List ℕ
escape [] = []
escape (c ∷ cs) = (if c == b'\'' then b'\'' ∷ b'\'' ∷ [] else c ∷ []) ++ escape cs

abbrev pub signed_digits : Bool → List ℕ → List ℕ
signed_digits true ds = b'-' ∷ ds
signed_digits false ds = ds

abbrev pub spell : Lexeme → List ℕ
spell (word w) = w
spell (numeral minus ds) = signed_digits minus ds
spell (quoted s) = b'\'' ∷ escape s ++ b'\'' ∷ []
spell (symbol s) = symbol_text s

-- UTF-8
unfoldable pub encode : List ℕ → Bytes
encode [] = []
encode (c ∷ cs) = write_rune c ++ encode cs

abbrev pub text_of : Lexeme → Bytes
text_of (quoted s) = encode s
text_of l = spell l

abbrev pub type_of : Lexeme → TokenType
type_of (word w) = keyword_or_ident w
type_of (numeral minus ds) = number_token
type_of (quoted s) = string_token
type_of (symbol s) = symbol_type s

abbrev pub IsDigits : List ℕ → Type 0
IsDigits [] = ⊥
IsDigits (d ∷ ds) = (is_digit d ≡ true) × All (λ c. is_digit c ≡ true) ds

abbrev pub IsLexeme : Lexeme → Type 0
IsLexeme (word []) = ⊥
IsLexeme (word (c ∷ cs)) = (is_ident_start c ≡ true) × All (λ d. is_ident_part d ≡ true) cs
IsLexeme (numeral minus ds) = IsDigits ds
IsLexeme (quoted s) = Unit
IsLexeme (symbol s) = Unit

-- the statement's text, with a space behind each lexeme
unfoldable pub print : List Lexeme → List ℕ
print [] = []
print (l ∷ ls) = spell l ++ b' ' ∷ print ls

abbrev pub behind : Lexeme → Place → Place
behind l p = advance b' ' (moved (spell l) p)

-- the tokens of that text from the place `p` on, and the place behind it
abbrev pub located : List Lexeme → Place → List Token
located [] p = eof_at p ∷ []
located (l ∷ ls) p =
    new_token (type_of l) (text_of l) p (moved (spell l) p) ∷ located ls (behind l p)

abbrev pub after : List Lexeme → Place → Place
after [] p = p
after (l ∷ ls) p = after ls (behind l p)
