-- ===== src/Parser/State.antt =====
-- The helpers of `internal/core/sql/parser/sql_parser.go` on its tokens, and what a parsing method returns.
use gopher_db.Base.{Bool, List, [], ◌∷◌, if◌then◌else◌}
use gopher_db.Bytes.Copy.{Bytes}
use gopher_db.Lexer.Tokens.{
  Token, TokenType, same_type, ident_token, SqlSyntaxError, SyntaxMessage, expected_token,
}

pub record Cursor : Type 0 where
  pub current : Token
  pub later : List Token

-- a value with the state behind it, an error, or the end of the fuel
pub data Parsed (A : Type 0) : Type 0 where
  parsed : A → Cursor → Parsed A
  syntax : SqlSyntaxError → Parsed A
  out_of_fuel : Parsed A

abbrev pub Parser : Type 0 → Type 0
Parser A = Cursor → Parsed A

abbrev pub pure : {A : Type 0} → A → Parser A
pure a c = parsed a c

module _ {A B : Type 0} where
  abbrev pub continue_with : (A → Parser B) → Parsed A → Parsed B
  continue_with f (parsed a c) = f a c
  continue_with f (syntax e) = syntax e
  continue_with f out_of_fuel = out_of_fuel

  infixl 1 ◌>>=◌ ◌>>◌
  abbrev pub ◌>>=◌ : Parser A → (A → Parser B) → Parser B
  p >>= f = λ c. continue_with f (p c)

  abbrev pub ◌>>◌ : Parser A → Parser B → Parser B
  p >> q = p >>= λ _. q

abbrev pub current_type : Cursor → TokenType
current_type c = c.current.token_type

abbrev pub advanced : List Token → Cursor → Cursor
advanced [] c = c
advanced (t ∷ ts) c = record { current = t; later = ts }

unfoldable pub advance : Cursor → Cursor
advance c = advanced c.later c

-- `advance`, as a statement
unfoldable pub step : Parser (Unit {0})
step c = parsed tt (advance c)

-- what `match` answers; where it answers `true` it advances
abbrev pub matches : TokenType → Cursor → Bool
matches t c = same_type (current_type c) t

-- `match`, its answer dropped
unfoldable pub skip : TokenType → Parser (Unit {0})
skip t c = if matches t c then parsed tt (advance c) else parsed tt c

-- `errorf`
abbrev pub failed : {A : Type 0} → SyntaxMessage → Parser A
failed m c = syntax (record {
  message = m;
  offset = c.current.start_offset;
  line = c.current.line;
  column = c.current.column;
})

unfoldable pub expect : TokenType → Parser (Unit {0})
expect t c =
    if matches t c then parsed tt (advance c) else failed (expected_token t (current_type c)) c

unfoldable pub expect_ident : Parser Bytes
unfolding expect
expect_ident c = (do expect ident_token; pure c.current.text) c
