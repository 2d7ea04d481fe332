-- ===== src/Lexer/Tokens.antt =====
-- `internal/core/sql/lexer`: `token_type.go`, `token.go` and `sql_syntax_error.go`.
use gopher_db.Base.{ℕ, Bool, ◌==◌}
use gopher_db.Bytes.Copy.{Bytes}

pub data TokenType : Type 0 where
  eof_token ident_token number_token string_token : TokenType
  create_token table_token index_token on_token using_token hash_token btree_token : TokenType
  insert_token into_token values_token select_token from_token where_token : TokenType
  and_token or_token explain_token int64_token varchar_token : TokenType
  lparen_token rparen_token comma_token semicolon_token asterisk_token : TokenType
  eq_token ne_token lt_token le_token gt_token ge_token : TokenType

-- the number that `iota` gives
abbrev pub ordinal : TokenType → ℕ
ordinal eof_token = 0
ordinal ident_token = 1
ordinal number_token = 2
ordinal string_token = 3
ordinal create_token = 4
ordinal table_token = 5
ordinal index_token = 6
ordinal on_token = 7
ordinal using_token = 8
ordinal hash_token = 9
ordinal btree_token = 10
ordinal insert_token = 11
ordinal into_token = 12
ordinal values_token = 13
ordinal select_token = 14
ordinal from_token = 15
ordinal where_token = 16
ordinal and_token = 17
ordinal or_token = 18
ordinal explain_token = 19
ordinal int64_token = 20
ordinal varchar_token = 21
ordinal lparen_token = 22
ordinal rparen_token = 23
ordinal comma_token = 24
ordinal semicolon_token = 25
ordinal asterisk_token = 26
ordinal eq_token = 27
ordinal ne_token = 28
ordinal lt_token = 29
ordinal le_token = 30
ordinal gt_token = 31
ordinal ge_token = 32

-- `==` on token types
abbrev pub same_type : TokenType → TokenType → Bool
same_type a b = ordinal a == ordinal b

pub record Token : Type 0 where
  pub token_type : TokenType
  pub text : Bytes
  pub start_offset : ℕ
  pub end_offset : ℕ
  pub line : ℕ
  pub column : ℕ

-- the message of a `SqlSyntaxError`, one constructor for each format string of the lexer and the parser
pub data SyntaxMessage : Type 0 where
  unexpected_character : ℕ → SyntaxMessage
  unterminated_string : SyntaxMessage
  unexpected_token expected_table_or_index expected_type_name expected_hash_or_btree :
      TokenType → SyntaxMessage
  expected_token : TokenType → TokenType → SyntaxMessage
  invalid_number : Bytes → SyntaxMessage

pub record SqlSyntaxError : Type 0 where
  pub message : SyntaxMessage
  pub offset : ℕ
  pub line : ℕ
  pub column : ℕ
