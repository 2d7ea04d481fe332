-- ===== src/Lexer.antt =====
-- `internal/core/sql/lexer/sql_lexer.go`. The lexer's state is its place and, for `input` from `pos` on, the
-- runes that are left; `Tokenize` starts at the runes of the statement, `[]rune(sql)`.
pub mod Tokens
pub mod Places
pub mod Cover
pub mod Bounds
pub mod Lexeme
pub mod RoundTrip
use mathlib.Core.Option
use gopher_db.Base.{
  ℕ, zero, suc, ◌+◌, ◌-◌, ◌*◌, ◌/◌, ◌%◌, ◌≡◌, refl, Bool, true, false, ◌&&◌, ◌||◌, List, [], ◌∷◌,
  ◌++◌, Option, none, some, length, ltb, leb, ◌==◌, if◌then◌else◌,
}
use gopher_db.Base.Outcome.{Outcome, ok, err, panic}
use gopher_db.Base.Text.{codes, upper}
use gopher_db.Bytes.Compare.{eq_bytes}
use gopher_db.Bytes.Copy.{Bytes}
use gopher_db.Lexer.Tokens.{
  TokenType, eof_token, ident_token, number_token, string_token, create_token, table_token,
  index_token, on_token, using_token, hash_token, btree_token, insert_token, into_token,
  values_token, select_token, from_token, where_token, and_token, or_token, explain_token,
  int64_token, varchar_token, lparen_token, rparen_token, comma_token, semicolon_token,
  asterisk_token, eq_token, ne_token, lt_token, le_token, gt_token, ge_token, Token, SqlSyntaxError,
  SyntaxMessage, unexpected_character, unterminated_string,
}

pub record Place : Type 0 where
  pub pos : ℕ
  pub line : ℕ
  pub col : ℕ

abbrev pub is_whitespace : ℕ → Bool
is_whitespace c = c == b' ' || c == 9 || c == 13 || c == 10

abbrev pub is_digit : ℕ → Bool
is_digit c = leb b'0' c && leb c b'9'

abbrev pub is_ident_start : ℕ → Bool
is_ident_start c = leb b'A' c && leb c b'Z' || leb b'a' c && leb c b'z' || c == b'_'

abbrev pub is_ident_part : ℕ → Bool
is_ident_part c = is_ident_start c || is_digit c

-- `peek` and, on the runes behind the next one, `peekNext`
abbrev pub peek : List ℕ → ℕ
peek [] = 0
peek (c ∷ cs) = c

-- `advance` over the rune `c`
unfoldable pub advance : ℕ → Place → Place
advance c p =
    if c == 10
    then record { pos = p.pos + 1; line = p.line + 1; col = 1 }
    else record { pos = p.pos + 1; line = p.line; col = p.col + 1 }

-- `WriteRune` of a `strings.Builder`: UTF-8
unfoldable pub write_rune : ℕ → Bytes
write_rune c =
    if ltb c 0x80
    then c ∷ []
    else if ltb c 0x800
    then (0xc0 + c / 64) ∷ (0x80 + c % 64) ∷ []
    else if ltb c 0x10000
    then (0xe0 + c / 4096) ∷ (0x80 + c / 64 % 64) ∷ (0x80 + c % 64) ∷ []
    else (0xf0 + c / 262144) ∷ (0x80 + c / 4096 % 64) ∷ (0x80 + c / 64 % 64) ∷ (0x80 + c % 64) ∷ []

-- what a read leaves: the builder's text, the runes that are left and the place
pub record Scan : Type 0 where
  pub text : Bytes
  pub rest : List ℕ
  pub place : Place

abbrev pub written : Bytes → Scan → Scan
written b s = record { text = b ++ s.text; rest = s.rest; place = s.place }

-- the loops `for !eof && test(peek) { WriteRune; advance }`, and `consumeWhitespace`, which writes nothing
unfoldable pub scan_while : (ℕ → Bool) → List ℕ → Place → Scan
scan_while test [] p = record { text = []; rest = []; place = p }
scan_while test (c ∷ cs) p =
    let more = written (write_rune c) (scan_while test cs (advance c p)) in
    if test c then more else record { text = []; rest = c ∷ cs; place = p }

-- the loop of `readString` and the `advance` behind it; `none` is the end of the input
unfoldable pub scan_string : List ℕ → Place → Option Scan
scan_string [] p = none
scan_string (c ∷ []) p =
    if c == b'\'' then some (record { text = []; rest = []; place = advance c p }) else none
scan_string (c ∷ d ∷ cs) p = elim (c == b'\'') [
  | true ↦ elim (d == b'\'') [
    | true ↦ Option.map (written (write_rune b'\'')) (scan_string cs (advance d (advance c p)))
    | false ↦ some (record { text = []; rest = d ∷ cs; place = advance c p })
  ]
  | false ↦ Option.map (written (write_rune c)) (scan_string (d ∷ cs) (advance c p))
]

abbrev pub keywords : List (Bytes × TokenType)
keywords =
    (codes "CREATE", create_token)
    ∷ (codes "TABLE", table_token)
    ∷ (codes "INDEX", index_token)
    ∷ (codes "ON", on_token)
    ∷ (codes "USING", using_token)
    ∷ (codes "HASH", hash_token)
    ∷ (codes "BTREE", btree_token)
    ∷ (codes "INSERT", insert_token)
    ∷ (codes "INTO", into_token)
    ∷ (codes "VALUES", values_token)
    ∷ (codes "SELECT", select_token)
    ∷ (codes "FROM", from_token)
    ∷ (codes "WHERE", where_token)
    ∷ (codes "AND", and_token)
    ∷ (codes "OR", or_token)
    ∷ (codes "EXPLAIN", explain_token)
    ∷ (codes "INT64", int64_token)
    ∷ (codes "VARCHAR", varchar_token)
    ∷ []

unfoldable pub find_keyword : List (Bytes × TokenType) → Bytes → TokenType
find_keyword [] name = ident_token
find_keyword ((word, t) ∷ more) name = if eq_bytes word name then t else find_keyword more name

-- An identifier is ASCII.
abbrev pub keyword_or_ident : Bytes → TokenType
keyword_or_ident text = find_keyword keywords (upper text)

-- what a round of the loop of `Tokenize` comes to: the token it appends, if any, and the state behind it
pub record Round : Type 0 where
  pub token : Option Token
  pub rest : List ℕ
  pub place : Place

-- `NewToken` with the place where it begins and the one behind it
abbrev pub new_token : TokenType → Bytes → Place → Place → Token
new_token t text start stop = record {
  token_type = t;
  text = text;
  start_offset = start.pos;
  end_offset = stop.pos;
  line = start.line;
  column = start.col;
}

abbrev pub syntax_error : SyntaxMessage → Place → SqlSyntaxError
syntax_error m p = record { message = m; offset = p.pos; line = p.line; column = p.col }

abbrev pub emitted : TokenType → Place → Scan → Round
emitted t start s = record {
  token = some (new_token t s.text start s.place);
  rest = s.rest;
  place = s.place;
}

abbrev pub read_ident_or_keyword : List ℕ → Place → Round
read_ident_or_keyword cs p =
    let s = scan_while is_ident_part cs p in emitted (keyword_or_ident s.text) p s

-- The sign is written, then the digits.
unfoldable pub read_number : List ℕ → Place → Round
read_number [] p = emitted number_token p (record { text = []; rest = []; place = p })
read_number (c ∷ cs) p =
    if c == b'-'
    then emitted number_token p (written (write_rune c) (scan_while is_digit cs (advance c p)))
    else emitted number_token p (scan_while is_digit (c ∷ cs) p)

abbrev pub string_from : Place → Option Scan → Outcome SqlSyntaxError Round
string_from p none = err (syntax_error unterminated_string p)
string_from p (some s) = ok (emitted string_token p s)

-- `readString`: the opening quote `c` stands at `p`, with `cs` behind it
abbrev pub read_string : ℕ → List ℕ → Place → Outcome SqlSyntaxError Round
read_string c cs p = string_from p (scan_string cs (advance c p))

-- a token of one rune or two, from the runes behind its first one, `c`
abbrev pub single : TokenType → ℕ → List ℕ → Place → Round
single t c cs p = emitted t p (record { text = c ∷ []; rest = cs; place = advance c p })

abbrev pub double : TokenType → ℕ → ℕ → List ℕ → Place → Round
double t c d cs p =
    emitted t p (record { text = c ∷ d ∷ []; rest = cs; place = advance d (advance c p) })

unfoldable pub handle_lt : List ℕ → Place → Outcome SqlSyntaxError Round
handle_lt [] p = ok (single lt_token b'<' [] p)
handle_lt (d ∷ ds) p =
    if d == b'='
    then ok (double le_token b'<' d ds p)
    else if d == b'>'
    then ok (double ne_token b'<' d ds p)
    else ok (single lt_token b'<' (d ∷ ds) p)

unfoldable pub handle_gt : List ℕ → Place → Outcome SqlSyntaxError Round
handle_gt [] p = ok (single gt_token b'>' [] p)
handle_gt (d ∷ ds) p =
    if d == b'=' then ok (double ge_token b'>' d ds p) else ok (single gt_token b'>' (d ∷ ds) p)

unfoldable pub handle_bang : List ℕ → Place → Outcome SqlSyntaxError Round
handle_bang [] p = err (syntax_error (unexpected_character b'!') p)
handle_bang (d ∷ ds) p =
    if d == b'='
    then ok (double ne_token b'!' d ds p)
    else err (syntax_error (unexpected_character b'!') p)

-- the map `handler`
unfoldable pub handle : ℕ → List ℕ → Place → Outcome SqlSyntaxError Round
handle c cs p =
    if c == b'('
    then ok (single lparen_token c cs p)
    else if c == b')'
    then ok (single rparen_token c cs p)
    else if c == b','
    then ok (single comma_token c cs p)
    else if c == b';'
    then ok (single semicolon_token c cs p)
    else if c == b'*'
    then ok (single asterisk_token c cs p)
    else if c == b'='
    then ok (single eq_token c cs p)
    else if c == b'<'
    then handle_lt cs p
    else if c == b'>'
    then handle_gt cs p
    else if c == b'!'
    then handle_bang cs p
    else err (syntax_error (unexpected_character c) p)

abbrev pub skipped : Scan → Round
skipped s = record { token = none; rest = s.rest; place = s.place }

-- one round of the loop of `Tokenize`, at the rune `c` with `cs` behind it
unfoldable pub round : ℕ → List ℕ → Place → Outcome SqlSyntaxError Round
round c cs p =
    if is_whitespace c
    then ok (skipped (scan_while is_whitespace (c ∷ cs) p))
    else if is_ident_start c
    then ok (read_ident_or_keyword (c ∷ cs) p)
    else if is_digit c || c == b'-' && is_digit (peek cs)
    then ok (read_number (c ∷ cs) p)
    else if c == b'\''
    then read_string c cs p
    else handle c cs p

abbrev pub appended :
    Option Token → Outcome SqlSyntaxError (List Token) → Outcome SqlSyntaxError (List Token)
appended (some t) (ok ts) = ok (t ∷ ts)
appended _ out = out

abbrev pub eof_at : Place → Token
eof_at p = new_token eof_token [] p p

-- what `Tokenize` returns, inside what a run of its loop comes to; `none` is only the end of the fuel
abbrev pub Lexed : Type 0
Lexed = Option (Outcome SqlSyntaxError (List Token))

abbrev pub next_round : (List ℕ → Place → Lexed) → Outcome SqlSyntaxError Round → Lexed
next_round more (ok r) = Option.map (appended r.token) (more r.rest r.place)
next_round more (err e) = some (err e)
next_round more panic = some panic

-- The loop of `Tokenize`
unfoldable pub tokens_from : ℕ → List ℕ → Place → Lexed
tokens_from fuel [] p = some (ok (eof_at p ∷ []))
tokens_from zero (c ∷ cs) p = none
tokens_from (suc fuel) (c ∷ cs) p = next_round (tokens_from fuel) (round c cs p)

abbrev pub origin : Place
origin = record { pos = 0; line = 1; col = 1 }

-- `Tokenize`, on the runes of the statement
unfoldable pub tokenize : List ℕ → Lexed
tokenize input = tokens_from (length input) input origin
