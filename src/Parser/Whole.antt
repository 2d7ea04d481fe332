-- ===== src/Parser/Whole.antt =====
-- Every statement is parsed or refused: the lexer's tokens end in `EOF`, and the parser stays within its fuel.
use gopher_db.Ast.{Statement}
use gopher_db.Base.Outcome.{Outcome, ok, err, panic}
use gopher_db.Base.{
  ℕ, zero, suc, ◌+◌, ◌<◌, ◌≡◌, refl, List, [], ◌∷◌, Option, none, some, arith, length,
}
use gopher_db.Lexer.{Place, origin, tokenize}
use gopher_db.Lexer.Cover.{Covers, covers_end, covers_space, covers_token, tokenize-Covers}
use gopher_db.Lexer.Places.{moved}
use gopher_db.Lexer.Tokens.{
  TokenType, eof_token, create_token, explain_token, insert_token, select_token, table_token,
  index_token, semicolon_token, Token, SqlSyntaxError,
}
use gopher_db.Parser.{
  create_at, parse_create, parse_explain, statement_at, parse_statement, outcome, whole_statement,
  parse,
}
use gopher_db.Parser.Fuel.{LastIsEof, Closed, left, Good, Ends, Ends-bind, Ends-pure}
use gopher_db.Parser.State.{
  Cursor, Parsed, parsed, syntax, out_of_fuel, Parser, ◌>>◌, pure, current_type, expect,
}
use gopher_db.Parser.Within.{
  Runs, Runs-step, after_skip, after_expect, parse_create_table-Runs, parse_create_index-Runs,
  parse_insert-Runs, parse_select-Runs,
}

create_at-Good :
    (fuel : ℕ) (k : TokenType) (c : Cursor)
    → Closed c
    → left c < fuel
    → current_type c ≡ k
    → Good (left c) (create_at fuel k c)
create_at-Good fuel table_token c closed h at =
    (parse_create_table-Runs fuel (left c) (omega arith)).run c closed (λ e. cc (at, e))
      (omega arith)
create_at-Good fuel index_token c closed h at =
    (parse_create_index-Runs fuel (left c) (omega arith)).run c closed (λ e. cc (at, e))
      (omega arith)
create_at-Good fuel _ c closed h at = tt

parse_create-Runs : (fuel n : ℕ) → n < fuel → Runs n (parse_create fuel)
unfolding parse_create
parse_create-Runs fuel n h = Runs-step n _ λ m less. record {
  run = λ c closed le. create_at-Good fuel (current_type c) c closed (omega arith) refl;
}

parse_explain-Runs :
    (n : ℕ) (inner : Parser Statement)
    → ((m : ℕ) → m < n → Ends m inner)
    → Runs n (parse_explain inner)
parse_explain-Runs n inner h =
    Runs-step n _
      λ m less. Ends-bind m inner _ (h m less) λ s. after_skip m semicolon_token _ (Ends-pure m _)

statement_at-Good :
    (fuel : ℕ) (inner : Parser Statement) (k : TokenType) (c : Cursor)
    → ((m : ℕ) → m < left c → Ends m inner)
    → Closed c
    → left c < fuel
    → current_type c ≡ k
    → Good (left c) (statement_at fuel inner k c)
statement_at-Good fuel inner explain_token c e closed h at =
    (parse_explain-Runs (left c) inner e).run c closed (λ eof. cc (at, eof)) (omega arith)
statement_at-Good fuel inner create_token c e closed h at =
    (parse_create-Runs fuel (left c) h).run c closed (λ eof. cc (at, eof)) (omega arith)
statement_at-Good fuel inner insert_token c e closed h at =
    (parse_insert-Runs fuel (left c) (omega arith)).run c closed (λ eof. cc (at, eof)) (omega arith)
statement_at-Good fuel inner select_token c e closed h at =
    (parse_select-Runs fuel (left c) h).run c closed (λ eof. cc (at, eof)) (omega arith)
statement_at-Good fuel inner _ c e closed h at = tt

parse_statement-Ends : (fuel n : ℕ) → n + 1 < fuel → Ends n (parse_statement fuel)
unfolding parse_statement
parse_statement-Ends zero n h = absurd (omega arith)
parse_statement-Ends (suc fuel) n h = record {
  run = λ c closed le.
      statement_at-Good fuel (parse_statement fuel) (current_type c) c
        (λ m less. parse_statement-Ends fuel m (omega arith)) closed (omega arith) refl;
}

-- `r` is a value or an error
abbrev pub Answers : Option (Outcome SqlSyntaxError Statement) → Type 0
Answers none = ⊥
Answers (some (ok s)) = Unit
Answers (some (err e)) = Unit
Answers (some panic) = ⊥

outcome-Answers : (n : ℕ) (r : Parsed Statement) → Good n r → Answers (outcome r)
outcome-Answers n (parsed s c) h = tt
outcome-Answers n (syntax e) h = tt
outcome-Answers n out_of_fuel h = h

parse-Answers : (t : Token) (ts : List Token) → LastIsEof t ts → Answers (parse (t ∷ ts))
unfolding parse
parse-Answers t ts closed =
    let c : Cursor = record { current = t; later = ts } in
    let n = length ts in
    outcome-Answers n (whole_statement (n + 2) c) (
      (Ends-bind n (parse_statement (n + 2)) (λ s. do expect eof_token; pure s)
          (parse_statement-Ends (n + 2) n (omega arith))
          (λ s. after_expect n eof_token (pure s) (Ends-pure n s))).run
        c closed (omega arith))

-- the lexer's tokens end in `EOF`
abbrev EndInEof : List Token → Type 0
EndInEof [] = ⊥
EndInEof (t ∷ ts) = LastIsEof t ts

Covers-EndInEof : (cs : List ℕ) (p : Place) (ts : List Token) → Covers cs p ts → EndInEof ts
Covers-EndInEof cs p ts covers_end = refl
Covers-EndInEof cs p ts (covers_space gap rest split blank h) =
    Covers-EndInEof rest (moved gap p) ts h
Covers-EndInEof cs p ts (covers_token {ts = later} t c used rest split spans h) =
    behind later (Covers-EndInEof rest (moved (c ∷ used) p) later h)
  where
    behind : (us : List Token) → EndInEof us → LastIsEof t us
    behind [] e = absurd e
    behind (u ∷ us) e = e

EndInEof-Answers : (ts : List Token) → EndInEof ts → Answers (parse ts)
EndInEof-Answers [] h = absurd h
EndInEof-Answers (t ∷ ts) h = parse-Answers t ts h

-- On the tokens that `Tokenize` makes of any statement, `Parse` ends with a statement or an error: it neither
-- runs on nor panics, whatever the nesting of parentheses, lists and `EXPLAIN`s.
pub parse-tokenize_ends :
    (input : List ℕ) (ts : List Token) → tokenize input ≡ some (ok ts) → Answers (parse ts)
parse-tokenize_ends input ts h =
    EndInEof-Answers ts (Covers-EndInEof input origin ts (tokenize-Covers input ts h))
