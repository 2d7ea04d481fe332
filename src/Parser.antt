-- ===== src/Parser.antt =====
-- `internal/core/sql/parser/sql_parser.go`. The parser's state is the token that `current` gives and the tokens
-- behind it, for `tokens` from `pos` on; `current` stays at the last token.
pub mod State
pub mod Number
pub mod Fuel
pub mod Total
pub mod Within
pub mod Whole
pub mod Grammar
pub mod Reads
pub mod Numerals
pub mod Chains
pub mod Expressions
pub mod Lists
pub mod Clauses
pub mod Statements
use gopher_db.Ast.{
  SelectStmt, InsertStmt, CreateIndexStmt, CreateTableStmt, ColumnDef, Statement, select_stmt,
  insert_stmt, create_index_stmt, create_table_stmt, explain_stmt,
}
use gopher_db.Base.Outcome.{Outcome, ok, err, panic}
use gopher_db.Base.Int.{ℤ}
use gopher_db.Base.Text.{upper}
use gopher_db.Base.{
  ℕ, zero, suc, ◌+◌, Bool, true, false, ◌||◌, List, [], ◌∷◌, Option, none, some, length,
  if◌then◌else◌,
}
use gopher_db.Bytes.Copy.{Bytes}
use gopher_db.Catalog.IndexDefinition.{IndexType, index_type_hash, index_type_btree}
use gopher_db.Lexer.Tokens.{
  TokenType, eof_token, ident_token, number_token, string_token, create_token, table_token,
  index_token, on_token, using_token, hash_token, btree_token, insert_token, into_token,
  values_token, select_token, from_token, where_token, and_token, or_token, explain_token,
  int64_token, varchar_token, lparen_token, rparen_token, comma_token, semicolon_token,
  asterisk_token, eq_token, ne_token, lt_token, le_token, gt_token, ge_token, Token, SqlSyntaxError,
  unexpected_token, expected_table_or_index, expected_type_name, expected_hash_or_btree,
  invalid_number,
}
use gopher_db.Parser.State.{
  Cursor, Parsed, parsed, syntax, out_of_fuel, Parser, ◌>>=◌, ◌>>◌, pure, current_type, advance,
  step, matches, skip, expect, expect_ident, failed,
}
use gopher_db.Parser.Number.{parse_int}
use gopher_db.Semantic.{
  Expr, column_ref_expr, literal_int64_expr, literal_string_expr, binary_expr, Op, and_op, or_op,
  eq_op, ne_op, lt_op, le_op, gt_op, ge_op,
}

abbrev pub comparison_op : TokenType → Option Op
comparison_op eq_token = some eq_op
comparison_op ne_token = some ne_op
comparison_op lt_token = some lt_op
comparison_op le_token = some le_op
comparison_op gt_token = some gt_op
comparison_op ge_token = some ge_op
comparison_op _ = none

abbrev pub index_type_of : TokenType → Option IndexType
index_type_of hash_token = some index_type_hash
index_type_of btree_token = some index_type_btree
index_type_of _ = none

abbrev pub is_type_token : TokenType → Bool
is_type_token int64_token = true
is_type_token varchar_token = true
is_type_token ident_token = true
is_type_token _ = false

-- a number is read after the `advance`, so that its error stands at the next token
abbrev pub int64_literal : Bytes → Option ℤ → Parser Expr
int64_literal text none = failed (invalid_number text)
int64_literal text (some n) = pure (literal_int64_expr n)

abbrev pub literal_of : Token → TokenType → Parser Expr
literal_of t number_token = int64_literal t.text (parse_int t.text)
literal_of t _ = pure (literal_string_expr t.text)

unfoldable pub parse_literal : Parser Expr
parse_literal c = literal_of c.current (current_type c) (advance c)

-- The loop of `parseCommaList` behind the first item.
unfoldable pub comma_more : {A : Type 0} → ℕ → Parser A → Parser (List A)
comma_more zero item c = out_of_fuel
comma_more (suc fuel) item c =
    if matches comma_token c
    then (do step; x ← item; xs ← comma_more fuel item; pure (x ∷ xs)) c
    else parsed [] c

abbrev pub comma_list : {A : Type 0} → ℕ → Parser A → Parser (List A)
comma_list fuel item = do x ← item; xs ← comma_more fuel item; pure (x ∷ xs)

abbrev pub paren_list : {A : Type 0} → ℕ → Parser A → Parser (List A)
paren_list fuel item = do
  expect lparen_token
  items ← comma_list fuel item
  expect rparen_token
  pure items

-- `parsePrimary`, where `expr` is `parseExpr`, at a token of this type
abbrev pub primary_at : Parser Expr → TokenType → Parser Expr
primary_at expr ident_token = do name ← expect_ident; pure (column_ref_expr name)
primary_at expr number_token = parse_literal
primary_at expr string_token = parse_literal
primary_at expr lparen_token = do step; e ← expr; expect rparen_token; pure e
primary_at expr t = failed (unexpected_token t)

abbrev pub parse_primary : Parser Expr → Parser Expr
parse_primary expr c = primary_at expr (current_type c) c

abbrev pub comparison_rest : Parser Expr → Expr → Option Op → Parser Expr
comparison_rest expr left none = pure left
comparison_rest expr left (some op) = do
  step
  right ← parse_primary expr
  pure (binary_expr op left right)

abbrev pub parse_comparison : Parser Expr → Parser Expr
parse_comparison expr = do
  left ← parse_primary expr
  (λ c. comparison_rest expr left (comparison_op (current_type c)) c)

-- The loop of `parseBinaryLeft` behind its first operand.
unfoldable pub binary_more : ℕ → Parser Expr → TokenType → Op → Expr → Parser Expr
binary_more zero next t op left c = out_of_fuel
binary_more (suc fuel) next t op left c =
    if matches t c
    then (do step; right ← next; binary_more fuel next t op (binary_expr op left right)) c
    else parsed left c

abbrev pub binary_left : ℕ → Parser Expr → TokenType → Op → Parser Expr
binary_left fuel next t op = do left ← next; binary_more fuel next t op left

abbrev pub parse_conjunction : ℕ → Parser Expr → Parser Expr
parse_conjunction fuel expr = binary_left fuel (parse_comparison expr) and_token and_op

unfoldable pub parse_expr : ℕ → Parser Expr
parse_expr zero c = out_of_fuel
parse_expr (suc fuel) c =
    binary_left fuel (parse_conjunction fuel (parse_expr fuel)) or_token or_op c

unfoldable pub parse_column_def : Parser ColumnDef
parse_column_def = do
  name ← expect_ident
  (λ c.
      if is_type_token (current_type c)
      then parsed (record { name = name; type_name = upper c.current.text }) (advance c)
      else failed (expected_type_name (current_type c)) c)

unfoldable pub parse_create_table : ℕ → Parser Statement
parse_create_table fuel = do
  step
  table_name ← expect_ident
  columns ← paren_list fuel parse_column_def
  skip semicolon_token
  pure (create_table_stmt (record { table_name = table_name; columns = columns }))

abbrev pub index_type_at : Option IndexType → Parser IndexType
index_type_at none c = failed (expected_hash_or_btree (current_type c)) c
index_type_at (some t) c = parsed t (advance c)

unfoldable pub parse_create_index : Parser Statement
parse_create_index = do
  step
  index_name ← expect_ident
  expect on_token
  table_name ← expect_ident
  expect lparen_token
  column_name ← expect_ident
  expect rparen_token
  expect using_token
  index_type ← (λ c. index_type_at (index_type_of (current_type c)) c)
  skip semicolon_token
  pure (
      create_index_stmt (record {
        index_name = index_name;
        table_name = table_name;
        column_name = column_name;
        index_type = index_type;
      }))

abbrev pub create_at : ℕ → TokenType → Parser Statement
create_at fuel table_token = parse_create_table fuel
create_at fuel index_token = parse_create_index
create_at fuel t = failed (expected_table_or_index t)

unfoldable pub parse_create : ℕ → Parser Statement
parse_create fuel = do step; (λ c. create_at fuel (current_type c) c)

unfoldable pub parse_insert : ℕ → Parser Statement
parse_insert fuel = do
  step
  expect into_token
  table_name ← expect_ident
  expect values_token
  values ← paren_list fuel parse_literal
  skip semicolon_token
  pure (insert_stmt (record { table_name = table_name; values = values }))

-- `selectAll` and the columns
abbrev pub parse_columns : ℕ → Parser (Bool × List Bytes)
parse_columns fuel c =
    if matches asterisk_token c
    then parsed (true, []) (advance c)
    else (do columns ← comma_list fuel expect_ident; pure (false, columns)) c

abbrev pub parse_where : ℕ → Parser (Option Expr)
parse_where fuel c =
    if matches where_token c then (do step; e ← parse_expr fuel; pure (some e)) c else parsed none c

unfoldable pub parse_select : ℕ → Parser Statement
parse_select fuel = do
  step
  (all, columns) ← parse_columns fuel
  expect from_token
  table_name ← expect_ident
  condition ← parse_where fuel
  skip semicolon_token
  pure (
      select_stmt (record {
        table_name = table_name;
        select_all = all;
        columns = columns;
        condition = condition;
      }))

abbrev pub parse_explain : Parser Statement → Parser Statement
parse_explain inner = do step; s ← inner; skip semicolon_token; pure (explain_stmt s)

-- the map `stmtParsers`
abbrev pub statement_at : ℕ → Parser Statement → TokenType → Parser Statement
statement_at fuel inner explain_token = parse_explain inner
statement_at fuel inner create_token = parse_create fuel
statement_at fuel inner insert_token = parse_insert fuel
statement_at fuel inner select_token = parse_select fuel
statement_at fuel inner t = failed (unexpected_token t)

unfoldable pub parse_statement : ℕ → Parser Statement
parse_statement zero c = out_of_fuel
parse_statement (suc fuel) c = statement_at fuel (parse_statement fuel) (current_type c) c

abbrev pub outcome : Parsed Statement → Option (Outcome SqlSyntaxError Statement)
outcome (parsed s c) = some (ok s)
outcome (syntax e) = some (err e)
outcome out_of_fuel = none

abbrev pub whole_statement : ℕ → Parser Statement
whole_statement fuel = do s ← parse_statement fuel; expect eof_token; pure s

-- `Parse`; on no token at all, `current` is out of range
unfoldable pub parse : List Token → Option (Outcome SqlSyntaxError Statement)
parse [] = some panic
parse (t ∷ ts) = outcome (whole_statement (length ts + 2) (record { current = t; later = ts }))
