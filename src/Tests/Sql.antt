-- ===== src/Tests/Sql.antt =====
-- Statements through the lexer, the parser and the analyzer.
use gopher_db.Analyzer.CreateTable.{Creates, analyze_create_table-Creates}
use gopher_db.Analyzer.{
  Lookups, analyze_create_table, create_columns, seen_name, normalize_type_name,
}
use gopher_db.Ast.{CreateTableStmt, Statement, select_stmt, insert_stmt}
use gopher_db.Base.Int.{pos, negsuc}
use gopher_db.Base.Outcome.{Outcome, ok, err}
use gopher_db.Base.Select.{All}
use gopher_db.Base.Text.{codes}
use gopher_db.Base.{
  map, ℕ, ◌≡◌, ◌↔◌, refl, true, List, [], ◌∷◌, ◌++◌, none, some, arith, if◌then◌else◌,
}
use gopher_db.Bytes.Compare.{eq_bytes}
use gopher_db.Catalog.TypeDefinition.{TypeDefinition}
use gopher_db.Lexer.Bounds.{Placed, Ordered, tokenize-Placed}
use gopher_db.Lexer.Cover.{Explains, tokenize-Explains}
use gopher_db.Lexer.Lexeme.{
  Lexeme, word, numeral, quoted, symbol, open_paren, close_paren, asterisk, equal, greater_equal,
  encode, IsLexeme, print, located,
}
use gopher_db.Lexer.RoundTrip.{tokenize-print}
use gopher_db.Lexer.Tokens.{
  Token, SqlSyntaxError, select_token, asterisk_token, lt_token, eof_token, unterminated_string,
}
use gopher_db.Lexer.{
  keyword_or_ident, Place, origin, advance, write_rune, find_keyword, scan_while, scan_string,
  handle_lt, handle, round, tokens_from, tokenize,
}
use gopher_db.Parser.Grammar.{
  IsStatement, is_select, all_columns, is_where, IsExpr, is_column, is_literal, is_number,
  is_string, is_comparison, is_factor, is_term, is_and, is_or, operand_level, comparison_level,
  ending,
}
use gopher_db.Parser.Statements.{parse-tokenize-print, parse-insert_word}
use gopher_db.Parser.Whole.{Answers, parse-tokenize_ends}
use gopher_db.Parser.{parse}
use gopher_db.Planner.{CreateTableQueryTree}
use gopher_db.Semantic.{
  column_ref_expr, literal_int64_expr, literal_string_expr, binary_expr, and_op, or_op, eq_op,
  ge_op,
}

-- a statement on two lines
abbrev two_lines : List ℕ
two_lines = codes "SELECT *" ++ 10 ∷ codes " <"

abbrev two_lines_tokens : List Token
two_lines_tokens =
    record {
      token_type = select_token;
      text = codes "SELECT";
      start_offset = 0;
      end_offset = 6;
      line = 1;
      column = 1;
    }
    ∷ record {
      token_type = asterisk_token;
      text = codes "*";
      start_offset = 7;
      end_offset = 8;
      line = 1;
      column = 8;
    }
    ∷ record {
      token_type = lt_token;
      text = codes "<";
      start_offset = 10;
      end_offset = 11;
      line = 2;
      column = 2;
    }
    ∷ record {
      token_type = eof_token;
      text = [];
      start_offset = 11;
      end_offset = 11;
      line = 2;
      column = 3;
    }
    ∷ []

two_lines-tokenized : tokenize two_lines ≡ some (ok two_lines_tokens)
unfolding tokenize tokens_from round scan_while advance write_rune find_keyword eq_bytes handle
    handle_lt
two_lines-tokenized = refl

-- an open quote is an error at the quote
open_quote :
    tokenize (codes "a 'b")
    ≡ some (err (record { message = unterminated_string; offset = 2; line = 1; column = 3 }))
unfolding tokenize tokens_from round scan_while scan_string advance write_rune find_keyword eq_bytes
open_quote = refl

tokenize-Explains_example :
    (out : Outcome SqlSyntaxError (List Token)) × (tokenize two_lines ≡ some out)
    × Explains two_lines origin out
tokenize-Explains_example = tokenize-Explains two_lines

tokenize-Placed_example : All (Placed two_lines) two_lines_tokens × Ordered 0 two_lines_tokens
tokenize-Placed_example = tokenize-Placed two_lines two_lines_tokens two_lines-tokenized

parse-tokenize_ends_example : Answers (parse two_lines_tokens)
parse-tokenize_ends_example = parse-tokenize_ends two_lines two_lines_tokens two_lines-tokenized

-- `select * from t where a >= -7 or ( b = 'it''s' and a >= b )`, with keywords in small letters
abbrev a_statement : Statement
a_statement = select_stmt (record {
  table_name = codes "t";
  select_all = true;
  columns = [];
  condition = some (
      binary_expr or_op
        (binary_expr ge_op (column_ref_expr (codes "a")) (literal_int64_expr (negsuc 6)))
        (binary_expr and_op
          (binary_expr eq_op (column_ref_expr (codes "b"))
            (literal_string_expr (encode (codes "it's"))))
          (binary_expr ge_op (column_ref_expr (codes "a")) (column_ref_expr (codes "b")))));
})

abbrev left_spelling : List Lexeme
left_spelling = word (codes "a") ∷ symbol greater_equal ∷ numeral true (codes "7") ∷ []

abbrev equal_spelling : List Lexeme
equal_spelling = word (codes "b") ∷ symbol equal ∷ quoted (codes "it's") ∷ []

abbrev last_spelling : List Lexeme
last_spelling = word (codes "a") ∷ symbol greater_equal ∷ word (codes "b") ∷ []

abbrev right_spelling : List Lexeme
right_spelling = equal_spelling ++ word (codes "and") ∷ last_spelling

abbrev a_spelling : List Lexeme
a_spelling =
    word (codes "select")
    ∷ symbol asterisk
    ∷ word (codes "from")
    ∷ word (codes "t")
    ∷ word (codes "where")
    ∷ (left_spelling ++ word (codes "or") ∷ right_spelling)

column_a : IsExpr operand_level (column_ref_expr (codes "a")) (word (codes "a") ∷ [])
unfolding find_keyword eq_bytes
column_a = is_column (codes "a") refl

column_b : IsExpr operand_level (column_ref_expr (codes "b")) (word (codes "b") ∷ [])
unfolding find_keyword eq_bytes
column_b = is_column (codes "b") refl

a_spelling-IsStatement : IsStatement a_statement a_spelling
unfolding find_keyword eq_bytes
a_spelling-IsStatement =
    is_select (word (codes "select")) (word (codes "from")) (codes "t") (symbol asterisk ∷ [])
      (word (codes "where") ∷ (left_spelling ++ word (codes "or") ∷ right_spelling)) refl
      all_columns refl refl
      (is_where (word (codes "where")) (left_spelling ++ word (codes "or") ∷ right_spelling) refl (
        is_or (word (codes "or")) left_spelling right_spelling refl (is_term (is_factor at_least))
          (is_and (word (codes "and")) equal_spelling last_spelling refl (is_factor same_text)
            columns_at_least refl)
          refl))
  where
    at_least :
        IsExpr comparison_level
          (binary_expr ge_op (column_ref_expr (codes "a")) (literal_int64_expr (negsuc 6)))
          left_spelling
    at_least =
        is_comparison ge_op greater_equal (word (codes "a") ∷ []) (numeral true (codes "7") ∷ [])
          refl column_a
          (is_literal (is_number true (codes "7") (negsuc 6) (refl, tt) (omega arith, refl))) refl

    same_text :
        IsExpr comparison_level
          (binary_expr eq_op
            (column_ref_expr (codes "b"))
            (literal_string_expr (encode (codes "it's"))))
          equal_spelling
    same_text =
        is_comparison eq_op equal (word (codes "b") ∷ []) (quoted (codes "it's") ∷ []) refl column_b
          (is_literal (is_string (codes "it's"))) refl

    columns_at_least :
        IsExpr comparison_level
          (binary_expr ge_op (column_ref_expr (codes "a")) (column_ref_expr (codes "b")))
          last_spelling
    columns_at_least =
        is_comparison ge_op greater_equal (word (codes "a") ∷ []) (word (codes "b") ∷ []) refl
          column_a column_b refl

a_spelling-IsLexeme : All IsLexeme a_spelling
a_spelling-IsLexeme = ground arith

tokenize-print_example : tokenize (print a_spelling) ≡ some (ok (located a_spelling origin))
tokenize-print_example = tokenize-print a_spelling a_spelling-IsLexeme

parse-tokenize-print_example :
    (tokens : List Token) × (tokenize (print (a_spelling ++ ending true)) ≡ some (ok tokens))
    × (parse tokens ≡ some (ok a_statement))
parse-tokenize-print_example =
    parse-tokenize-print a_statement a_spelling true a_spelling-IsStatement a_spelling-IsLexeme

abbrev some_place : Place
some_place = record { pos = 3; line = 2; col = 1 }

parse-insert_word_example :
    parse (
      located
        (word (codes "INSERT")
          ∷ word (codes "INTO")
          ∷ word (codes "t")
          ∷ word (codes "VALUES")
          ∷ symbol open_paren
          ∷ word (codes "x")
          ∷ symbol close_paren
          ∷ [])
        some_place)
    ≡ some (
        ok (
          insert_stmt
            (record { table_name = codes "t"; values = literal_string_expr (codes "x") ∷ [] })))
unfolding find_keyword eq_bytes
parse-insert_word_example = parse-insert_word (codes "t") (codes "x") some_place refl refl

abbrev int64_type : TypeDefinition
int64_type = record { oid = pos 1; name = codes "INT64"; byte_length = pos 8 }

-- a catalog without tables, with one type
abbrev only_int64 : Lookups
only_int64 = record {
  get_table = λ _. none;
  get_columns = λ _. none;
  get_column = λ _ _. none;
  get_type = λ _. some int64_type;
  get_type_by_name = λ name. if eq_bytes name (codes "INT64") then some int64_type else none;
  get_index = λ _. none;
}

-- `CREATE TABLE t ( a int, b integer )`
abbrev a_create_table : CreateTableStmt
a_create_table = record {
  table_name = codes "t";
  columns =
      record { name = codes "a"; type_name = codes "INT" }
      ∷ record { name = codes "b"; type_name = codes "INTEGER" }
      ∷ [];
}

abbrev a_create_table_query : CreateTableQueryTree
a_create_table_query = record {
  table_name = codes "t";
  columns = (codes "a", int64_type) ∷ (codes "b", int64_type) ∷ [];
}

analyze_create_table-Creates_example :
    (analyze_create_table only_int64 a_create_table ≡ ok a_create_table_query)
    ↔ Creates only_int64 a_create_table a_create_table_query
analyze_create_table-Creates_example =
    analyze_create_table-Creates only_int64 a_create_table a_create_table_query

a_create_table-analyzed : analyze_create_table only_int64 a_create_table ≡ ok a_create_table_query
unfolding analyze_create_table create_columns seen_name eq_bytes
a_create_table-analyzed = refl

type_names_normalized :
    map normalize_type_name (codes "int" ∷ codes "Integer" ∷ codes "varchar" ∷ [])
    ≡ codes "INT64" ∷ codes "INT64" ∷ codes "VARCHAR" ∷ []
unfolding eq_bytes
type_names_normalized = refl

keyword_in_any_case : keyword_or_ident (codes "Select") ≡ select_token
unfolding find_keyword eq_bytes
keyword_in_any_case = refl
