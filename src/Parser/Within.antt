-- ===== src/Parser/Within.antt =====
-- The parsers of the statements stay within their fuel.
use gopher_db.Ast.{Statement}
use gopher_db.Base.{ℕ, ◌+◌, ◌≤◌, ◌<◌, ◌≢◌, false, Option, none, some, arith}
use gopher_db.Bytes.Copy.{Bytes}
use gopher_db.Catalog.IndexDefinition.{IndexType}
use gopher_db.Lexer.Tokens.{
  TokenType, eof_token, on_token, lparen_token, rparen_token, using_token, into_token, values_token,
  from_token, asterisk_token, where_token, semicolon_token,
}
use gopher_db.Parser.{
  comma_list, paren_list, parse_literal, parse_expr, parse_column_def, is_type_token,
  parse_create_table, index_type_at, index_type_of, parse_create_index, parse_insert, parse_columns,
  parse_where, parse_select,
}
use gopher_db.Parser.Fuel.{
  Closed, left, Good, Ends, Ends-bind, advance-Closed, Ends-step, Ends-pure, Good-if, Ends-expect,
  Ends-skip, Ends-expect_ident, Ends-past,
}
use gopher_db.Parser.State.{
  Cursor, Parser, ◌>>=◌, ◌>>◌, pure, current_type, step, matches, skip, expect, expect_ident,
}
use gopher_db.Parser.Total.{comma_list-Ends, paren_list-Ends, parse_literal-Ends, parse_expr-Ends}

-- the rules for a sequence, with the first part's rule put in
module _ {B : Type 0} (n : ℕ) where
  pub after_expect : (t : TokenType) (p : Parser B) → Ends n p → Ends n (expect t >> p)
  after_expect t p h = Ends-bind n (expect t) (λ _. p) (Ends-expect n t) (λ _. h)

  after_ident : (f : Bytes → Parser B) → ((s : Bytes) → Ends n (f s)) → Ends n (expect_ident >>= f)
  after_ident f h = Ends-bind n expect_ident f (Ends-expect_ident n) h

  pub after_skip : (t : TokenType) (p : Parser B) → Ends n p → Ends n (skip t >> p)
  after_skip t p h = Ends-bind n (skip t) (λ _. p) (Ends-skip n t) (λ _. h)

parse_column_def-Ends : (n : ℕ) → Ends n parse_column_def
unfolding parse_column_def
parse_column_def-Ends n = after_ident n _ λ name. record {
  run = λ c closed le.
      Good-if (left c) (is_type_token (current_type c)) _ _ (λ _. advance-Closed c closed)
        (λ _. tt);
}

index_type_at-Good :
    (c : Cursor) (t : Option IndexType) → Closed c → Good (left c) (index_type_at t c)
index_type_at-Good c none closed = tt
index_type_at-Good c (some t) closed = advance-Closed c closed

-- At a token that is not `EOF`, with at most `n` tokens left, a statement's parser stays within its fuel.
pub record Runs (n : ℕ) (p : Parser Statement) : Type 0 where
  pub run : (c : Cursor) → Closed c → current_type c ≢ eof_token → left c ≤ n → Good (left c) (p c)

pub Runs-step : (n : ℕ) (p : Parser Statement) → ((m : ℕ) → m < n → Ends m p) → Runs n (step >> p)
Runs-step n p h = record {
  run = λ c closed ne le. Ends-past c p closed ne λ m fewer. h m (omega arith);
}

module _ (fuel n : ℕ) (enough : n < fuel + 1) where
  pub parse_create_table-Runs : Runs n (parse_create_table fuel)
  unfolding parse_create_table
  parse_create_table-Runs = Runs-step n _ λ m less. after_ident m _ λ table_name.
      Ends-bind m (paren_list fuel parse_column_def) _
        (paren_list-Ends fuel m parse_column_def (omega arith) (parse_column_def-Ends m))
        λ columns. after_skip m semicolon_token _ (Ends-pure m _)

  pub parse_create_index-Runs : Runs n parse_create_index
  unfolding parse_create_index
  parse_create_index-Runs = Runs-step n _ λ m less. after_ident m _ λ index_name.
      after_expect m on_token _ (
        after_ident m _ λ table_name. after_expect m lparen_token _ (
          after_ident m _ λ column_name. after_expect m rparen_token _ (
            after_expect m using_token _ (
              Ends-bind m (λ c. index_type_at (index_type_of (current_type c)) c) _
                (record {
                  run = λ c closed le. index_type_at-Good c (index_type_of (current_type c)) closed;
                })
                λ index_type. after_skip m semicolon_token _ (Ends-pure m _)))))

  pub parse_insert-Runs : Runs n (parse_insert fuel)
  unfolding parse_insert
  parse_insert-Runs = Runs-step n _ λ m less. after_expect m into_token _ (
      after_ident m _ λ table_name. after_expect m values_token _ (
        Ends-bind m (paren_list fuel parse_literal) _
          (paren_list-Ends fuel m parse_literal (omega arith) (parse_literal-Ends m))
          λ values. after_skip m semicolon_token _ (Ends-pure m _)))

parse_columns-Ends : (fuel n : ℕ) → n < fuel → Ends n (parse_columns fuel)
parse_columns-Ends fuel n h = record {
  run = λ c closed le.
      Good-if (left c) (matches asterisk_token c) _ _ (λ _. advance-Closed c closed)
        (λ _.
          (Ends-bind n (comma_list fuel expect_ident) (λ columns. pure (false, columns))
              (comma_list-Ends fuel n expect_ident h (Ends-expect_ident n))
              (λ columns. Ends-pure n (false, columns))).run
            c closed le);
}

parse_where-Ends : (fuel n : ℕ) → n + 1 < fuel → Ends n (parse_where fuel)
parse_where-Ends fuel n h = record {
  run = λ c closed le.
      Good-if (left c) (matches where_token c) _ _
        (λ _.
          (Ends-bind n step (λ _. do e ← parse_expr fuel; pure (some e)) (Ends-step n)
              λ _.
                Ends-bind n (parse_expr fuel) (λ e. pure (some e)) (parse_expr-Ends fuel n h)
                  (λ e. Ends-pure n (some e))).run
            c closed le)
        (λ _. (closed, omega arith));
}

pub parse_select-Runs : (fuel n : ℕ) → n < fuel → Runs n (parse_select fuel)
unfolding parse_select
parse_select-Runs fuel n h = Runs-step n _ λ m less.
    Ends-bind m (parse_columns fuel) _ (parse_columns-Ends fuel m (omega arith)) λ which.
      after_expect m from_token _ (
        after_ident m _ λ table_name.
          Ends-bind m (parse_where fuel) _ (parse_where-Ends fuel m (omega arith))
            λ condition. after_skip m semicolon_token _ (Ends-pure m _))
