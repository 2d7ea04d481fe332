-- ===== src/Parser/Total.antt =====
-- The parser's fuel is enough on tokens that end in `EOF`.
use gopher_db.Base.{ℕ, zero, suc, ◌+◌, ◌≤◌, ◌<◌, ◌≡◌, refl, false, ◌∷◌, Option, none, some, arith}
use gopher_db.Base.Int.{ℤ}
use gopher_db.Bytes.Copy.{Bytes}
use gopher_db.Lexer.Tokens.{
  TokenType, eof_token, ident_token, number_token, string_token, lparen_token, rparen_token,
  and_token, or_token, comma_token, same_type, Token, invalid_number,
}
use gopher_db.Parser.{
  comparison_op, parse_literal, comma_more, comma_list, paren_list, primary_at, parse_primary,
  comparison_rest, parse_comparison, binary_more, binary_left, parse_conjunction, parse_expr,
  literal_of, int64_literal,
}
use gopher_db.Parser.Number.{parse_int}
use gopher_db.Parser.State.{
  Cursor, Parser, ◌>>=◌, ◌>>◌, pure, current_type, advance, step, matches, expect, expect_ident,
}
use gopher_db.Semantic.{
  Expr, column_ref_expr, literal_int64_expr, literal_string_expr, binary_expr, Op, and_op, or_op,
}
use gopher_db.Parser.Fuel.{
  Closed, left, Good, Ends, Good-weaken, Ends-bind, advance-Closed, Ends-step, Ends-pure, Good-if,
  Ends-expect, Ends-expect_ident, Ends-past, Ends-failed, matches-ne, Ends-weaken,
}

pub comma_more-Ends :
    {A : Type 0} (fuel n : ℕ) (item : Parser A)
    → n < fuel
    → Ends n item
    → Ends n (comma_more fuel item)
unfolding comma_more
comma_more-Ends zero n item h e = absurd (omega arith)
comma_more-Ends {A} (suc fuel) n item h e = record {
  run = λ c closed le.
      Good-if (left c) (matches comma_token c) _ _
        (λ comma.
          Ends-past c (do x ← item; xs ← comma_more fuel item; pure (x ∷ xs)) closed
            (matches-ne comma_token c comma refl)
            λ m fewer. Ends-bind m item _ (Ends-weaken m n item (omega arith) e) λ x.
              Ends-bind m (comma_more fuel item) _
                (comma_more-Ends fuel m item (omega arith) (Ends-weaken m n item (omega arith) e))
                λ xs. Ends-pure m (x ∷ xs))
        (λ _. (closed, omega arith));
}

pub comma_list-Ends :
    {A : Type 0} (fuel n : ℕ) (item : Parser A)
    → n < fuel
    → Ends n item
    → Ends n (comma_list fuel item)
comma_list-Ends fuel n item h e = Ends-bind n item _ e λ x.
    Ends-bind n (comma_more fuel item) _ (comma_more-Ends fuel n item h e)
      λ xs. Ends-pure n (x ∷ xs)

pub paren_list-Ends :
    {A : Type 0} (fuel n : ℕ) (item : Parser A)
    → n < fuel
    → Ends n item
    → Ends n (paren_list fuel item)
paren_list-Ends fuel n item h e =
    Ends-bind n (expect lparen_token) _ (Ends-expect n lparen_token) λ _.
      Ends-bind n (comma_list fuel item) _ (comma_list-Ends fuel n item h e) λ items.
        Ends-bind n (expect rparen_token) _ (Ends-expect n rparen_token) λ _. Ends-pure n items

int64_literal-Ends : (n : ℕ) (text : Bytes) (z : Option ℤ) → Ends n (int64_literal text z)
int64_literal-Ends n text none = Ends-failed n (invalid_number text)
int64_literal-Ends n text (some z) = Ends-pure n (literal_int64_expr z)

literal_of-Ends : (n : ℕ) (t : Token) (k : TokenType) → Ends n (literal_of t k)
literal_of-Ends n t number_token = int64_literal-Ends n t.text (parse_int t.text)
literal_of-Ends n t _ = Ends-pure n (literal_string_expr t.text)

pub parse_literal-Ends : (n : ℕ) → Ends n parse_literal
unfolding parse_literal
parse_literal-Ends n = record {
  run = λ c closed le.
      let (closed', le') = advance-Closed c closed in
      Good-weaken (left (advance c)) (left c) (literal_of c.current (current_type c) (advance c))
        le' ((literal_of-Ends n c.current (current_type c)).run (advance c) closed' (omega arith));
}

-- `expr` stays within its fuel where fewer than `n` tokens are left
abbrev EndsBelow : ℕ → Parser Expr → Type 0
EndsBelow n expr = (m : ℕ) → m < n → Ends m expr

primary_at-Good :
    (n : ℕ) (expr : Parser Expr) (k : TokenType) (c : Cursor)
    → EndsBelow n expr
    → Closed c
    → left c ≤ n
    → current_type c ≡ k
    → Good (left c) (primary_at expr k c)
primary_at-Good n expr ident_token c e closed le at =
    (Ends-bind n expect_ident (λ name. pure (column_ref_expr name)) (Ends-expect_ident n)
        (λ name. Ends-pure n (column_ref_expr name))).run
      c closed le
primary_at-Good n expr number_token c e closed le at = (parse_literal-Ends n).run c closed le
primary_at-Good n expr string_token c e closed le at = (parse_literal-Ends n).run c closed le
primary_at-Good n expr lparen_token c e closed le at =
    Ends-past c (do x ← expr; expect rparen_token; pure x) closed (λ eof. cc (at, eof))
      λ m fewer.
        Ends-bind m expr _ (e m (omega arith))
          λ x. Ends-bind m (expect rparen_token) _ (Ends-expect m rparen_token) λ _. Ends-pure m x
primary_at-Good n expr _ c e closed le at = tt

parse_primary-Ends : (n : ℕ) (expr : Parser Expr) → EndsBelow n expr → Ends n (parse_primary expr)
parse_primary-Ends n expr e = record {
  run = λ c closed le. primary_at-Good n expr (current_type c) c e closed le refl;
}

comparison_rest-Ends :
    (n : ℕ) (expr : Parser Expr) (l : Expr) (op : Option Op)
    → EndsBelow n expr
    → Ends n (comparison_rest expr l op)
comparison_rest-Ends n expr l none e = Ends-pure n l
comparison_rest-Ends n expr l (some op) e = Ends-bind n step _ (Ends-step n) λ _.
    Ends-bind n (parse_primary expr) (λ r. pure (binary_expr op l r)) (parse_primary-Ends n expr e)
      λ r. Ends-pure n (binary_expr op l r)

parse_comparison-Ends :
    (n : ℕ) (expr : Parser Expr) → EndsBelow n expr → Ends n (parse_comparison expr)
parse_comparison-Ends n expr e =
    Ends-bind n (parse_primary expr) _ (parse_primary-Ends n expr e) λ l. record {
      run = λ c. (comparison_rest-Ends n expr l (comparison_op (current_type c)) e).run c;
    }

binary_more-Ends :
    (fuel n : ℕ) (next : Parser Expr) (t : TokenType) (op : Op) (l : Expr)
    → n < fuel
    → same_type eof_token t ≡ false
    → Ends n next
    → Ends n (binary_more fuel next t op l)
unfolding binary_more
binary_more-Ends zero n next t op l h k e = absurd (omega arith)
binary_more-Ends (suc fuel) n next t op l h k e = record {
  run = λ c closed le.
      Good-if (left c) (matches t c) _ _
        (λ more.
          Ends-past c (do r ← next; binary_more fuel next t op (binary_expr op l r)) closed
            (matches-ne t c more k)
            λ m fewer.
              let e' = Ends-weaken m n next (omega arith) e in
              Ends-bind m next _ e'
                λ r. binary_more-Ends fuel m next t op (binary_expr op l r) (omega arith) k e')
        (λ _. (closed, omega arith));
}

binary_left-Ends :
    (fuel n : ℕ) (next : Parser Expr) (t : TokenType) (op : Op)
    → n < fuel
    → same_type eof_token t ≡ false
    → Ends n next
    → Ends n (binary_left fuel next t op)
binary_left-Ends fuel n next t op h k e =
    Ends-bind n next _ e λ l. binary_more-Ends fuel n next t op l h k e

pub parse_expr-Ends : (fuel n : ℕ) → n + 1 < fuel → Ends n (parse_expr fuel)
unfolding parse_expr
parse_expr-Ends zero n h = absurd (omega arith)
parse_expr-Ends (suc fuel) n h =
    let below : EndsBelow n (parse_expr fuel) = λ m less. parse_expr-Ends fuel m (omega arith) in
    binary_left-Ends fuel n (parse_conjunction fuel (parse_expr fuel)) or_token or_op (omega arith)
      refl
      (binary_left-Ends fuel n (parse_comparison (parse_expr fuel)) and_token and_op (omega arith)
        refl (parse_comparison-Ends n (parse_expr fuel) below))
