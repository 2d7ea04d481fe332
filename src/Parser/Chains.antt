-- ===== src/Parser/Chains.antt =====
-- Literals, and the loop of `parseBinaryLeft` over the operands of one operator.
use gopher_db.Base.{
  ℕ, suc, ◌+◌, ◌-◌, ◌≤◌, ◌<◌, ◌≡◌, refl, ap, ◌∙◌, Bool, true, false, List, ◌∷◌, ◌++◌, append_assoc,
  arith, length, length-append,
}
use gopher_db.Lexer.Lexeme.{Lexeme, numeral, quoted, behind, type_of}
use gopher_db.Lexer.{Place}
use gopher_db.Lexer.Tokens.{TokenType, number_token, string_token, same_type}
use gopher_db.Parser.{parse_literal, primary_at, parse_primary, binary_more, binary_left}
use gopher_db.Parser.Grammar.{IsLiteral, is_number, is_string}
use gopher_db.Parser.Numerals.{parse_int-Denotes}
use gopher_db.Parser.Reads.{
  cursor, advance-cursor, head_type, current_type-cursor, Reads, Reads-at, same_type_refl,
}
use gopher_db.Parser.State.{parsed, Parser, step, matches}
use gopher_db.Semantic.{Expr, binary_expr, Op}

pub Reads-parse_literal :
    (e : Expr) (ts rest : List Lexeme) → IsLiteral e ts → Reads parse_literal ts e rest
unfolding parse_literal
Reads-parse_literal e ts rest (is_number minus ds z digits denotes) = record {
  read = λ at. (
    behind (numeral minus ds) at,
    rw (parse_int-Denotes minus ds z digits denotes, advance-cursor (numeral minus ds) rest at),
  );
}
Reads-parse_literal e ts rest (is_string s) = record {
  read = λ at. (behind (quoted s) at, rw (advance-cursor (quoted s) rest at));
}

pub literal_head :
    (e : Expr) (ts rest : List Lexeme) (expr : Parser Expr)
    → IsLiteral e ts
    → Reads (parse_primary expr) ts e rest
literal_head e ts rest expr (is_number minus ds z digits denotes) =
    Reads-at (primary_at expr) number_token ts rest refl
      (Reads-parse_literal e ts rest (is_number minus ds z digits denotes))
literal_head e ts rest expr (is_string s) =
    Reads-at (primary_at expr) string_token ts rest refl
      (Reads-parse_literal e ts rest (is_string s))

-- A chain of `n` more operands with the operator `op` between them is read off by a loop with that much fuel.
abbrev pub ReadsLeft : Parser Expr → TokenType → Op → List Lexeme → Expr → List Lexeme → Type 0
ReadsLeft next t op ts e rest =
    (n : ℕ) × (n ≤ length ts)
    × ((fuel g : ℕ) (at : Place)
        → fuel ≡ n + g
        → (at' : Place) × (binary_left fuel next t op (cursor (ts ++ rest) at)
            ≡ binary_more g next t op e (cursor rest at')))

pub ReadsLeft-one :
    (next : Parser Expr) (t : TokenType) (op : Op) (ts : List Lexeme) (e : Expr)
    (rest : List Lexeme)
    → Reads next ts e rest
    → ReadsLeft next t op ts e rest
ReadsLeft-one next t op ts e rest r = (
  0,
  omega arith,
  λ fuel g at same.
      let (at', h) = r.read at in
      (at', rw h (ap (λ (k : ℕ). binary_more k next t op e (cursor rest at')) (omega arith))),
)

matches-cursor :
    (t : TokenType) (b : Bool) (ts : List Lexeme) (at : Place)
    → same_type (head_type ts) t ≡ b
    → matches t (cursor ts at) ≡ b
matches-cursor t b ts at h = rw (current_type-cursor ts at) h

binary_more-stop :
    (g : ℕ) (next : Parser Expr) (t : TokenType) (op : Op) (e : Expr) (rest : List Lexeme)
    (at : Place)
    → same_type (head_type rest) t ≡ false
    → binary_more (suc g) next t op e (cursor rest at) ≡ parsed e (cursor rest at)
unfolding binary_more
binary_more-stop g next t op e rest at h = rw (matches-cursor t false rest at h)

binary_more-next :
    (g : ℕ) (next : Parser Expr) (t : TokenType) (op : Op) (l r : Expr) (keyword : Lexeme)
    (vs rest : List Lexeme) (at : Place)
    → type_of keyword ≡ t
    → Reads next vs r rest
    → (at' : Place) × (binary_more (suc g) next t op l (cursor (keyword ∷ vs ++ rest) at)
        ≡ binary_more g next t op (binary_expr op l r) (cursor rest at'))
unfolding binary_more step
binary_more-next g next t op l r keyword vs rest at h reads =
    let (at', e) = reads.read (behind keyword at) in
    (
      at',
      rw (
        matches-cursor t true (keyword ∷ vs ++ rest) at (rw h (same_type_refl t)),
        advance-cursor keyword (vs ++ rest) at,
        e,
      ),
    )

pub ReadsLeft-next :
    (next : Parser Expr) (t : TokenType) (op : Op) (l r : Expr) (keyword : Lexeme)
    (us vs rest : List Lexeme)
    → type_of keyword ≡ t
    → ReadsLeft next t op us l (keyword ∷ vs ++ rest)
    → Reads next vs r rest
    → ReadsLeft next t op (us ++ keyword ∷ vs) (binary_expr op l r) rest
ReadsLeft-next next t op l r keyword us vs rest h (n, le, all) reads = (
  suc n,
  omega (arith, length-append us (keyword ∷ vs)),
  λ fuel g at same.
      let (between, first) = all fuel (suc g) at (omega arith) in
      let (at', second) = binary_more-next g next t op l r keyword vs rest between h reads in
      (at', rw (append_assoc, first) second),
)

pub Reads-left :
    (fuel : ℕ) (next : Parser Expr) (t : TokenType) (op : Op) (ts : List Lexeme) (e : Expr)
    (rest : List Lexeme)
    → length ts < fuel
    → same_type (head_type rest) t ≡ false
    → ReadsLeft next t op ts e rest
    → Reads (binary_left fuel next t op) ts e rest
Reads-left fuel next t op ts e rest h stop (n, le, all) = record {
  read = λ at.
      let (at', same) = all fuel (suc (fuel - n - 1)) at (omega arith) in
      (at', same ∙ binary_more-stop (fuel - n - 1) next t op e rest at' stop);
}
