-- ===== src/Parser/Expressions.antt =====
-- `parseExpr` reads every expression of the grammar as its syntax tree.
use gopher_db.Base.{
  ℕ, zero, suc, ◌+◌, ◌<◌, ◌≡◌, refl, sym, subst, false, List, [], ◌∷◌, ◌++◌, none, some, arith,
  length, length-append,
}
use gopher_db.Lexer.Lexeme.{Lexeme, word, symbol, Symbol, open_paren, close_paren, symbol_type}
use gopher_db.Lexer.Tokens.{ident_token, lparen_token, rparen_token, and_token, or_token, same_type}
use gopher_db.Parser.{
  comparison_op, primary_at, parse_primary, comparison_rest, parse_comparison, parse_conjunction,
  parse_expr,
}
use gopher_db.Parser.Grammar.{
  compares, Level, operand_level, comparison_level, and_level, or_level, IsExpr, is_column,
  is_literal, is_group, is_operand, is_comparison, is_factor, is_and, is_term, is_or,
}
use gopher_db.Parser.Reads.{
  head_type, Reads, Reads-pure, Reads-bind, Reads-step, Reads-expect, Reads-ident, Reads-at,
  Reads-last,
}
use gopher_db.Parser.State.{current_type, step, expect, expect_ident}
use gopher_db.Semantic.{Expr, column_ref_expr, binary_expr, Op, and_op, or_op}
use gopher_db.Parser.Chains.{literal_head, ReadsLeft, ReadsLeft-one, ReadsLeft-next, Reads-left}

comparison_op-compares :
    (s : Symbol) (op : Op) → compares s ≡ some op → comparison_op (symbol_type s) ≡ some op
comparison_op-compares open_paren op h = cc
comparison_op-compares _ op h = ground arith

-- what the parsers of the four levels do with a spelling of their level in front of a token that does not continue it
abbrev ReadsLevel : Level → Expr → List Lexeme → Type 0
ReadsLevel operand_level e ts =
    (fuel : ℕ) (rest : List Lexeme)
    → length ts < fuel
    → Reads (parse_primary (parse_expr fuel)) ts e rest
ReadsLevel comparison_level e ts =
    (fuel : ℕ) (rest : List Lexeme)
    → length ts < fuel
    → comparison_op (head_type rest) ≡ none
    → Reads (parse_comparison (parse_expr fuel)) ts e rest
ReadsLevel and_level e ts =
    (fuel : ℕ) (rest : List Lexeme)
    → length ts < fuel
    → comparison_op (head_type rest) ≡ none
    → ReadsLeft (parse_comparison (parse_expr fuel)) and_token and_op ts e rest
ReadsLevel or_level e ts =
    (fuel : ℕ) (rest : List Lexeme)
    → length ts < fuel
    → comparison_op (head_type rest) ≡ none
    → same_type (head_type rest) and_token ≡ false
    → ReadsLeft (parse_conjunction fuel (parse_expr fuel)) or_token or_op ts e rest

comparison-rest-none :
    (fuel : ℕ) (l : Expr) (rest : List Lexeme)
    → comparison_op (head_type rest) ≡ none
    → Reads (λ c. comparison_rest (parse_expr fuel) l (comparison_op (current_type c)) c) [] l rest
comparison-rest-none fuel l rest h =
    Reads-at (λ k. comparison_rest (parse_expr fuel) l (comparison_op k)) (head_type rest) [] rest
      refl (record { read = λ at. (at, rw h) })

parse_expr-Reads :
    (fuel : ℕ) (e : Expr) (ts rest : List Lexeme)
    → ReadsLevel or_level e ts
    → length ts < fuel
    → comparison_op (head_type rest) ≡ none
    → same_type (head_type rest) and_token ≡ false
    → same_type (head_type rest) or_token ≡ false
    → Reads (parse_expr (suc fuel)) ts e rest
unfolding parse_expr
parse_expr-Reads fuel e ts rest ih h no_comparison no_and no_or =
    let whole =
      Reads-left fuel (parse_conjunction fuel (parse_expr fuel)) or_token or_op ts e rest h no_or
        (ih fuel rest h no_comparison no_and) in
    record { read = whole.read }

group-Reads :
    (e : Expr) (us : List Lexeme)
    → ReadsLevel or_level e us
    → ReadsLevel operand_level e (symbol open_paren ∷ us ++ symbol close_paren ∷ [])
group-Reads e us ih zero rest h = absurd (omega arith)
group-Reads e us ih (suc fuel) rest h =
    let expr = parse_expr (suc fuel) in
    let open_one = symbol open_paren ∷ [] in
    let close_one = symbol close_paren ∷ [] in
    Reads-at (primary_at expr) lparen_token (open_one ++ us ++ close_one) rest refl (
      Reads-bind step _ open_one (us ++ close_one) rest tt (Reads-step (symbol open_paren) _) (
        Reads-bind expr _ us close_one rest e
          (parse_expr-Reads fuel e us (close_one ++ rest) ih
            (omega (arith, length-append us close_one)) refl refl refl)
          (Reads-last (expect rparen_token) _ close_one rest tt
            (Reads-expect rparen_token (symbol close_paren) rest refl) (Reads-pure e rest))))

comparison-Reads :
    (op : Op) (s : Symbol) (l r : Expr) (us vs : List Lexeme)
    → compares s ≡ some op
    → ReadsLevel operand_level l us
    → ReadsLevel operand_level r vs
    → ReadsLevel comparison_level (binary_expr op l r) (us ++ symbol s ∷ vs)
comparison-Reads op s l r us vs compared ihl ihr fuel rest h no_comparison =
    let expr = parse_expr fuel in
    let long = length-append us (symbol s ∷ vs) in
    Reads-bind (parse_primary expr) _ us (symbol s ∷ vs) rest l
      (ihl fuel (symbol s ∷ vs ++ rest) (omega (arith, long)))
      (Reads-at (λ k. comparison_rest expr l (comparison_op k)) (symbol_type s) (symbol s ∷ vs) rest
        refl
        (subst (λ o. Reads (comparison_rest expr l o) (symbol s ∷ vs) (binary_expr op l r) rest)
          (sym (comparison_op-compares s op compared))
          (Reads-bind step _ (symbol s ∷ []) vs rest tt (Reads-step (symbol s) _) (
            Reads-last (parse_primary expr) _ vs rest r (ihr fuel rest (omega (arith, long)))
              (Reads-pure (binary_expr op l r) rest)))))

conjunction-Reads :
    (fuel : ℕ) (e : Expr) (ts rest : List Lexeme)
    → ReadsLevel and_level e ts
    → length ts < fuel
    → comparison_op (head_type rest) ≡ none
    → same_type (head_type rest) and_token ≡ false
    → Reads (parse_conjunction fuel (parse_expr fuel)) ts e rest
conjunction-Reads fuel e ts rest ih h no_comparison no_and =
    Reads-left fuel (parse_comparison (parse_expr fuel)) and_token and_op ts e rest h no_and
      (ih fuel rest h no_comparison)

IsExpr-ReadsLevel :
    {level : Level} {e : Expr} {ts : List Lexeme} → IsExpr level e ts → ReadsLevel level e ts
IsExpr-ReadsLevel (is_column name h) = λ fuel rest less.
    Reads-at (primary_at (parse_expr fuel)) ident_token (word name ∷ []) rest h (
      Reads-last expect_ident _ (word name ∷ []) rest name (Reads-ident name rest h)
        (Reads-pure (column_ref_expr name) rest))
IsExpr-ReadsLevel (is_literal {e} {ts} d) =
    λ fuel rest less. literal_head e ts rest (parse_expr fuel) d
IsExpr-ReadsLevel (is_group {e} us d split) =
    subst (ReadsLevel operand_level e) (sym split) (group-Reads e us (IsExpr-ReadsLevel d))
IsExpr-ReadsLevel (is_operand {e} {ts} d) = λ fuel rest less no_comparison.
    Reads-last (parse_primary (parse_expr fuel)) _ ts rest e (IsExpr-ReadsLevel d fuel rest less)
      (comparison-rest-none fuel e rest no_comparison)
IsExpr-ReadsLevel (is_comparison {l} {r} op s us vs compared dl dr split) =
    subst (ReadsLevel comparison_level (binary_expr op l r)) (sym split)
      (comparison-Reads op s l r us vs compared (IsExpr-ReadsLevel dl) (IsExpr-ReadsLevel dr))
IsExpr-ReadsLevel (is_factor {e} {ts} d) = λ fuel rest less no_comparison.
    ReadsLeft-one (parse_comparison (parse_expr fuel)) and_token and_op ts e rest
      (IsExpr-ReadsLevel d fuel rest less no_comparison)
IsExpr-ReadsLevel (is_and {l} {r} keyword us vs at dl dr split) =
    subst (ReadsLevel and_level (binary_expr and_op l r)) (sym split)
      λ fuel rest less no_comparison.
        let long = length-append us (keyword ∷ vs) in
        ReadsLeft-next (parse_comparison (parse_expr fuel)) and_token and_op l r keyword us vs rest
          at (IsExpr-ReadsLevel dl fuel (keyword ∷ vs ++ rest) (omega (arith, long)) (rw at refl))
          (IsExpr-ReadsLevel dr fuel rest (omega (arith, long)) no_comparison)
IsExpr-ReadsLevel (is_term {e} {ts} d) = λ fuel rest less no_comparison no_and.
    ReadsLeft-one (parse_conjunction fuel (parse_expr fuel)) or_token or_op ts e rest
      (conjunction-Reads fuel e ts rest (IsExpr-ReadsLevel d) less no_comparison no_and)
IsExpr-ReadsLevel (is_or {l} {r} keyword us vs at dl dr split) =
    subst (ReadsLevel or_level (binary_expr or_op l r)) (sym split)
      λ fuel rest less no_comparison no_and.
        let long = length-append us (keyword ∷ vs) in
        ReadsLeft-next (parse_conjunction fuel (parse_expr fuel)) or_token or_op l r keyword us vs
          rest at
          (IsExpr-ReadsLevel dl fuel (keyword ∷ vs ++ rest) (omega (arith, long)) (rw at refl)
            (rw at refl))
          (conjunction-Reads fuel r vs rest (IsExpr-ReadsLevel dr) (omega (arith, long))
            no_comparison no_and)

-- `parseExpr` reads a spelling of an expression in front of a token that does not continue it.
pub Reads-parse_expr :
    (fuel : ℕ) (e : Expr) (ts rest : List Lexeme)
    → IsExpr or_level e ts
    → length ts + 1 < fuel
    → comparison_op (head_type rest) ≡ none
    → same_type (head_type rest) and_token ≡ false
    → same_type (head_type rest) or_token ≡ false
    → Reads (parse_expr fuel) ts e rest
Reads-parse_expr zero e ts rest d h no_comparison no_and no_or = absurd (omega arith)
Reads-parse_expr (suc fuel) e ts rest d h no_comparison no_and no_or =
    parse_expr-Reads fuel e ts rest (IsExpr-ReadsLevel d) (omega arith) no_comparison no_and no_or
