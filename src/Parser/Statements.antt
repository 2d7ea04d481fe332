-- ===== src/Parser/Statements.antt =====
-- `Parse` reads every statement of the grammar as its syntax tree, from the text on.
use gopher_db.Ast.{Statement, select_stmt, insert_stmt, explain_stmt}
use gopher_db.Base.Outcome.{ok}
use gopher_db.Base.Select.{All}
use gopher_db.Base.Text.{codes}
use gopher_db.Base.{
  ℕ, zero, suc, ◌+◌, ◌<◌, ◌≡◌, refl, sym, ap, ◌∙◌, subst, Bool, true, false, List, [], ◌∷◌, ◌++◌,
  append_assoc, append-nil, some, arith, length, length-append,
}
use gopher_db.Lexer.Lexeme.{
  Lexeme, word, symbol, behind, open_paren, close_paren, type_of, located, IsLexeme, print,
}
use gopher_db.Bytes.Compare.{eq_bytes}
use gopher_db.Lexer.{find_keyword, Place, origin, tokenize}
use gopher_db.Lexer.RoundTrip.{tokenize-print}
use gopher_db.Lexer.Tokens.{
  TokenType, eof_token, ident_token, create_token, table_token, index_token, insert_token,
  select_token, explain_token, semicolon_token, Token,
}
use gopher_db.Parser.Grammar.{
  IsLiteral, last_item, IsStatement, is_create_table, is_create_index, is_insert, is_select,
  is_explain, ending,
}
use gopher_db.Parser.Lists.{ReadsItem}
use gopher_db.Parser.Reads.{
  cursor, advance-cursor, head_type, Reads, Reads-pure, Reads-at, Reads-last, Reads-skip_none,
  Reads-after_step,
}
use gopher_db.Parser.State.{parsed, ◌>>◌, pure, advance, skip, expect}
use gopher_db.Semantic.{Expr, literal_string_expr}
use gopher_db.Parser.{
  parse_literal, create_at, parse_create, statement_at, parse_statement, outcome, whole_statement,
  parse,
}
use gopher_db.Parser.Clauses.{
  Reads-IsLiteral, Reads-parse_create_table, Reads-parse_insert, Reads-parse_create_index,
  Reads-parse_select,
}

-- what is to be shown of a statement: with a semicolon behind it or none, and enough fuel, it is read as `s`
abbrev ReadsStatement : Statement → List Lexeme → Type 0
ReadsStatement s ts =
    (fuel : ℕ) (semi : Bool)
    → length ts < fuel
    → Reads (parse_statement fuel) (ts ++ ending semi) s []

dispatch :
    (fuel : ℕ) (k : TokenType) (ts : List Lexeme) (s : Statement)
    → head_type (ts ++ []) ≡ k
    → Reads (statement_at fuel (parse_statement fuel) k) ts s []
    → Reads (parse_statement (suc fuel)) ts s []
unfolding parse_statement
dispatch fuel k ts s h r = record {
  read = (Reads-at (statement_at fuel (parse_statement fuel)) k ts [] h r).read;
}

dispatch_create :
    (fuel : ℕ) (k : TokenType) (create : Lexeme) (ts : List Lexeme) (s : Statement)
    → type_of create ≡ create_token
    → head_type (ts ++ []) ≡ k
    → Reads (create_at fuel k) ts s []
    → Reads (parse_statement (suc fuel)) (create ∷ ts) s []
unfolding parse_create
dispatch_create fuel k create ts s h at r =
    dispatch fuel create_token (create ∷ ts) s h
      (Reads-after_step ts [] _ create (Reads-at (create_at fuel) k ts [] at r))

IsStatement-ReadsStatement :
    (s : Statement) (ts : List Lexeme) → IsStatement s ts → ReadsStatement s ts
IsStatement-ReadsStatement s ts d zero semi h = absurd (omega arith)
IsStatement-ReadsStatement _ _
      (is_create_table {columns} create table name ts h_create h_table h_name d) (suc fuel) semi h =
    dispatch_create fuel table_token create _ _ h_create h_table (
      Reads-parse_create_table fuel semi columns table name ts h_name d
        (omega (arith, length-append ts (symbol close_paren ∷ []))))
IsStatement-ReadsStatement _ _
      (is_create_index {kind} create index on using type_name name table column h_create h_index
        h_name h_on h_table h_column h_using h_kind)
      (suc fuel) semi h =
    dispatch_create fuel index_token create _ _ h_create h_index (
      Reads-parse_create_index semi kind index on using type_name name table column h_name h_on
        h_table h_column h_using h_kind)
IsStatement-ReadsStatement _ _
      (is_insert {values} insert into values_keyword name ts h_insert h_into h_name h_values d)
      (suc fuel) semi h =
    dispatch fuel insert_token _ _ h_insert (
      Reads-parse_insert IsLiteral fuel semi values insert into values_keyword name ts h_into h_name
        h_values Reads-IsLiteral d (omega (arith, length-append ts (symbol close_paren ∷ []))))
IsStatement-ReadsStatement _ _
      (is_select {all} {columns} {condition} select from name us vs h_select d h_from h_name w)
      (suc fuel) semi h =
    let long = length-append us (from ∷ word name ∷ vs) in
    let read_it =
      Reads-parse_select fuel semi all columns condition select from name us vs d h_from h_name w
        (omega (arith, long)) (omega (arith, long)) in
    let s =
      select_stmt (record {
        table_name = name;
        select_all = all;
        columns = columns;
        condition = condition;
      }) in
    subst (λ w. Reads (parse_statement (suc fuel)) w s [])
      (ap (λ more. select ∷ more) (sym (append_assoc us (from ∷ word name ∷ vs) (ending semi))))
      (dispatch fuel select_token (select ∷ us ++ (from ∷ word name ∷ vs ++ ending semi)) s h_select
        read_it)
IsStatement-ReadsStatement _ _ (is_explain {s} {ts} explain h_explain d) (suc fuel) semi h =
    dispatch fuel explain_token (explain ∷ ts ++ ending semi) (explain_stmt s) h_explain (
      Reads-after_step (ts ++ ending semi) [] _ explain (
        Reads-last (parse_statement fuel) _ (ts ++ ending semi) [] s
          (IsStatement-ReadsStatement s ts d fuel semi (omega arith))
          (Reads-last (skip semicolon_token) _ [] [] tt (Reads-skip_none semicolon_token [] refl)
            (Reads-pure (explain_stmt s) []))))

length-located : (ls : List Lexeme) (at : Place) → length (located ls at) ≡ length ls + 1
length-located [] at = omega arith
length-located (l ∷ ls) at = omega (arith, length-located ls (behind l at))

parse-located :
    (ls : List Lexeme) (at : Place)
    → parse (located ls at) ≡ outcome (whole_statement (length ls + 2) (cursor ls at))
unfolding parse
parse-located [] at = refl
parse-located (l ∷ ls) at =
    let fuel : length (located ls (behind l at)) + 2 ≡ length (l ∷ ls) + 2 =
      omega (arith, length-located ls (behind l at)) in
    ap (λ (n : ℕ). outcome (whole_statement n (cursor (l ∷ ls) at))) fuel

Reads-eof : (s : Statement) → Reads (do expect eof_token; pure s) [] s []
unfolding expect advance
Reads-eof s = record { read = λ at. (at, refl) }

parse-ReadsStatement :
    (s : Statement) (ts : List Lexeme) (semi : Bool) (at : Place)
    → ReadsStatement s ts
    → parse (located (ts ++ ending semi) at) ≡ some (ok s)
parse-ReadsStatement s ts semi at reads =
    let ls = ts ++ ending semi in
    let fuel = length ls + 2 in
    let whole =
      Reads-last (parse_statement fuel) (λ r. do expect eof_token; pure r) ls [] s
        (reads fuel semi (omega (arith, length-append ts (ending semi)))) (Reads-eof s) in
    let (at', read_it) = whole.read at in
    parse-located ls at
    ∙ ap outcome (
        subst (λ ms. whole_statement fuel (cursor ms at) ≡ parsed s (cursor [] at')) (append-nil ls)
          read_it)

IsLexeme-ending :
    (ts : List Lexeme) (semi : Bool) → All IsLexeme ts → All IsLexeme (ts ++ ending semi)
IsLexeme-ending [] true h = (tt, tt)
IsLexeme-ending [] false h = tt
IsLexeme-ending (l ∷ ts) semi (h, hs) = (h, IsLexeme-ending ts semi hs)

-- A statement of the grammar, spelled lexeme by lexeme with a space behind each and with or without a semicolon, is
-- tokenized, and its tokens are parsed to its syntax tree.
pub parse-tokenize-print :
    (s : Statement) (ts : List Lexeme) (semi : Bool)
    → IsStatement s ts
    → All IsLexeme ts
    → (tokens : List Token) × (tokenize (print (ts ++ ending semi)) ≡ some (ok tokens))
      × (parse tokens ≡ some (ok s))
parse-tokenize-print s ts semi d h = (
  located (ts ++ ending semi) origin,
  tokenize-print (ts ++ ending semi) (IsLexeme-ending ts semi h),
  parse-ReadsStatement s ts semi origin (IsStatement-ReadsStatement s ts d),
)

-- any identifier, as a string
data IsWord : Expr → List Lexeme → Type 0 where
  is_word :
      (name : List ℕ)
      → type_of (word name) ≡ ident_token
      → IsWord (literal_string_expr name) (word name ∷ [])

Reads-IsWord : ReadsItem IsWord parse_literal
unfolding parse_literal
Reads-IsWord _ ts rest (is_word name h) = record {
  read = λ at. (behind (word name) at, rw (advance-cursor (word name) rest at, h));
}

-- An identifier in the place of a value is not refused: `INSERT INTO t VALUES ( x )` is parsed as the insertion of
-- the string `x`, whatever the identifiers `t` and `x` are.
pub parse-insert_word :
    (table x : List ℕ) (at : Place)
    → type_of (word table) ≡ ident_token
    → type_of (word x) ≡ ident_token
    → parse (
        located
          (word (codes "INSERT")
            ∷ word (codes "INTO")
            ∷ word table
            ∷ word (codes "VALUES")
            ∷ symbol open_paren
            ∷ word x
            ∷ symbol close_paren
            ∷ [])
          at)
      ≡ some (ok (insert_stmt (record { table_name = table; values = literal_string_expr x ∷ [] })))
unfolding find_keyword eq_bytes
parse-insert_word table x at h_table h_x =
    parse-ReadsStatement
      (insert_stmt (record { table_name = table; values = literal_string_expr x ∷ [] }))
      (insert
        ∷ into
        ∷ word table
        ∷ values_keyword
        ∷ symbol open_paren
        ∷ word x
        ∷ symbol close_paren
        ∷ [])
      false at reads
  where
    insert : Lexeme
    insert = word (codes "INSERT")

    into : Lexeme
    into = word (codes "INTO")

    values_keyword : Lexeme
    values_keyword = word (codes "VALUES")

    reads :
        ReadsStatement
          (insert_stmt (record { table_name = table; values = literal_string_expr x ∷ [] }))
          (insert
            ∷ into
            ∷ word table
            ∷ values_keyword
            ∷ symbol open_paren
            ∷ word x
            ∷ symbol close_paren
            ∷ [])
    reads zero semi h = absurd (omega arith)
    reads (suc fuel) semi h = dispatch fuel insert_token _ _ refl (
        Reads-parse_insert IsWord fuel semi (literal_string_expr x ∷ []) insert into values_keyword
          table (word x ∷ []) refl h_table refl Reads-IsWord (last_item (is_word x h_x))
          (omega arith))
