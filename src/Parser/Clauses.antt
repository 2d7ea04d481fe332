-- ===== src/Parser/Clauses.antt =====
-- The parsers of the statements on their spellings, in `internal/core/sql/parser`.
use gopher_db.Ast.{
  ColumnDef, Statement, select_stmt, insert_stmt, create_index_stmt, create_table_stmt,
}
use gopher_db.Base.{
  ℕ, ◌<◌, ◌≡◌, refl, Bool, true, false, List, [], ◌∷◌, ◌++◌, Option, none, some, arith, length,
}
use gopher_db.Bytes.Copy.{Bytes}
use gopher_db.Catalog.IndexDefinition.{IndexType}
use gopher_db.Lexer.Lexeme.{
  Lexeme, word, symbol, behind, open_paren, close_paren, asterisk, semicolon, type_of,
}
use gopher_db.Lexer.Tokens.{
  ident_token, on_token, using_token, hash_token, btree_token, into_token, values_token, from_token,
  where_token, lparen_token, rparen_token, asterisk_token, semicolon_token, and_token, or_token,
  same_type,
}
use gopher_db.Parser.Chains.{Reads-parse_literal}
use gopher_db.Parser.Expressions.{Reads-parse_expr}
use gopher_db.Parser.Grammar.{
  IsLiteral, Separated, last_item, next_item, IsName, is_name, IsColumnDef, is_column_def, IsWhere,
  no_where, is_where, IsColumns, all_columns, these_columns, IsIndexType, is_hash, is_btree, ending,
}
use gopher_db.Parser.Lists.{ReadsItem, Reads-comma_list, Reads-paren_list}
use gopher_db.Parser.Reads.{
  advance-cursor, head_type, Reads, Reads-pure, Reads-bind, Reads-ident, Reads-at, Reads-if,
  Reads-last, Reads-skip, Reads-skip_none, Reads-after_step, Reads-after_expect, Reads-after_ident,
}
use gopher_db.Parser.State.{
  parsed, ◌>>=◌, ◌>>◌, pure, current_type, advance, step, skip, expect_ident,
}
use gopher_db.Semantic.{Expr}
use gopher_db.Parser.{
  comparison_op, index_type_of, comma_list, paren_list, parse_literal, parse_expr, parse_column_def,
  parse_create_table, index_type_at, parse_create_index, parse_insert, parse_columns, parse_where,
  parse_select,
}

Reads-IsName : ReadsItem IsName expect_ident
Reads-IsName _ ts rest (is_name name h) = Reads-ident name rest h

Reads-IsColumnDef : ReadsItem IsColumnDef parse_column_def
unfolding parse_column_def
Reads-IsColumnDef _ ts rest (is_column_def name type_name h k) =
    Reads-after_ident (word type_name ∷ []) rest _ name h (record {
      read = λ at. (behind (word type_name) at, rw (k, advance-cursor (word type_name) rest at));
    })

pub Reads-IsLiteral : ReadsItem IsLiteral parse_literal
Reads-IsLiteral e ts rest d = Reads-parse_literal e ts rest d

-- what stands behind a statement does not continue it
ending_facts :
    (semi : Bool)
    → let after = head_type (ending semi ++ []) in
      (comparison_op after ≡ none)
      × (same_type after and_token ≡ false)
      × (same_type after or_token ≡ false)
      × (same_type after where_token ≡ false)
ending_facts true = (refl, refl, refl, refl)
ending_facts false = (refl, refl, refl, refl)

Reads-ending :
    (semi : Bool) (s : Statement) → Reads (do skip semicolon_token; pure s) (ending semi) s []
Reads-ending true s =
    Reads-last (skip semicolon_token) _ (symbol semicolon ∷ []) [] tt
      (Reads-skip semicolon_token (symbol semicolon) [] refl) (Reads-pure s [])
Reads-ending false s =
    Reads-last (skip semicolon_token) _ [] [] tt (Reads-skip_none semicolon_token [] refl)
      (Reads-pure s [])

pub Reads-parse_create_table :
    (fuel : ℕ) (semi : Bool) (columns : List ColumnDef) (table : Lexeme) (name : List ℕ)
    (ts : List Lexeme)
    → type_of (word name) ≡ ident_token
    → Separated IsColumnDef columns ts
    → length ts < fuel
    → Reads
        (parse_create_table fuel)
        (table ∷ word name ∷ (symbol open_paren ∷ ts ++ symbol close_paren ∷ []) ++ ending semi)
        (create_table_stmt (record { table_name = name; columns = columns }))
        []
unfolding parse_create_table
Reads-parse_create_table fuel semi columns table name ts h d less =
    let listed = symbol open_paren ∷ ts ++ symbol close_paren ∷ [] in
    Reads-after_step (word name ∷ listed ++ ending semi) [] _ table (
      Reads-after_ident (listed ++ ending semi) [] _ name h (
        Reads-bind (paren_list fuel parse_column_def) _ listed (ending semi) [] columns
          (Reads-paren_list IsColumnDef parse_column_def Reads-IsColumnDef fuel columns ts _ d less)
          (Reads-ending semi _)))

pub Reads-parse_insert :
    (P : Expr → List Lexeme → Type 0) (fuel : ℕ) (semi : Bool) (values : List Expr)
    (insert into values_keyword : Lexeme) (name : List ℕ) (ts : List Lexeme)
    → type_of into ≡ into_token
    → type_of (word name) ≡ ident_token
    → type_of values_keyword ≡ values_token
    → ReadsItem P parse_literal
    → Separated P values ts
    → length ts < fuel
    → Reads
        (parse_insert fuel)
        (insert
            ∷ into
            ∷ word name
            ∷ values_keyword
            ∷ (symbol open_paren ∷ ts ++ symbol close_paren ∷ [])
          ++ ending semi)
        (insert_stmt (record { table_name = name; values = values }))
        []
unfolding parse_insert
Reads-parse_insert P fuel semi values insert into values_keyword name ts h_into h h_values reads d
      less =
    let listed = symbol open_paren ∷ ts ++ symbol close_paren ∷ [] in
    let last = listed ++ ending semi in
    Reads-after_step (into ∷ word name ∷ values_keyword ∷ last) [] _ insert (
      Reads-after_expect (word name ∷ values_keyword ∷ last) [] into_token _ into h_into (
        Reads-after_ident (values_keyword ∷ last) [] _ name h (
          Reads-after_expect last [] values_token _ values_keyword h_values (
            Reads-bind (paren_list fuel parse_literal) _ listed (ending semi) [] values
              (Reads-paren_list P parse_literal reads fuel values ts _ d less)
              (Reads-ending semi _)))))

Reads-index_type :
    (kind : IndexType) (l : Lexeme) (rest : List Lexeme)
    → IsIndexType kind l
    → Reads (λ c. index_type_at (index_type_of (current_type c)) c) (l ∷ []) kind rest
Reads-index_type _ l rest (is_hash h) =
    Reads-at (λ k. index_type_at (index_type_of k)) hash_token (l ∷ []) rest h
      (record { read = λ at. (behind l at, rw (advance-cursor l rest at)) })
Reads-index_type _ l rest (is_btree h) =
    Reads-at (λ k. index_type_at (index_type_of k)) btree_token (l ∷ []) rest h
      (record { read = λ at. (behind l at, rw (advance-cursor l rest at)) })

pub Reads-parse_create_index :
    (semi : Bool) (kind : IndexType) (index on using type_name : Lexeme)
    (name table column : List ℕ)
    → type_of (word name) ≡ ident_token
    → type_of on ≡ on_token
    → type_of (word table) ≡ ident_token
    → type_of (word column) ≡ ident_token
    → type_of using ≡ using_token
    → IsIndexType kind type_name
    → Reads parse_create_index
        (index
          ∷ word name
          ∷ on
          ∷ word table
          ∷ symbol open_paren
          ∷ word column
          ∷ symbol close_paren
          ∷ using
          ∷ type_name
          ∷ ending semi)
        (create_index_stmt (record {
          index_name = name;
          table_name = table;
          column_name = column;
          index_type = kind;
        }))
        []
unfolding parse_create_index
Reads-parse_create_index semi kind index on using type_name name table column h_name h_on h_table
      h_column h_using h_kind =
    let after_column = symbol close_paren ∷ using ∷ type_name ∷ ending semi in
    let after_table = symbol open_paren ∷ word column ∷ after_column in
    let after_name = on ∷ word table ∷ after_table in
    Reads-after_step (word name ∷ after_name) [] _ index (
      Reads-after_ident after_name [] _ name h_name (
        Reads-after_expect (word table ∷ after_table) [] on_token _ on h_on (
          Reads-after_ident after_table [] _ table h_table (
            Reads-after_expect (word column ∷ after_column) [] lparen_token _ (symbol open_paren)
              refl
              (Reads-after_ident after_column [] _ column h_column (
                Reads-after_expect (using ∷ type_name ∷ ending semi) [] rparen_token _
                  (symbol close_paren) refl
                  (Reads-after_expect (type_name ∷ ending semi) [] using_token _ using h_using (
                    Reads-bind (λ c. index_type_at (index_type_of (current_type c)) c) _
                      (type_name ∷ []) (ending semi) [] kind
                      (Reads-index_type kind type_name _ h_kind) (Reads-ending semi _)))))))))

Reads-parse_columns :
    (fuel : ℕ) (all : Bool) (columns : List Bytes) (us rest : List Lexeme)
    → IsColumns all columns us
    → length us < fuel
    → head_type rest ≡ from_token
    → Reads (parse_columns fuel) us (all, columns) rest
Reads-parse_columns fuel _ _ us rest all_columns less h =
    Reads-if true asterisk_token (λ c. parsed (true, []) (advance c))
      (do columns ← comma_list fuel expect_ident; pure (false, columns)) us rest refl
      (record {
        read = λ at. (behind (symbol asterisk) at, rw (advance-cursor (symbol asterisk) rest at));
      })
Reads-parse_columns fuel _ columns us rest (these_columns d) less h =
    Reads-if false asterisk_token (λ c. parsed (true, []) (advance c))
      (do columns ← comma_list fuel expect_ident; pure (false, columns)) us rest
      (names_head columns us d)
      (Reads-last (comma_list fuel expect_ident) _ us rest columns
        (Reads-comma_list IsName expect_ident Reads-IsName fuel columns us rest d less (rw h refl))
        (Reads-pure (false, columns) rest))
  where
    names_head :
        (names : List Bytes) (ts : List Lexeme)
        → Separated IsName names ts
        → same_type (head_type (ts ++ rest)) asterisk_token ≡ false
    names_head _ ts (last_item (is_name name e)) = rw e refl
    names_head _ ts (next_item us vs (is_name name e) ds split) = rw (split, e) refl

Reads-parse_where :
    (fuel : ℕ) (semi : Bool) (condition : Option Expr) (vs : List Lexeme)
    → IsWhere condition vs
    → length vs < fuel
    → Reads (parse_where fuel) vs condition (ending semi ++ [])
Reads-parse_where fuel semi _ _ no_where less =
    let (_, _, _, no_where_keyword) = ending_facts semi in
    Reads-if false where_token (do step; e ← parse_expr fuel; pure (some e)) (pure none) []
      (ending semi ++ []) no_where_keyword (Reads-pure none _)
Reads-parse_where fuel semi _ _ (is_where {e} keyword us h d) less =
    let (no_comparison, no_and, no_or, _) = ending_facts semi in
    let rest = ending semi ++ [] in
    Reads-if true where_token (do step; e ← parse_expr fuel; pure (some e)) (pure none)
      (keyword ∷ us) rest (rw h refl)
      (Reads-after_step us rest _ keyword (
        Reads-last (parse_expr fuel) _ us rest e
          (Reads-parse_expr fuel e us rest d (omega arith) no_comparison no_and no_or)
          (Reads-pure (some e) rest)))

pub Reads-parse_select :
    (fuel : ℕ) (semi all : Bool) (columns : List Bytes) (condition : Option Expr)
    (select from : Lexeme) (name : List ℕ) (us vs : List Lexeme)
    → IsColumns all columns us
    → type_of from ≡ from_token
    → type_of (word name) ≡ ident_token
    → IsWhere condition vs
    → length us < fuel
    → length vs < fuel
    → Reads
        (parse_select fuel)
        (select ∷ us ++ (from ∷ word name ∷ vs ++ ending semi))
        (select_stmt (record {
          table_name = name;
          select_all = all;
          columns = columns;
          condition = condition;
        }))
        []
unfolding parse_select
Reads-parse_select fuel semi all columns condition select from name us vs d h_from h_name w less
      less' =
    let last = from ∷ word name ∷ vs ++ ending semi in
    Reads-after_step (us ++ last) [] _ select (
      Reads-bind (parse_columns fuel) _ us last [] (all, columns)
        (Reads-parse_columns fuel all columns us _ d less h_from)
        (Reads-after_expect (word name ∷ vs ++ ending semi) [] from_token _ from h_from (
          Reads-after_ident (vs ++ ending semi) [] _ name h_name (
            Reads-bind (parse_where fuel) _ vs (ending semi) [] condition
              (Reads-parse_where fuel semi condition vs w less') (Reads-ending semi _)))))
