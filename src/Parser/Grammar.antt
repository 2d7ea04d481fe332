-- ===== src/Parser/Grammar.antt =====
-- The grammar of the statements that `internal/core/sql/parser` reads, on lexemes: which syntax tree each spelling has.
use gopher_db.Ast.{
  ColumnDef, Statement, select_stmt, insert_stmt, create_index_stmt, create_table_stmt,
  explain_stmt,
}
use gopher_db.Base.Int.{ℤ, pos, half_64}
use gopher_db.Base.Text.{upper}
use gopher_db.Base.{
  ℕ, ◌+◌, ◌-◌, ◌*◌, ◌≤◌, ◌<◌, ◌≡◌, Bool, true, false, List, [], ◌∷◌, ◌++◌, Option, none, some,
}
use gopher_db.Bytes.Copy.{Bytes}
use gopher_db.Catalog.IndexDefinition.{IndexType, index_type_hash, index_type_btree}
use gopher_db.Lexer.Lexeme.{
  Lexeme, word, numeral, quoted, symbol, Symbol, open_paren, close_paren, comma, semicolon,
  asterisk, equal, not_equal, bang_equal, less, less_equal, greater, greater_equal, IsDigits,
  encode, type_of,
}
use gopher_db.Lexer.Tokens.{
  ident_token, create_token, table_token, index_token, on_token, using_token, hash_token,
  btree_token, insert_token, into_token, values_token, select_token, from_token, where_token,
  and_token, or_token, explain_token,
}
use gopher_db.Parser.Number.{negated}
use gopher_db.Parser.{is_type_token}
use gopher_db.Semantic.{
  Expr, column_ref_expr, literal_int64_expr, literal_string_expr, binary_expr, Op, and_op, or_op,
  eq_op, ne_op, lt_op, le_op, gt_op, ge_op,
}

-- the number that digits stand for, behind a number `n`
abbrev pub digits_value : ℕ → List ℕ → ℕ
digits_value n [] = n
digits_value n (d ∷ ds) = digits_value (n * 10 + (d - b'0')) ds

-- a 64-bit integer by its sign and its digits
abbrev pub Denotes : Bool → List ℕ → ℤ → Type 0
Denotes true ds z = (digits_value 0 ds ≤ half_64) × (z ≡ negated (digits_value 0 ds))
Denotes false ds z = (digits_value 0 ds < half_64) × (z ≡ pos (digits_value 0 ds))

abbrev pub compares : Symbol → Option Op
compares equal = some eq_op
compares not_equal = some ne_op
compares bang_equal = some ne_op
compares less = some lt_op
compares less_equal = some le_op
compares greater = some gt_op
compares greater_equal = some ge_op
compares _ = none

pub data IsLiteral : Expr → List Lexeme → Type 0 where
  is_number :
      (minus : Bool) (ds : List ℕ) (z : ℤ)
      → IsDigits ds
      → Denotes minus ds z
      → IsLiteral (literal_int64_expr z) (numeral minus ds ∷ [])
  is_string : (s : List ℕ) → IsLiteral (literal_string_expr (encode s)) (quoted s ∷ [])

-- from what binds tightest: operands, one comparison, `AND`s and `OR`s
pub data Level : Type 0 where
  operand_level comparison_level and_level or_level : Level

pub data IsExpr : Level → Expr → List Lexeme → Type 0 where
  is_column :
      (name : List ℕ)
      → type_of (word name) ≡ ident_token
      → IsExpr operand_level (column_ref_expr name) (word name ∷ [])
  is_literal : {e : Expr} {ts : List Lexeme} → IsLiteral e ts → IsExpr operand_level e ts
  is_group :
      {e : Expr} {ts : List Lexeme} (us : List Lexeme)
      → IsExpr or_level e us
      → ts ≡ symbol open_paren ∷ us ++ symbol close_paren ∷ []
      → IsExpr operand_level e ts
  is_operand :
      {e : Expr} {ts : List Lexeme} → IsExpr operand_level e ts → IsExpr comparison_level e ts
  is_comparison :
      {l r : Expr} {ts : List Lexeme} (op : Op) (s : Symbol) (us vs : List Lexeme)
      → compares s ≡ some op
      → IsExpr operand_level l us
      → IsExpr operand_level r vs
      → ts ≡ us ++ symbol s ∷ vs
      → IsExpr comparison_level (binary_expr op l r) ts
  is_factor : {e : Expr} {ts : List Lexeme} → IsExpr comparison_level e ts → IsExpr and_level e ts
  is_and :
      {l r : Expr} {ts : List Lexeme} (keyword : Lexeme) (us vs : List Lexeme)
      → type_of keyword ≡ and_token
      → IsExpr and_level l us
      → IsExpr comparison_level r vs
      → ts ≡ us ++ keyword ∷ vs
      → IsExpr and_level (binary_expr and_op l r) ts
  is_term : {e : Expr} {ts : List Lexeme} → IsExpr and_level e ts → IsExpr or_level e ts
  is_or :
      {l r : Expr} {ts : List Lexeme} (keyword : Lexeme) (us vs : List Lexeme)
      → type_of keyword ≡ or_token
      → IsExpr or_level l us
      → IsExpr and_level r vs
      → ts ≡ us ++ keyword ∷ vs
      → IsExpr or_level (binary_expr or_op l r) ts

-- items with a comma between each two
pub data Separated {A : Type 0} (P : A → List Lexeme → Type 0) : List A → List Lexeme → Type 0 where
  last_item : {a : A} {ts : List Lexeme} → P a ts → Separated P (a ∷ []) ts
  next_item :
      {a : A} {more : List A} {ts : List Lexeme} (us vs : List Lexeme)
      → P a us
      → Separated P more vs
      → ts ≡ us ++ symbol comma ∷ vs
      → Separated P (a ∷ more) ts

pub data IsName : Bytes → List Lexeme → Type 0 where
  is_name : (name : List ℕ) → type_of (word name) ≡ ident_token → IsName name (word name ∷ [])

pub data IsColumnDef : ColumnDef → List Lexeme → Type 0 where
  is_column_def :
      (name type_name : List ℕ)
      → type_of (word name) ≡ ident_token
      → is_type_token (type_of (word type_name)) ≡ true
      → IsColumnDef
          (record { name = name; type_name = upper type_name })
          (word name ∷ word type_name ∷ [])

pub data IsWhere : Option Expr → List Lexeme → Type 0 where
  no_where : IsWhere none []
  is_where :
      {e : Expr} (keyword : Lexeme) (us : List Lexeme)
      → type_of keyword ≡ where_token
      → IsExpr or_level e us
      → IsWhere (some e) (keyword ∷ us)

pub data IsColumns : Bool → List Bytes → List Lexeme → Type 0 where
  all_columns : IsColumns true [] (symbol asterisk ∷ [])
  these_columns :
      {names : List Bytes} {ts : List Lexeme} → Separated IsName names ts → IsColumns false names ts

pub data IsIndexType : IndexType → Lexeme → Type 0 where
  is_hash : {l : Lexeme} → type_of l ≡ hash_token → IsIndexType index_type_hash l
  is_btree : {l : Lexeme} → type_of l ≡ btree_token → IsIndexType index_type_btree l

-- statements, without a semicolon at their end
pub data IsStatement : Statement → List Lexeme → Type 0 where
  is_create_table :
      {columns : List ColumnDef} (create table : Lexeme) (name : List ℕ) (ts : List Lexeme)
      → type_of create ≡ create_token
      → type_of table ≡ table_token
      → type_of (word name) ≡ ident_token
      → Separated IsColumnDef columns ts
      → IsStatement
          (create_table_stmt (record { table_name = name; columns = columns }))
          (create ∷ table ∷ word name ∷ symbol open_paren ∷ ts ++ symbol close_paren ∷ [])
  is_create_index :
      {kind : IndexType} (create index on using type_name : Lexeme) (name table column : List ℕ)
      → type_of create ≡ create_token
      → type_of index ≡ index_token
      → type_of (word name) ≡ ident_token
      → type_of on ≡ on_token
      → type_of (word table) ≡ ident_token
      → type_of (word column) ≡ ident_token
      → type_of using ≡ using_token
      → IsIndexType kind type_name
      → IsStatement
          (create_index_stmt (record {
            index_name = name;
            table_name = table;
            column_name = column;
            index_type = kind;
          }))
          (create
            ∷ index
            ∷ word name
            ∷ on
            ∷ word table
            ∷ symbol open_paren
            ∷ word column
            ∷ symbol close_paren
            ∷ using
            ∷ type_name
            ∷ [])
  is_insert :
      {values : List Expr} (insert into values_keyword : Lexeme) (name : List ℕ) (ts : List Lexeme)
      → type_of insert ≡ insert_token
      → type_of into ≡ into_token
      → type_of (word name) ≡ ident_token
      → type_of values_keyword ≡ values_token
      → Separated IsLiteral values ts
      → IsStatement (insert_stmt (record { table_name = name; values = values })) (
          insert ∷ into ∷ word name ∷ values_keyword ∷ symbol open_paren ∷ ts
          ++ symbol close_paren ∷ [])
  is_select :
      {all : Bool} {columns : List Bytes} {condition : Option Expr} (select from : Lexeme)
      (name : List ℕ) (us vs : List Lexeme)
      → type_of select ≡ select_token
      → IsColumns all columns us
      → type_of from ≡ from_token
      → type_of (word name) ≡ ident_token
      → IsWhere condition vs
      → IsStatement
          (select_stmt (record {
            table_name = name;
            select_all = all;
            columns = columns;
            condition = condition;
          }))
          (select ∷ us ++ from ∷ word name ∷ vs)
  is_explain :
      {s : Statement} {ts : List Lexeme} (explain : Lexeme)
      → type_of explain ≡ explain_token
      → IsStatement s ts
      → IsStatement (explain_stmt s) (explain ∷ ts)

-- a semicolon or nothing
abbrev pub ending : Bool → List Lexeme
ending true = symbol semicolon ∷ []
ending false = []
