-- ===== src/Parser/Lists.antt =====
-- `parseCommaList` and `parseParenList` read the items of a list.
use gopher_db.Base.{
  ℕ, zero, suc, ◌<◌, ◌≡◌, refl, sym, ap, subst, true, false, List, [], ◌∷◌, ◌++◌, arith, length,
  length-append,
}
use gopher_db.Lexer.Lexeme.{Lexeme, symbol, open_paren, close_paren, comma}
use gopher_db.Lexer.Tokens.{comma_token, lparen_token, rparen_token, same_type}
use gopher_db.Parser.Grammar.{Separated, last_item, next_item}
use gopher_db.Parser.Reads.{
  head_type, Reads, Reads-pure, Reads-bind, Reads-step, Reads-expect, Reads-if, Reads-last,
}
use gopher_db.Parser.State.{Parser, ◌>>◌, pure, step, expect}
use gopher_db.Parser.{comma_more, comma_list, paren_list}

-- an item's parser reads every spelling of it, whatever follows
abbrev pub ReadsItem : {A : Type 0} → (A → List Lexeme → Type 0) → Parser A → Type 0
ReadsItem {A} P item = (a : A) (ts rest : List Lexeme) → P a ts → Reads item ts a rest

module _ {A : Type 0} (P : A → List Lexeme → Type 0) (item : Parser A)
    (reads : ReadsItem P item) where
  comma_more-none :
      (fuel : ℕ) (rest : List Lexeme)
      → same_type (head_type rest) comma_token ≡ false
      → Reads (comma_more (suc fuel) item) [] [] rest
  unfolding comma_more
  comma_more-none fuel rest h =
      Reads-if false comma_token (do step; comma_list fuel item) (pure []) [] rest h
        (Reads-pure [] rest)

  comma_more-some :
      (fuel : ℕ) (vs rest : List Lexeme) (more : List A)
      → Reads (comma_list fuel item) vs more rest
      → Reads (comma_more (suc fuel) item) (symbol comma ∷ vs) more rest
  unfolding comma_more
  comma_more-some fuel vs rest more h =
      Reads-if true comma_token (do step; comma_list fuel item) (pure []) (symbol comma ∷ vs) rest
        refl (Reads-bind step _ (symbol comma ∷ []) vs rest tt (Reads-step (symbol comma) _) h)

  pub Reads-comma_list :
      (fuel : ℕ) (as' : List A) (ts rest : List Lexeme)
      → Separated P as' ts
      → length ts < fuel
      → same_type (head_type rest) comma_token ≡ false
      → Reads (comma_list fuel item) ts as' rest
  Reads-comma_list zero as' ts rest d h stop = absurd (omega arith)
  Reads-comma_list (suc fuel) _ ts rest (last_item {a} d) h stop =
      Reads-last item _ ts rest a (reads a ts rest d) (
        Reads-last (comma_more (suc fuel) item) _ [] rest [] (comma_more-none fuel rest stop)
          (Reads-pure (a ∷ []) rest))
  Reads-comma_list (suc fuel) _ ts rest (next_item {a} {more} us vs d ds split) h stop =
      subst (λ w. Reads (comma_list (suc fuel) item) w (a ∷ more) rest) (sym split)
        (Reads-bind item _ us (symbol comma ∷ vs) rest a (reads a us _ d) (
          Reads-last (comma_more (suc fuel) item) _ (symbol comma ∷ vs) rest more
            (comma_more-some fuel vs rest more (
              Reads-comma_list fuel more vs rest ds
                (omega (arith, ap length split, length-append us (symbol comma ∷ vs))) stop))
            (Reads-pure (a ∷ more) rest)))

  pub Reads-paren_list :
      (fuel : ℕ) (as' : List A) (ts rest : List Lexeme)
      → Separated P as' ts
      → length ts < fuel
      → Reads (paren_list fuel item) (symbol open_paren ∷ ts ++ symbol close_paren ∷ []) as' rest
  Reads-paren_list fuel as' ts rest d h =
      let close_one = symbol close_paren ∷ [] in
      Reads-bind (expect lparen_token) _ (symbol open_paren ∷ []) (ts ++ close_one) rest tt
        (Reads-expect lparen_token (symbol open_paren) _ refl)
        (Reads-bind (comma_list fuel item) _ ts close_one rest as'
          (Reads-comma_list fuel as' ts (close_one ++ rest) d h refl)
          (Reads-last (expect rparen_token) _ close_one rest tt
            (Reads-expect rparen_token (symbol close_paren) rest refl) (Reads-pure as' rest)))
