-- ===== src/Parser/Reads.antt =====
-- How a parser reads lexemes off the front of the tokens, and the rules to follow it through a sequence.
use gopher_db.Base.{
  ℕ, ◌≡◌, refl, ◌∙◌, Bool, true, false, List, [], ◌∷◌, ◌++◌, append_assoc, arith, if◌then◌else◌,
}
use gopher_db.Bytes.Copy.{Bytes}
use gopher_db.Lexer.Lexeme.{Lexeme, word, text_of, type_of, spell, behind, located}
use gopher_db.Lexer.Places.{moved}
use gopher_db.Lexer.Tokens.{TokenType, eof_token, ident_token, same_type}
use gopher_db.Lexer.{Place, new_token, eof_at}
use gopher_db.Parser.State.{
  Cursor, parsed, Parser, ◌>>=◌, pure, current_type, advance, step, matches, skip, expect,
  expect_ident,
}

-- the parser's state in front of the tokens of these lexemes
abbrev pub cursor : List Lexeme → Place → Cursor
cursor [] p = record { current = eof_at p; later = [] }
cursor (l ∷ ls) p = record {
  current = new_token (type_of l) (text_of l) p (moved (spell l) p);
  later = located ls (behind l p);
}

pub advance-cursor :
    (l : Lexeme) (ls : List Lexeme) (p : Place)
    → advance (cursor (l ∷ ls) p) ≡ cursor ls (behind l p)
unfolding advance
advance-cursor l [] p = refl
advance-cursor l (m ∷ ls) p = refl

abbrev pub head_type : List Lexeme → TokenType
head_type [] = eof_token
head_type (l ∷ ls) = type_of l

pub current_type-cursor : (ls : List Lexeme) (p : Place) → current_type (cursor ls p) ≡ head_type ls
current_type-cursor [] p = refl
current_type-cursor (l ∷ ls) p = refl

pub same_type_refl : (t : TokenType) → same_type t t ≡ true
same_type_refl t = ground arith

-- In front of the lexemes `ts` and `rest`, wherever they stand, `p` reads `ts` as `a` and leaves `rest`.
pub record Reads {A : Type 0} (p : Parser A) (ts : List Lexeme) (a : A) (rest : List Lexeme)
    : Type 0 where
  pub read :
      (at : Place) → (at' : Place) × (p (cursor (ts ++ rest) at) ≡ parsed a (cursor rest at'))

pub Reads-pure : {A : Type 0} (a : A) (rest : List Lexeme) → Reads (pure a) [] a rest
Reads-pure a rest = record { read = λ at. (at, refl) }

pub Reads-bind :
    {A B : Type 0} (p : Parser A) (f : A → Parser B) (ts us rest : List Lexeme) (a : A) {b : B}
    → Reads p ts a (us ++ rest)
    → Reads (f a) us b rest
    → Reads (p >>= f) (ts ++ us) b rest
Reads-bind {A} {B} p f ts us rest a {b} hp hf = record { read = both }
  where
    both :
        (at : Place)
        → (at' : Place) × ((p >>= f) (cursor ((ts ++ us) ++ rest) at) ≡ parsed b (cursor rest at'))
    both at =
        let (between, first) = hp.read at in
        let (behind_both, second) = hf.read between in
        (behind_both, rw (append_assoc, first) second)

pub Reads-step : (l : Lexeme) (rest : List Lexeme) → Reads step (l ∷ []) tt rest
unfolding step
Reads-step l rest = record { read = λ at. (behind l at, rw (advance-cursor l rest at)) }

pub Reads-expect :
    (t : TokenType) (l : Lexeme) (rest : List Lexeme)
    → type_of l ≡ t
    → Reads (expect t) (l ∷ []) tt rest
unfolding expect
Reads-expect t l rest h = record {
  read = λ at. (behind l at, rw (matching, advance-cursor l rest at));
}
  where
    matching : same_type (type_of l) t ≡ true
    matching = rw h (same_type_refl t)

pub Reads-ident :
    (name : List ℕ) (rest : List Lexeme)
    → type_of (word name) ≡ ident_token
    → Reads expect_ident (word name ∷ []) name rest
unfolding expect_ident
Reads-ident name rest h = record {
  read = λ at. let (at', e) = (Reads-expect ident_token (word name) rest h).read at in (at', rw e);
}

-- a parser that looks at the type of the current token
pub Reads-at :
    {A : Type 0} (p : TokenType → Parser A) (k : TokenType) (ts rest : List Lexeme) {a : A}
    → head_type (ts ++ rest) ≡ k
    → Reads (p k) ts a rest
    → Reads (λ c. p (current_type c) c) ts a rest
Reads-at p k ts rest h r = record {
  read = λ at. let (at', e) = r.read at in (at', rw (current_type-cursor (ts ++ rest) at ∙ h) e);
}

pub Reads-if :
    {A : Type 0} (b : Bool) (t : TokenType) (x y : Parser A) (ts rest : List Lexeme) {a : A}
    → same_type (head_type (ts ++ rest)) t ≡ b
    → Reads (λ c. if b then x c else y c) ts a rest
    → Reads (λ c. if matches t c then x c else y c) ts a rest
Reads-if b t x y ts rest h r =
    Reads-at (λ k c. if same_type k t then x c else y c) (head_type (ts ++ rest)) ts rest refl
      (record { read = λ at. let (at', e) = r.read at in (at', rw h e) })

pub Reads-skip :
    (t : TokenType) (l : Lexeme) (rest : List Lexeme)
    → type_of l ≡ t
    → Reads (skip t) (l ∷ []) tt rest
unfolding skip step
Reads-skip t l rest h =
    Reads-if true t step (pure tt) (l ∷ []) rest (rw h (same_type_refl t)) (Reads-step l rest)

pub Reads-skip_none :
    (t : TokenType) (rest : List Lexeme)
    → same_type (head_type rest) t ≡ false
    → Reads (skip t) [] tt rest
unfolding skip step
Reads-skip_none t rest h = Reads-if false t step (pure tt) [] rest h (Reads-pure tt rest)

-- a sequence whose second part reads nothing
pub Reads-last :
    {A B : Type 0} (p : Parser A) (f : A → Parser B) (ts rest : List Lexeme) (a : A) {b : B}
    → Reads p ts a rest
    → Reads (f a) [] b rest
    → Reads (p >>= f) ts b rest
Reads-last p f ts rest a hp hf = record {
  read = λ at.
      let (between, first) = hp.read at in
      let (at', second) = hf.read between in (at', rw first second);
}

-- sequences that begin with one lexeme
module _ {B : Type 0} (us rest : List Lexeme) {b : B} where
  pub Reads-after_step :
      (f : Unit {0} → Parser B) (l : Lexeme)
      → Reads (f tt) us b rest
      → Reads (step >>= f) (l ∷ us) b rest
  Reads-after_step f l r = Reads-bind step f (l ∷ []) us rest tt (Reads-step l (us ++ rest)) r

  pub Reads-after_expect :
      (t : TokenType) (f : Unit {0} → Parser B) (l : Lexeme)
      → type_of l ≡ t
      → Reads (f tt) us b rest
      → Reads (expect t >>= f) (l ∷ us) b rest
  Reads-after_expect t f l h r =
      Reads-bind (expect t) f (l ∷ []) us rest tt (Reads-expect t l (us ++ rest) h) r

  pub Reads-after_ident :
      (f : Bytes → Parser B) (name : List ℕ)
      → type_of (word name) ≡ ident_token
      → Reads (f name) us b rest
      → Reads (expect_ident >>= f) (word name ∷ us) b rest
  Reads-after_ident f name h r =
      Reads-bind expect_ident f (word name ∷ []) us rest name (Reads-ident name (us ++ rest) h) r
