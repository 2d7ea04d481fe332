-- ===== src/Parser/Fuel.antt =====
-- Parsers that stay within their fuel on tokens that end in `EOF`, and the rules to build them.
use gopher_db.Base.{
  ℕ, ◌+◌, ◌≤◌, ◌≡◌, ◌≢◌, refl, ap, Bool, true, false, List, [], ◌∷◌, arith, length, if◌then◌else◌,
}
use gopher_db.Lexer.Tokens.{TokenType, eof_token, ident_token, same_type, Token, SyntaxMessage}
use gopher_db.Parser.State.{
  Cursor, Parsed, parsed, syntax, out_of_fuel, Parser, continue_with, ◌>>=◌, ◌>>◌, pure,
  current_type, advance, advanced, step, matches, skip, expect, expect_ident, failed,
}

abbrev pub LastIsEof : Token → List Token → Type 0
LastIsEof t [] = t.token_type ≡ eof_token
LastIsEof t (u ∷ us) = LastIsEof u us

abbrev pub Closed : Cursor → Type 0
Closed c = LastIsEof c.current c.later

-- how many tokens stand behind the current one
abbrev pub left : Cursor → ℕ
left c = length c.later

-- within the fuel, and at a state with at most `n` tokens left that still ends in `EOF`
abbrev pub Good : {A : Type 0} → ℕ → Parsed A → Type 0
Good n (parsed a c) = Closed c × (left c ≤ n)
Good n (syntax e) = Unit
Good n out_of_fuel = ⊥

-- a parser that stays within its fuel where at most `n` tokens are left
pub record Ends {A : Type 0} (n : ℕ) (p : Parser A) : Type 0 where
  pub run : (c : Cursor) → Closed c → left c ≤ n → Good (left c) (p c)

pub Good-weaken : {A : Type 0} (m n : ℕ) (r : Parsed A) → m ≤ n → Good m r → Good n r
Good-weaken m n (parsed a c) h (closed, le) = (closed, omega arith)
Good-weaken m n (syntax e) h g = tt
Good-weaken m n out_of_fuel h g = g

pub Good-bind :
    {A B : Type 0} (n : ℕ) (r : Parsed A) (f : A → Parser B)
    → Good n r
    → ((a : A) → Ends n (f a))
    → Good n (continue_with f r)
Good-bind n (parsed a c) f (closed, le) h =
    Good-weaken (left c) n (f a c) le ((h a).run c closed le)
Good-bind n (syntax e) f g h = tt
Good-bind n out_of_fuel f g h = g

pub Ends-bind :
    {A B : Type 0} (n : ℕ) (p : Parser A) (f : A → Parser B)
    → Ends n p
    → ((a : A) → Ends n (f a))
    → Ends n (p >>= f)
Ends-bind n p f hp hf = record { run = bound }
  where
    bound : (c : Cursor) → Closed c → left c ≤ n → Good (left c) (continue_with f (p c))
    bound c closed le =
        Good-bind (left c) (p c) f (hp.run c closed le)
          λ a. record { run = λ d closed' le'. (hf a).run d closed' (omega arith) }

pub advance-Closed : (c : Cursor) → Closed c → Closed (advance c) × (left (advance c) ≤ left c)
unfolding advance
advance-Closed c closed = of_list c c.later closed refl
  where
    of_list :
        (d : Cursor) (ts : List Token)
        → LastIsEof d.current ts
        → d.later ≡ ts
        → Closed (advanced ts d) × (left (advanced ts d) ≤ left d)
    of_list d [] h e = (rw e h, omega arith)
    of_list d (t ∷ ts) h e = (h, omega (arith, ap length e))

pub advance-left :
    (c : Cursor) → Closed c → current_type c ≢ eof_token → left (advance c) + 1 ≤ left c
unfolding advance
advance-left c closed h = of_list c c.later closed refl h
  where
    of_list :
        (d : Cursor) (ts : List Token)
        → LastIsEof d.current ts
        → d.later ≡ ts
        → d.current.token_type ≢ eof_token
        → left (advanced ts d) + 1 ≤ left d
    of_list d [] h e ne = absurd (ne h)
    of_list d (t ∷ ts) h e ne = omega (arith, ap length e)

pub Ends-step : (n : ℕ) → Ends n step
unfolding step
Ends-step n = record { run = λ c closed le. advance-Closed c closed }

pub Ends-pure : {A : Type 0} (n : ℕ) (a : A) → Ends n (pure a)
Ends-pure n a = record { run = λ c closed le. (closed, omega arith) }

pub Ends-failed : {A : Type 0} (n : ℕ) (m : SyntaxMessage) → Ends {A = A} n (failed m)
Ends-failed n m = record { run = λ c closed le. tt }

pub Good-if :
    {A : Type 0} (n : ℕ) (b : Bool) (x y : Parsed A)
    → (b ≡ true → Good n x)
    → (b ≡ false → Good n y)
    → Good n (if b then x else y)
Good-if n true x y hx hy = hx refl
Good-if n false x y hx hy = hy refl

pub Ends-expect : (n : ℕ) (t : TokenType) → Ends n (expect t)
unfolding expect
Ends-expect n t = record {
  run = λ c closed le. Good-if (left c) (matches t c) _ _ (λ _. advance-Closed c closed) (λ _. tt);
}

pub Ends-skip : (n : ℕ) (t : TokenType) → Ends n (skip t)
unfolding skip
Ends-skip n t = record {
  run = λ c closed le.
      Good-if (left c) (matches t c) _ _ (λ _. advance-Closed c closed)
        (λ _. (closed, omega arith));
}

pub Ends-expect_ident : (n : ℕ) → Ends n expect_ident
unfolding expect_ident
Ends-expect_ident n = record {
  run = λ c closed le.
      (Ends-bind n (expect ident_token) (λ _. pure c.current.text) (Ends-expect n ident_token)
          (λ _. Ends-pure n c.current.text)).run
        c closed le;
}

-- a parser that begins with a step past a token which is not `EOF`
pub Ends-past :
    {A : Type 0} (c : Cursor) (p : Parser A)
    → Closed c
    → current_type c ≢ eof_token
    → ((n : ℕ) → n + 1 ≤ left c → Ends n p)
    → Good (left c) ((step >> p) c)
unfolding step
Ends-past c p closed ne h =
    let fewer = advance-left c closed ne in
    Good-weaken (left (advance c)) (left c) (p (advance c)) (omega arith)
      ((h (left (advance c)) fewer).run (advance c) (advance-Closed c closed).0 (omega arith))

pub matches-ne :
    (t : TokenType) (c : Cursor)
    → matches t c ≡ true
    → same_type eof_token t ≡ false
    → current_type c ≢ eof_token
matches-ne t c h k e = cc (ap (λ s. same_type s t) e)

pub Ends-weaken : {A : Type 0} (m n : ℕ) (p : Parser A) → m ≤ n → Ends n p → Ends m p
Ends-weaken m n p h e = record { run = λ c closed le. e.run c closed (omega arith) }
