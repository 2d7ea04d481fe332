-- ===== src/Lexer/Cover.antt =====
-- The loop of `Tokenize` ends, and its tokens cover the statement.
use mathlib.Core.Option
use gopher_db.Base.{
  ℕ, zero, suc, ◌≤◌, ◌≡◌, refl, sym, ap, subst, ◌∙◌, true, List, [], ◌∷◌, ◌++◌, Option, none, some,
  arith, length, length-append, append_assoc,
}
use gopher_db.Base.Outcome.{Outcome, ok, err, panic}
use gopher_db.Base.Select.{All}
use gopher_db.Lexer.{
  Place, Lexed, Round, is_whitespace, advance, eof_at, next_round, appended, round, tokens_from,
  origin, tokenize,
}
use gopher_db.Lexer.Places.{moved, moved-append, Spans, IsStep, IsStepOrError, round-IsStep}
use gopher_db.Lexer.Tokens.{Token, SqlSyntaxError}

-- From the place `p` on, with `cs` left: the tokens and the white space between them are `cs`.
pub data Covers : List ℕ → Place → List Token → Type 0 where
  covers_end : {p : Place} → Covers [] p (eof_at p ∷ [])
  covers_space :
      {cs : List ℕ} {p : Place} {ts : List Token} (gap rest : List ℕ)
      → cs ≡ gap ++ rest
      → All (λ c. is_whitespace c ≡ true) gap
      → Covers rest (moved gap p) ts
      → Covers cs p ts
  covers_token :
      {cs : List ℕ} {p : Place} {ts : List Token} (t : Token) (c : ℕ) (used rest : List ℕ)
      → cs ≡ c ∷ used ++ rest
      → Spans (c ∷ used) p (moved (c ∷ used) p) (some t)
      → Covers rest (moved (c ∷ used) p) ts
      → Covers cs p (t ∷ ts)

-- an error stands at a rune of `cs`
abbrev pub ErrorWithin : List ℕ → Place → SqlSyntaxError → Type 0
ErrorWithin cs p e =
    (before : List ℕ) × (c : ℕ) × (after : List ℕ) × (cs ≡ before ++ c ∷ after)
    × (let at = moved before p in (e.offset ≡ at.pos) × (e.line ≡ at.line) × (e.column ≡ at.col))

abbrev pub Explains : List ℕ → Place → Outcome SqlSyntaxError (List Token) → Type 0
Explains cs p (ok ts) = Covers cs p ts
Explains cs p (err e) = ErrorWithin cs p e
Explains cs p panic = ⊥

abbrev Ends : List ℕ → Place → Lexed → Type 0
Ends cs p none = ⊥
Ends cs p (some out) = Explains cs p out

ErrorWithin-after :
    (c : ℕ) (cs used rest : List ℕ) (p : Place) (e : SqlSyntaxError)
    → cs ≡ used ++ rest
    → ErrorWithin rest (moved used (advance c p)) e
    → ErrorWithin (c ∷ cs) p e
ErrorWithin-after c cs used rest p e split (before, d, after, e', at) =
    (c ∷ used ++ before, d, after, within, rw (moved-append used before (advance c p)) at)
  where
    within : c ∷ cs ≡ c ∷ (used ++ before) ++ d ∷ after
    within = rw (split, e', append_assoc)

-- What explains the rest explains the whole, with the round's token in front.
Explains-appended :
    (c : ℕ) (cs used rest : List ℕ) (p : Place) (token : Option Token)
    → cs ≡ used ++ rest
    → Spans (c ∷ used) p (moved used (advance c p)) token
    → (out : Outcome SqlSyntaxError (List Token)) → Explains rest (moved used (advance c p)) out
    → Explains (c ∷ cs) p (appended token out)
Explains-appended c cs used rest p none split spans (ok ts) h =
    covers_space (c ∷ used) rest (ap (◌∷◌ c) split) spans h
Explains-appended c cs used rest p (some t) split spans (ok ts) h =
    covers_token t c used rest (ap (◌∷◌ c) split) spans h
Explains-appended c cs used rest p token split spans panic h = absurd h
Explains-appended c cs used rest p none split spans (err e) h =
    ErrorWithin-after c cs used rest p e split h
Explains-appended c cs used rest p (some t) split spans (err e) h =
    ErrorWithin-after c cs used rest p e split h

Ends-appended :
    (c : ℕ) (cs : List ℕ) (p : Place) (r : Round)
    → IsStep c cs p r
    → (out : Lexed) → Ends r.rest r.place out
    → Ends (c ∷ cs) p (Option.map (appended r.token) out)
Ends-appended c cs p r step none h = h
Ends-appended c cs p r (used, split, at, spans) (some out) h =
    Explains-appended c cs used r.rest p r.token split
      (subst (λ q. Spans (c ∷ used) p q r.token) at spans) out
      (subst (λ q. Explains r.rest q out) at h)

next_round-Ends :
    (c : ℕ) (cs : List ℕ) (p : Place) (more : List ℕ → Place → Lexed)
    (o : Outcome SqlSyntaxError Round)
    → IsStepOrError c cs p o
    → ((rest : List ℕ) (place : Place)
        → length rest ≤ length cs
        → Ends rest place (more rest place))
    → Ends (c ∷ cs) p (next_round more o)
next_round-Ends c cs p more (ok r) (used, split, at, spans) ih =
    Ends-appended c cs p r (used, split, at, spans) (more r.rest r.place)
      (ih r.rest r.place (omega (arith, ap length split, length-append used r.rest)))
next_round-Ends c cs p more (err e) at ih = ([], c, cs, refl, at)
next_round-Ends c cs p more panic h ih = h

tokens_from-Ends :
    (fuel : ℕ) (cs : List ℕ) (p : Place) → length cs ≤ fuel → Ends cs p (tokens_from fuel cs p)
unfolding tokens_from
tokens_from-Ends fuel [] p h = covers_end
tokens_from-Ends zero (c ∷ cs) p h = absurd (omega arith)
tokens_from-Ends (suc fuel) (c ∷ cs) p h =
    next_round-Ends c cs p (tokens_from fuel) (round c cs p) (round-IsStep c p cs)
      λ rest place shorter. tokens_from-Ends fuel rest place (omega arith)

-- `Tokenize` ends on every statement, with tokens or with an error and never by a panic; its tokens and the
-- white space between them, in their order, are the whole statement, each token with the place before and
-- behind its runes; an error has the place of a rune of the statement.
pub tokenize-Explains :
    (input : List ℕ)
    → (out : Outcome SqlSyntaxError (List Token)) × (tokenize input ≡ some out)
      × Explains input origin out
unfolding tokenize
tokenize-Explains input = result _ (tokens_from-Ends (length input) input origin (omega arith))
  where
    result :
        (run : Lexed)
        → Ends input origin run
        → (out : Outcome SqlSyntaxError (List Token)) × (run ≡ some out) × Explains input origin out
    result none h = absurd h
    result (some out) h = (out, refl, h)

some_injective : {A : Type 0} {a b : A} → some a ≡ some b → a ≡ b
some_injective e = cc

pub tokenize-Covers :
    (input : List ℕ) (ts : List Token) → tokenize input ≡ some (ok ts) → Covers input origin ts
tokenize-Covers input ts h =
    let (out, run, e) = tokenize-Explains input in
    subst (Explains input origin) (some_injective (sym run ∙ h)) e
