-- ===== src/Index/Bounds.antt =====
-- `lowerBound` and `upperBound` find the first key that is not below, or is above, a key.
use gopher_db.Base.Int.{ℤ, pos, negsuc}
use gopher_db.Base.Select.{All}
use gopher_db.Base.{
  ℕ, zero, suc, ◌+◌, ◌-◌, ◌/◌, ◌≤◌, ◌<◌, ◌≡◌, refl, ap, subst, inl, inr, Bool, true, false, List,
  [], ◌∷◌, Option, none, some, arith, length, get_elem?, ltb, if◌then◌else◌, Bool-cases, ltb→lt,
  lt→ltb,
}
use gopher_db.Index.Keys.{
  KeyKind, compare_keys, bound_loop, is_negative, is_not_positive, lower_bound, upper_bound,
}
use gopher_db.Index.Order.{
  IsKey, Below, Above, KeyOrder, below, equal, above, compare_keys-KeyOrder, Below-trans, Ascending,
  Below-flip,
}
use gopher_db.Value.{Value}

-- the search's test of the key at a position
abbrev pub Moves : (ℤ → Bool) → KeyKind → Value → Value → Bool → Type 0
Moves moves_right kind key k b =
    (sign : ℤ) × (compare_keys kind k key ≡ some sign) × (moves_right sign ≡ b)

module _ (moves_right : ℤ → Bool) (kind : KeyKind) (key : Value) where
  -- the keys up to the position `n` move the search to the right, those from there on do not
  abbrev pub SplitsAt : List Value → ℕ → Type 0
  SplitsAt [] n = n ≡ 0
  SplitsAt (k ∷ ks) zero = Moves moves_right kind key k false × SplitsAt ks zero
  SplitsAt (k ∷ ks) (suc n) = Moves moves_right kind key k true × SplitsAt ks n

  SplitsAt-at :
      (keys : List Value) (n i : ℕ)
      → SplitsAt keys n
      → i < length keys
      → (k : Value) × (get_elem? keys i ≡ some k) × Moves moves_right kind key k (ltb i n)
  SplitsAt-at [] n i s h = absurd (omega arith)
  SplitsAt-at (k ∷ ks) zero zero (m, s) h = (k, refl, m)
  SplitsAt-at (k ∷ ks) zero (suc i) (m, s) h =
      let (k', at, m') = SplitsAt-at ks zero i s (omega arith) in
      (k', at, subst (Moves moves_right kind key k') (ltb-zero i) m')
    where
      ltb-zero : (a : ℕ) → ltb a 0 ≡ ltb (suc a) 0
      ltb-zero a = ground arith
  SplitsAt-at (k ∷ ks) (suc n) zero (m, s) h = (k, refl, rw (lt→ltb 0 (suc n) (omega arith)) m)
  SplitsAt-at (k ∷ ks) (suc n) (suc i) (m, s) h =
      let (k', at, m') = SplitsAt-at ks n i s (omega arith) in
      (k', at, subst (Moves moves_right kind key k') (ltb-suc i n) m')
    where
      ltb-suc : (a b : ℕ) → ltb a b ≡ ltb (suc a) (suc b)
      ltb-suc a b = ground arith

  pub SplitsAt-le : (keys : List Value) (n : ℕ) → SplitsAt keys n → n ≤ length keys
  SplitsAt-le [] n s = omega arith
  SplitsAt-le (k ∷ ks) zero s = omega arith
  SplitsAt-le (k ∷ ks) (suc n) (m, s) = omega (arith, SplitsAt-le ks n s)

  bound_loop-SplitsAt :
      (keys : List Value) (n : ℕ)
      → SplitsAt keys n
      → (fuel lo hi : ℕ) → lo ≤ n
      → n ≤ hi
      → hi ≤ length keys
      → hi - lo < fuel
      → bound_loop fuel moves_right kind keys key lo hi ≡ some n
  unfolding bound_loop
  bound_loop-SplitsAt keys n s zero lo hi a b c h = absurd (omega arith)
  bound_loop-SplitsAt keys n s (suc fuel) lo hi a b c h = elim (Bool-cases (ltb lo hi)) [
    | inr done ↦ rw done (ap some (ground arith))
    | inl more ↦
        let inside : (lo + hi) / 2 < length keys = omega (arith, ltb→lt lo hi more) in
        let (k, at, (sign, compared, moves)) = SplitsAt-at keys n ((lo + hi) / 2) s inside in
        rw (more, at, compared, moves)
          (elim (Bool-cases (ltb ((lo + hi) / 2) n)) [
            | inl right ↦ rw right (
                bound_loop-SplitsAt keys n s fuel ((lo + hi) / 2 + 1) hi
                  (omega (arith, ltb→lt _ _ right)) b c (omega (arith, ltb→lt lo hi more)))
            | inr left ↦ rw left (
                bound_loop-SplitsAt keys n s fuel lo ((lo + hi) / 2) a (ground arith) (omega arith)
                  (omega (arith, ltb→lt lo hi more)))
          ])
  ]

-- how many keys have a sign that passes the test
pub passing : (ℤ → Bool) → Option ℤ → ℕ
passing test none = 0
passing test (some sign) = if test sign then 1 else 0

pub count_signs : (ℤ → Bool) → KeyKind → List Value → Value → ℕ
count_signs test kind [] key = 0
count_signs test kind (k ∷ ks) key =
    passing test (compare_keys kind k key) + count_signs test kind ks key

module _ (test : ℤ → Bool) (kind : KeyKind) (key : Value) (typed : IsKey kind key)
    (lt : test (negsuc 0) ≡ true) (gt : test (pos 1) ≡ false) where
  -- none of the keys moves the search
  Above-SplitsAt :
      (ks : List Value)
      → All (λ k. Above kind k key) ks
      → SplitsAt test kind key ks 0 × (count_signs test kind ks key ≡ 0)
  unfolding count_signs passing
  Above-SplitsAt [] h = (refl, refl)
  Above-SplitsAt (k ∷ ks) (h, hs) =
      let (split, none_counted) = Above-SplitsAt ks hs in
      (((pos 1, h, gt), split), rw (h, gt, none_counted))

  pub later-Above :
      (k : Value) (ks : List Value)
      → IsKey kind k
      → All (IsKey kind) ks
      → ((j : Value) → IsKey kind j → Below kind k j → Below kind key j)
      → All (Below kind k) ks
      → All (λ j. Above kind j key) ks
  later-Above k [] hk hks pass h = tt
  later-Above k (j ∷ ks) hk (hj, hks) pass (h, hs) =
      (Below-flip kind key j typed hj (pass j hj h), later-Above k ks hk hks pass hs)

  step-SplitsAt :
      (k : Value) (ks : List Value) (sign : ℤ)
      → compare_keys kind k key ≡ some sign
      → test sign ≡ true
      → SplitsAt test kind key ks (count_signs test kind ks key)
      → SplitsAt test kind key (k ∷ ks) (count_signs test kind (k ∷ ks) key)
  unfolding count_signs passing
  step-SplitsAt k ks sign e right rest =
      let more : suc (count_signs test kind ks key) ≡ 1 + count_signs test kind ks key =
        omega arith in
      rw (e, right, ← more) ((sign, e, right), rest)

  stop-SplitsAt :
      (k : Value) (ks : List Value) (sign : ℤ)
      → compare_keys kind k key ≡ some sign
      → test sign ≡ false
      → All (λ j. Above kind j key) ks
      → SplitsAt test kind key (k ∷ ks) (count_signs test kind (k ∷ ks) key)
  unfolding count_signs passing
  stop-SplitsAt k ks sign e stays later =
      let (split, none_counted) = Above-SplitsAt ks later in
      rw (e, stays, none_counted) ((sign, e, stays), split)

  pub Ascending-SplitsAt :
      (ks : List Value)
      → All (IsKey kind) ks
      → Ascending kind ks
      → SplitsAt test kind key ks (count_signs test kind ks key)
  Ascending-SplitsAt [] h a = unfold count_signs in refl
  Ascending-SplitsAt (k ∷ ks) (hk, hks) (first, a) =
      by_order (compare_keys-KeyOrder kind k key hk typed) (Ascending-SplitsAt ks hks a)
    where
      by_order :
          KeyOrder kind k key
          → SplitsAt test kind key ks (count_signs test kind ks key)
          → SplitsAt test kind key (k ∷ ks) (count_signs test kind (k ∷ ks) key)
      by_order (below less _) rest = step-SplitsAt k ks (negsuc 0) less lt rest
      by_order (equal e same) rest = elim (Bool-cases (test (pos 0))) [
        | inl right ↦ step-SplitsAt k ks (pos 0) same right rest
        | inr stays ↦
            stop-SplitsAt k ks (pos 0) same stays
              (later-Above k ks hk hks (λ j _ h. subst (λ x. Below kind x j) e h) first)
      ]
      by_order (above more less) rest =
          stop-SplitsAt k ks (pos 1) more gt
            (later-Above k ks hk hks (λ j hj h. Below-trans kind key k j typed hk hj less h) first)

-- In ascending keys of the index's type `lowerBound` gives the number of keys below the key and `upperBound` the
-- number of those that are not above it; neither search runs on or reads out of range.
pub lower_bound-upper_bound :
    (kind : KeyKind) (keys : List Value) (key : Value)
    → IsKey kind key
    → All (IsKey kind) keys
    → Ascending kind keys
    → (lower_bound kind keys key ≡ some (count_signs is_negative kind keys key))
      × (upper_bound kind keys key ≡ some (count_signs is_not_positive kind keys key))
unfolding lower_bound upper_bound
lower_bound-upper_bound kind keys key typed all_typed ascending = (
  bound_loop-SplitsAt is_negative kind key keys _ lower (suc (length keys)) 0 (length keys)
      (omega arith) (SplitsAt-le is_negative kind key keys _ lower) (omega arith) (omega arith),
  bound_loop-SplitsAt is_not_positive kind key keys _ upper (suc (length keys)) 0 (length keys)
      (omega arith) (SplitsAt-le is_not_positive kind key keys _ upper) (omega arith) (omega arith),
)
  where
    lower : SplitsAt is_negative kind key keys (count_signs is_negative kind keys key)
    lower = Ascending-SplitsAt is_negative kind key typed refl refl keys all_typed ascending

    upper : SplitsAt is_not_positive kind key keys (count_signs is_not_positive kind keys key)
    upper = Ascending-SplitsAt is_not_positive kind key typed refl refl keys all_typed ascending
