-- ===== src/Index/Position.antt =====
-- What the search of a leaf finds, against a walk over all keys.
use gopher_db.Base.Int.{ℤ, pos, eq_ℤ}
use gopher_db.Base.Select.{All}
use gopher_db.Base.{
  ℕ, zero, suc, ◌≡◌, refl, ◌⊎◌, inl, inr, Bool, true, false, List, [], ◌∷◌, Option, none, some,
  arith, length, get_elem?, if◌then◌else◌,
}
use gopher_db.Index.Bounds.{Moves, SplitsAt}
use gopher_db.Index.Keys.{KeyKind, compare_keys, is_negative}
use gopher_db.Index.Leaf.{matches_key}
use gopher_db.Index.Node.{Tid}
use gopher_db.Index.Order.{
  IsKey, Below, Above, KeyOrder, below, equal, above, compare_keys-KeyOrder, Below-trans, Ascending,
  Below-flip,
}
use gopher_db.Value.{Value}

-- the same key, by the sign of a comparison
abbrev pub is_same : Option ℤ → Bool
is_same none = false
is_same (some sign) = eq_ℤ sign (pos 0)

-- the tuples of a key, by a walk over all keys
unfoldable pub tids_of : KeyKind → List Value → List (List Tid) → Value → List Tid
tids_of kind (k ∷ ks) (v ∷ vs) key =
    if is_same (compare_keys kind k key) then v else tids_of kind ks vs key
tids_of kind _ _ key = []

-- the keys of a leaf are in order and of the index's type, each with its list
pub record IsLeaf (kind : KeyKind) (keys : List Value) (values : List (List Tid)) : Type 0 where
  pub typed : All (IsKey kind) keys
  pub ascending : Ascending kind keys
  pub paired : length values ≡ length keys

module _ (kind : KeyKind) (key : Value) (hkey : IsKey kind key) where
  pub tids_of-Above :
      (ks : List Value) (vs : List (List Tid))
      → All (λ k. Above kind k key) ks
      → tids_of kind ks vs key ≡ []
  unfolding tids_of
  tids_of-Above [] vs h = refl
  tids_of-Above (k ∷ ks) [] h = refl
  tids_of-Above (k ∷ ks) (v ∷ vs) (h, hs) = rw h (tids_of-Above ks vs hs)

  -- a key that moves the search is below
  pub moved-Below :
      (k : Value) → IsKey kind k → Moves is_negative kind key k true → Below kind k key
  moved-Below k hk (sign, e, m) = by_order (compare_keys-KeyOrder kind k key hk hkey)
    where
      by_order : KeyOrder kind k key → Below kind k key
      by_order (below lt _) = lt
      by_order (equal _ same) = cc
      by_order (above gt _) = cc

  -- a key that stops the search is the same or above
  pub stopped :
      (k : Value)
      → IsKey kind k
      → Moves is_negative kind key k false
      → ((k ≡ key) × (compare_keys kind k key ≡ some (pos 0)))
        ⊎ (Above kind k key × Below kind key k)
  stopped k hk (sign, e, m) = by_order (compare_keys-KeyOrder kind k key hk hkey)
    where
      by_order :
          KeyOrder kind k key
          → ((k ≡ key) × (compare_keys kind k key ≡ some (pos 0)))
            ⊎ (Above kind k key × Below kind key k)
      by_order (below lt _) = absurd cc
      by_order (equal e same) = inl (e, same)
      by_order (above gt lt) = inr (gt, lt)

  pub Below-later :
      (k : Value) (ks : List Value)
      → IsKey kind k
      → All (IsKey kind) ks
      → Below kind key k
      → All (Below kind k) ks
      → All (Below kind key) ks
  Below-later k [] hk hks lt h = tt
  Below-later k (j ∷ ks) hk (hj, hks) lt (h, hs) =
      (Below-trans kind key k j hkey hk hj lt h, Below-later k ks hk hks lt hs)

  pub Above-All :
      (ks : List Value)
      → All (IsKey kind) ks
      → All (Below kind key) ks
      → All (λ k. Above kind k key) ks
  Above-All [] hks h = tt
  Above-All (j ∷ ks) (hj, hks) (h, hs) = (Below-flip kind key j hkey hj h, Above-All ks hks hs)

  -- the answer that the search reads at its position is the walk's
  abbrev pub Found : List Value → List (List Tid) → ℕ → Type 0
  Found ks vs n =
      (b : Bool) × (matches_key kind key (get_elem? ks n) ≡ some b)
      × ((if b then get_elem? vs n else some []) ≡ some (tids_of kind ks vs key))

  pub matches_key-Found :
      (ks : List Value) (vs : List (List Tid)) (n : ℕ)
      → SplitsAt is_negative kind key ks n
      → IsLeaf kind ks vs
      → Found ks vs n
  unfolding tids_of
  matches_key-Found [] vs n s leaf = rw s (false, refl, refl)
  matches_key-Found (k ∷ ks) [] n s leaf = absurd (omega (arith, leaf.paired))
  matches_key-Found (k ∷ ks) (v ∷ vs) zero (m, s) leaf =
      let (hk, hks) = leaf.typed in
      let (first, _) = leaf.ascending in
      elim (stopped k hk m) [
        | inl (same, zero_sign) ↦ (true, rw zero_sign refl, rw zero_sign refl)
        | inr (gt, lt) ↦ (
          false,
          rw gt refl,
          rw (gt, tids_of-Above ks vs (Above-All ks hks (Below-later k ks hk hks lt first))) refl,
        )
      ]
  matches_key-Found (k ∷ ks) (v ∷ vs) (suc n) (m, s) leaf =
      let (hk, hks) = leaf.typed in
      let (first, rest) = leaf.ascending in
      let (b, matches, at) =
        matches_key-Found ks vs n s
          (record { typed = hks; ascending = rest; paired = omega (arith, leaf.paired) }) in
      (b, matches, rw (moved-Below k hk m) at)
