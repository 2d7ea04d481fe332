-- ===== src/Index/Inserted.antt =====
-- The keys and lists of a leaf after `insertIntoLeaf`, against the walk over all keys.
use gopher_db.Base.Int.{pos}
use gopher_db.Base.Select.{All}
use gopher_db.Base.{
  ℕ, zero, suc, ◌≡◌, refl, ap, subst, inl, inr, Bool, true, false, List, [], ◌∷◌, ◌++◌, some, arith,
  length, get_elem?, if◌then◌else◌, Bool-cases,
}
use gopher_db.Index.Bounds.{Moves, SplitsAt}
use gopher_db.Index.Keys.{KeyKind, compare_keys, is_negative}
use gopher_db.Index.Leaf.{insert_at, append_at, matches_key}
use gopher_db.Index.Node.{Tid}
use gopher_db.Index.Order.{
  IsKey, Below, Above, KeyOrder, below, equal, above, compare_keys-KeyOrder, Below-flip,
}
use gopher_db.Value.{Value}
use gopher_db.Index.Position.{
  is_same, tids_of, IsLeaf, tids_of-Above, moved-Below, stopped, Below-later, Above-All,
}

-- the tuples of a key after the insertion
abbrev pub added : KeyKind → Value → Tid → List Value → List (List Tid) → Value → List Tid
added kind key tid ks vs k2 =
    if is_same (compare_keys kind key k2)
    then tids_of kind ks vs k2 ++ tid ∷ []
    else tids_of kind ks vs k2

module _ (kind : KeyKind) (key : Value) (hkey : IsKey kind key) (tid : Tid) where
  -- a key of its own, with the one tuple
  inserted_first :
      (ks : List Value) (vs : List (List Tid)) (k2 : Value)
      → IsKey kind k2
      → All (λ k. Above kind k key) ks
      → tids_of kind (key ∷ ks) ((tid ∷ []) ∷ vs) k2 ≡ added kind key tid ks vs k2
  unfolding tids_of
  inserted_first ks vs k2 hk2 above_all = by_order (compare_keys-KeyOrder kind key k2 hkey hk2)
    where
      by_order :
          KeyOrder kind key k2
          → tids_of kind (key ∷ ks) ((tid ∷ []) ∷ vs) k2 ≡ added kind key tid ks vs k2
      by_order (below lt _) = rw lt refl
      by_order (equal e same) =
          rw
            (
              same,
              subst (λ k. tids_of kind ks vs k ≡ []) e
                  (tids_of-Above kind key hkey ks vs above_all),
            )
            refl
      by_order (above gt _) = rw gt refl

  -- a key behind the first one does not touch the first one's tuples
  behind :
      (k : Value) (ks ks' : List Value) (v : List Tid) (vs vs' : List (List Tid)) (k2 : Value)
      → IsKey kind k
      → IsKey kind k2
      → Below kind k key
      → tids_of kind ks' vs' k2 ≡ added kind key tid ks vs k2
      → tids_of kind (k ∷ ks') (v ∷ vs') k2 ≡ added kind key tid (k ∷ ks) (v ∷ vs) k2
  unfolding tids_of
  behind k ks ks' v vs vs' k2 hk hk2 lt ih = by_order (compare_keys-KeyOrder kind k k2 hk hk2)
    where
      by_order :
          KeyOrder kind k k2
          → tids_of kind (k ∷ ks') (v ∷ vs') k2 ≡ added kind key tid (k ∷ ks) (v ∷ vs) k2
      by_order (below less _) = rw less ih
      by_order (equal e same) =
          rw
            (
              same,
              subst (λ j. compare_keys kind key j ≡ some (pos 1)) e
                  (Below-flip kind k key hk hkey lt),
            )
            refl
      by_order (above gt _) = rw gt ih

  -- the lists after the insertion at the position
  abbrev pub Inserts : List Value → List (List Tid) → ℕ → Bool → Type 0
  Inserts ks vs n true =
      (vs' : List (List Tid)) × (append_at n tid vs ≡ some vs')
      × (length vs' ≡ length vs)
      × ((k2 : Value) → IsKey kind k2 → tids_of kind ks vs' k2 ≡ added kind key tid ks vs k2)
  Inserts ks vs n false =
      IsLeaf kind (insert_at n key ks) (insert_at n (tid ∷ []) vs)
      × ((k2 : Value)
          → IsKey kind k2
          → tids_of kind (insert_at n key ks) (insert_at n (tid ∷ []) vs) k2
            ≡ added kind key tid ks vs k2)

  insert_at-All :
      (P : Value → Type 0) (ks : List Value) (n : ℕ) → P key → All P ks → All P (insert_at n key ks)
  unfolding insert_at
  insert_at-All P ks zero h hs = (h, hs)
  insert_at-All P [] (suc n) h hs = (h, tt)
  insert_at-All P (k ∷ ks) (suc n) h (h', hs) = (h', insert_at-All P ks n h hs)

  Inserts-suc :
      (k : Value) (ks : List Value) (v : List Tid) (vs : List (List Tid)) (n : ℕ) (b : Bool)
      → IsLeaf kind (k ∷ ks) (v ∷ vs)
      → Below kind k key
      → Inserts ks vs n b
      → Inserts (k ∷ ks) (v ∷ vs) (suc n) b
  unfolding insert_at append_at
  Inserts-suc k ks v vs n true leaf lt (vs', e, len, tids) =
      let (hk, _) = leaf.typed in
      (v ∷ vs', rw e refl, ap suc len, λ k2 hk2. behind k ks ks v vs vs' k2 hk hk2 lt (tids k2 hk2))
  Inserts-suc k ks v vs n false leaf lt (after, tids) =
      let (hk, _) = leaf.typed in
      let (first, _) = leaf.ascending in
      (
        record {
          typed = (hk, after.typed);
          ascending = (insert_at-All (Below kind k) ks n lt first, after.ascending);
          paired = ap suc after.paired;
        },
        λ k2 hk2. behind k ks _ v vs _ k2 hk hk2 lt (tids k2 hk2),
      )

  -- the test and the insertion at the position
  unfoldable pub Inserted : List Value → List (List Tid) → ℕ → Type 0
  Inserted ks vs n =
      (b : Bool) × (matches_key kind key (get_elem? ks n) ≡ some b) × Inserts ks vs n b

  same_first :
      (k : Value) (ks : List Value) (v : List Tid) (vs : List (List Tid)) (k2 : Value)
      → tids_of kind (k ∷ ks) ((v ++ tid ∷ []) ∷ vs) k2 ≡ (
          if is_same (compare_keys kind k k2)
          then tids_of kind (k ∷ ks) (v ∷ vs) k2 ++ tid ∷ []
          else tids_of kind (k ∷ ks) (v ∷ vs) k2)
  unfolding tids_of
  same_first k ks v vs k2 = elim (Bool-cases (is_same (compare_keys kind k k2))) [
    | inl h ↦ rw h refl
    | inr h ↦ rw h refl
  ]

  insert_here :
      (k : Value) (ks : List Value) (v : List Tid) (vs : List (List Tid))
      → IsLeaf kind (k ∷ ks) (v ∷ vs)
      → Moves is_negative kind key k false
      → Inserted (k ∷ ks) (v ∷ vs) 0
  unfolding Inserted insert_at append_at tids_of
  insert_here k ks v vs leaf m =
      let (hk, hks) = leaf.typed in
      let (first, _) = leaf.ascending in
      elim (stopped kind key hkey k hk m) [
        | inl (same, zero_sign) ↦ (
          true,
          rw zero_sign refl,
          (
            (v ++ tid ∷ []) ∷ vs,
            refl,
            refl,
            λ k2 hk2.
                subst
                  (λ j. tids_of kind (k ∷ ks) ((v ++ tid ∷ []) ∷ vs) k2 ≡ (
                    if is_same (compare_keys kind j k2)
                    then tids_of kind (k ∷ ks) (v ∷ vs) k2 ++ tid ∷ []
                    else tids_of kind (k ∷ ks) (v ∷ vs) k2))
                  same (same_first k ks v vs k2),
          ),
        )
        | inr (gt, lt) ↦
            let later = Below-later kind key hkey k ks hk hks lt first in
            (
              false,
              rw gt refl,
              (
                record {
                  typed = (hkey, leaf.typed);
                  ascending = ((lt, later), leaf.ascending);
                  paired = ap suc leaf.paired;
                },
                λ k2 hk2.
                    inserted_first (k ∷ ks) (v ∷ vs) k2 hk2
                      (gt, Above-All kind key hkey ks hks later),
              ),
            )
      ]

  pub insert_at_position :
      (ks : List Value) (vs : List (List Tid)) (n : ℕ)
      → SplitsAt is_negative kind key ks n
      → IsLeaf kind ks vs
      → Inserted ks vs n
  unfolding Inserted insert_at
  insert_at_position [] [] n s leaf = rw s (
    false,
    refl,
    (
      record { typed = (hkey, tt); ascending = (tt, tt); paired = refl },
      λ k2 hk2. inserted_first [] [] k2 hk2 tt,
    ),
  )
  insert_at_position [] (v ∷ vs) n s leaf = absurd (omega (arith, leaf.paired))
  insert_at_position (k ∷ ks) [] n s leaf = absurd (omega (arith, leaf.paired))
  insert_at_position (k ∷ ks) (v ∷ vs) zero (m, s) leaf = insert_here k ks v vs leaf m
  insert_at_position (k ∷ ks) (v ∷ vs) (suc n) (m, s) leaf =
      let (hk, hks) = leaf.typed in
      let (first, rest) = leaf.ascending in
      let (b, matches, inserts) =
        insert_at_position ks vs n s
          (record { typed = hks; ascending = rest; paired = omega (arith, leaf.paired) }) in
      (b, matches, Inserts-suc k ks v vs n b leaf (moved-Below kind key hkey k hk m) inserts)
