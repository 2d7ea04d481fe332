-- ===== src/Index/Tree.antt =====
-- Trees of nodes with their leaves, and what a key of an inner node says of a key that is looked for.
use gopher_db.Base.Int.{ℤ}
use gopher_db.Base.Outcome.{Outcome, ok}
use gopher_db.Base.Select.{All}
use gopher_db.Base.{
  ℕ, zero, suc, ◌≡◌, refl, sym, ap, subst, ◌∙◌, ◌⊎◌, inl, inr, true, false, List, [], ◌∷◌, ◌++◌,
  append_assoc,
}
use gopher_db.Index.Bounds.{Moves}
use gopher_db.Index.Chain.{leaf_keys, All-append}
use gopher_db.Index.Keys.{KeyKind, is_not_positive}
use gopher_db.Index.Node.{BtreeNode}
use gopher_db.Index.Order.{
  IsKey, Below, Above, KeyOrder, below, equal, above, compare_keys-KeyOrder, Below-trans, Ascending,
  Below-flip,
}
use gopher_db.Value.{Value}

-- The children hold these leaves, one behind the other: between two children stands a key that is above the keys of
-- the first and not above those of the second.
abbrev pub Forest :
    (ℤ → List BtreeNode → Type 0) → KeyKind → List Value → List ℤ → List BtreeNode → Type 0
Forest P kind [] (c ∷ []) leaves = P c leaves
Forest P kind (k ∷ ks) (c ∷ cs) leaves =
    (own : List BtreeNode) × (later : List BtreeNode) × (leaves ≡ own ++ later)
    × P c own
    × All (λ j. Below kind j k) (leaf_keys own)
    × All (λ j. (j ≡ k) ⊎ Below kind k j) (leaf_keys later)
    × Forest P kind ks cs later
Forest P kind _ _ leaves = ⊥

-- a tree of this height has these leaves
abbrev pub IsTree :
    {E : Type 0} → (ℤ → Outcome E BtreeNode) → KeyKind → ℕ → ℤ → List BtreeNode → Type 0
IsTree {E} read kind zero id leaves =
    (leaf : BtreeNode) × (◌≡◌ {A = Outcome E BtreeNode} (read id) (ok leaf))
    × (leaf.is_leaf ≡ true)
    × (leaves ≡ leaf ∷ [])
IsTree {E} read kind (suc height) id leaves =
    (node : BtreeNode) × (◌≡◌ {A = Outcome E BtreeNode} (read id) (ok node))
    × (node.is_leaf ≡ false)
    × All (IsKey kind) node.keys
    × Ascending kind node.keys
    × Forest (IsTree read kind height) kind node.keys node.children leaves

pub leaf_keys-append :
    (xs ys : List BtreeNode) → leaf_keys (xs ++ ys) ≡ leaf_keys xs ++ leaf_keys ys
unfolding leaf_keys
leaf_keys-append [] ys = refl
leaf_keys-append (x ∷ xs) ys =
    ap (λ more. x.keys ++ more) (leaf_keys-append xs ys)
    ∙ sym (append_assoc x.keys (leaf_keys xs) (leaf_keys ys))

append-All : {A : Type 0} (P : A → Type 0) (xs ys : List A) → All P xs → All P ys → All P (xs ++ ys)
append-All P [] ys h k = k
append-All P (x ∷ xs) ys (h, hs) k = (h, append-All P xs ys hs k)

module _ (P : Value → Type 0) where
  pub All-leaves :
      (xs ys : List BtreeNode)
      → All P (leaf_keys (xs ++ ys))
      → All P (leaf_keys xs) × All P (leaf_keys ys)
  All-leaves xs ys h =
      All-append P (leaf_keys xs) (leaf_keys ys) (subst (All P) (leaf_keys-append xs ys) h)

  pub leaves-All :
      (xs ys : List BtreeNode)
      → All P (leaf_keys xs)
      → All P (leaf_keys ys)
      → All P (leaf_keys (xs ++ ys))
  leaves-All xs ys h k =
      subst (All P) (sym (leaf_keys-append xs ys)) (append-All P (leaf_keys xs) (leaf_keys ys) h k)

module _ (kind : KeyKind) (key : Value) (hkey : IsKey kind key) where
  -- the leaves around those where the key may be
  pub record Around (own leaves : List BtreeNode) : Type 0 where
    pub before : List BtreeNode
    pub after : List BtreeNode
    pub parts : leaves ≡ before ++ (own ++ after)
    pub all_below : All (λ j. Below kind j key) (leaf_keys before)
    pub all_above : All (λ j. Above kind j key) (leaf_keys after)

  pub pass_up :
      (k : Value) (js : List Value)
      → IsKey kind k
      → All (IsKey kind) js
      → Below kind key k
      → All (λ j. (j ≡ k) ⊎ Below kind k j) js
      → All (λ j. Above kind j key) js
  pass_up k [] hk hjs lt all = tt
  pass_up k (j ∷ js) hk (hj, hjs) lt (inl e, all) = (
    Below-flip kind key j hkey hj (subst (λ x. Below kind key x) (sym e) lt),
    pass_up k js hk hjs lt all,
  )
  pass_up k (j ∷ js) hk (hj, hjs) lt (inr lt', all) = (
    Below-flip kind key j hkey hj (Below-trans kind key k j hkey hk hj lt lt'),
    pass_up k js hk hjs lt all,
  )

  pub pass_down :
      (k : Value) (js : List Value)
      → IsKey kind k
      → All (IsKey kind) js
      → (k ≡ key) ⊎ Below kind k key
      → All (λ j. Below kind j k) js
      → All (λ j. Below kind j key) js
  pass_down k [] hk hjs le all = tt
  pass_down k (j ∷ js) hk (hj, hjs) (inl e) (h, all) =
      (subst (λ x. Below kind j x) e h, pass_down k js hk hjs (inl e) all)
  pass_down k (j ∷ js) hk (hj, hjs) (inr lt) (h, all) =
      (Below-trans kind j k key hj hk hkey h lt, pass_down k js hk hjs (inr lt) all)

  pub moved :
      (k : Value)
      → IsKey kind k
      → Moves is_not_positive kind key k true
      → (k ≡ key) ⊎ Below kind k key
  moved k hk (sign, e, m) = by_order (compare_keys-KeyOrder kind k key hk hkey)
    where
      by_order : KeyOrder kind k key → (k ≡ key) ⊎ Below kind k key
      by_order (below lt _) = inr lt
      by_order (equal e _) = inl e
      by_order (above gt _) = absurd cc

  pub stayed :
      (k : Value) → IsKey kind k → Moves is_not_positive kind key k false → Below kind key k
  stayed k hk (sign, e, m) = by_order (compare_keys-KeyOrder kind k key hk hkey)
    where
      by_order : KeyOrder kind k key → Below kind key k
      by_order (below lt _) = absurd cc
      by_order (equal _ same) = absurd cc
      by_order (above _ lt) = lt
