-- ===== src/Index/Descent.antt =====
-- `findLeaf` goes down to the only leaf that may hold a key.
use gopher_db.Base.Int.{ℤ}
use gopher_db.Base.Outcome.{Outcome, ok}
use gopher_db.Base.Select.{All}
use gopher_db.Base.{
  ℕ, zero, suc, ◌<◌, ◌≡◌, refl, sym, ap, subst, ◌∙◌, List, [], ◌∷◌, ◌++◌, some, arith, get_elem?,
  append_assoc, append-nil,
}
use gopher_db.Index.Bounds.{SplitsAt, lower_bound-upper_bound, Ascending-SplitsAt}
use gopher_db.Index.Chain.{leaf_keys}
use gopher_db.Index.Keys.{KeyKind, is_not_positive}
use gopher_db.Index.Node.{BtreeNode}
use gopher_db.Index.Order.{IsKey, Below, Above}
use gopher_db.Index.Search.{find_leaf}
use gopher_db.Value.{Value}
use gopher_db.Index.Tree.{
  Forest, IsTree, All-leaves, leaves-All, Around, pass_up, pass_down, moved, stayed,
}

module _ (kind : KeyKind) (key : Value) (hkey : IsKey kind key) where
  -- the child at the position that the search of the keys gives
  Child : (ℤ → List BtreeNode → Type 0) → List ℤ → List BtreeNode → ℕ → Type 0
  Child P children leaves n =
      (c : ℤ) × (own : List BtreeNode) × (get_elem? children n ≡ some c)
      × P c own
      × Around kind key hkey own leaves

  no_leaf : All (λ j. Below kind j key) (leaf_keys [])
  unfolding leaf_keys
  no_leaf = tt

  Around-all : (own : List BtreeNode) → Around kind key hkey own own
  unfolding leaf_keys
  Around-all own = record {
    before = [];
    after = [];
    parts = sym (append-nil own);
    all_below = tt;
    all_above = tt;
  }

  Around-trans :
      (own mid leaves : List BtreeNode)
      → Around kind key hkey own mid
      → Around kind key hkey mid leaves
      → Around kind key hkey own leaves
  Around-trans own mid leaves a b = record {
    before = b.before ++ a.before;
    after = a.after ++ b.after;
    parts =
        b.parts
        ∙ ap (λ xs. b.before ++ (xs ++ b.after)) a.parts
        ∙ ap (λ xs. b.before ++ xs)
            (append_assoc a.before (own ++ a.after) b.after
              ∙ ap (λ xs. a.before ++ xs) (append_assoc own a.after b.after))
        ∙ sym (append_assoc b.before a.before (own ++ (a.after ++ b.after)));
    all_below = leaves-All (λ j. Below kind j key) b.before a.before b.all_below a.all_below;
    all_above = leaves-All (λ j. Above kind j key) a.after b.after a.all_above b.all_above;
  }

  Forest-Child :
      (P : ℤ → List BtreeNode → Type 0) (ks : List Value) (cs : List ℤ) (leaves : List BtreeNode)
      (n : ℕ)
      → All (IsKey kind) ks
      → All (IsKey kind) (leaf_keys leaves)
      → SplitsAt is_not_positive kind key ks n
      → Forest P kind ks cs leaves
      → Child P cs leaves n
  unfolding Child
  Forest-Child P [] [] leaves n hks hls s h = absurd h
  Forest-Child P [] (c ∷ []) leaves n hks hls s h = rw s (c, leaves, refl, h, Around-all leaves)
  Forest-Child P [] (c ∷ d ∷ cs) leaves n hks hls s h = absurd h
  Forest-Child P (k ∷ ks) [] leaves n hks hls s h = absurd h
  Forest-Child P (k ∷ ks) (c ∷ cs) leaves zero (hk, hks) hls (m, s)
        (own, later, e, hc, lows, highs, more) =
      let (_, typed) =
        All-leaves (IsKey kind) own later (subst (λ xs. All (IsKey kind) (leaf_keys xs)) e hls) in
      (
        c,
        own,
        refl,
        hc,
        record {
          before = [];
          after = later;
          parts = e;
          all_below = no_leaf;
          all_above =
              pass_up kind key hkey k (leaf_keys later) hk typed (stayed kind key hkey k hk m)
                highs;
        },
      )
  Forest-Child P (k ∷ ks) (c ∷ cs) leaves (suc n) (hk, hks) hls (m, s)
        (own, later, e, hc, lows, highs, more) =
      let (typed, typed_later) =
        All-leaves (IsKey kind) own later (subst (λ xs. All (IsKey kind) (leaf_keys xs)) e hls) in
      let (d, found, at, hd, a) = Forest-Child P ks cs later n hks typed_later s more in
      (
        d,
        found,
        at,
        hd,
        record {
          before = own ++ a.before;
          after = a.after;
          parts =
              e ∙ ap (λ xs. own ++ xs) a.parts ∙ sym (append_assoc own a.before (found ++ a.after));
          all_below =
              leaves-All (λ j. Below kind j key) own a.before
                (pass_down kind key hkey k (leaf_keys own) hk typed (moved kind key hkey k hk m)
                  lows)
                a.all_below;
          all_above = a.all_above;
        },
      )

  -- The descent ends in a leaf of the tree; the leaves in front of it have only lower keys, and those behind it only
  -- higher ones.
  pub find_leaf-Around :
      {E : Type 0} (read : ℤ → Outcome E BtreeNode) (fuel height : ℕ) (id : ℤ)
      (leaves : List BtreeNode)
      → height < fuel
      → IsTree read kind height id leaves
      → All (IsKey kind) (leaf_keys leaves)
      → (leaf : BtreeNode) × (find_leaf fuel read kind key id ≡ ok leaf)
        × Around kind key hkey (leaf ∷ []) leaves
  unfolding find_leaf Child
  find_leaf-Around read zero height id leaves enough tree typed = absurd (omega (arith, enough))
  find_leaf-Around read (suc fuel) zero id leaves enough (leaf, reads, is_leaf, e) typed = (
    leaf,
    rw (reads, is_leaf) refl,
    subst (λ xs. Around kind key hkey (leaf ∷ []) xs) (sym e) (Around-all (leaf ∷ [])),
  )
  find_leaf-Around read (suc fuel) (suc height) id leaves enough
        (node, reads, inner, typed_keys, asc, forest) typed =
      let splits =
        Ascending-SplitsAt is_not_positive kind key hkey refl refl node.keys typed_keys asc in
      let (_, position) = lower_bound-upper_bound kind node.keys key hkey typed_keys asc in
      let (c, own, at, tree, a) =
        Forest-Child (IsTree read kind height) node.keys node.children leaves _ typed_keys typed
          splits forest in
      let (leaf, found, b) =
        find_leaf-Around read fuel height c own (omega (arith, enough)) tree (own_typed own a) in
      (leaf, rw (reads, inner, position, at) found, Around-trans (leaf ∷ []) own leaves b a)
    where
      own_typed :
          (own : List BtreeNode)
          → Around kind key hkey own leaves
          → All (IsKey kind) (leaf_keys own)
      own_typed own a =
          let (_, h) =
            All-leaves (IsKey kind) a.before (own ++ a.after)
              (subst (λ xs. All (IsKey kind) (leaf_keys xs)) a.parts typed) in
          let (k, _) = All-leaves (IsKey kind) own a.after h in k
