-- ===== src/Index/Order.antt =====
-- Keys of one index are in a total order, by `compareKeys`.
use gopher_db.Base.Int.{ℤ, pos, negsuc, lt_ℤ}
use gopher_db.Base.{
  ◌≡◌, refl, ap, inl, inr, Bool, true, false, Option, some, arith, List, [], ◌∷◌, Bool-cases,
}
use gopher_db.Base.Select.{All}
use gopher_db.Bytes.Compare.{lt_bytes, lt_bytes_irrefl, lt_bytes_trans, lt_bytes_total}
use gopher_db.Bytes.Copy.{Bytes}
use gopher_db.Index.Keys.{KeyKind, int64_key, varchar_key, other_key, compare_keys}
use gopher_db.Base.{if◌then◌else◌}
use gopher_db.Value.{Value, int64, string}

-- the key is of the index's type
abbrev pub IsKey : KeyKind → Value → Type 0
IsKey int64_key v = (n : ℤ) × (v ≡ int64 n)
IsKey varchar_key v = (s : Bytes) × (v ≡ string s)
IsKey other_key v = ⊥

abbrev pub Below : KeyKind → Value → Value → Type 0
Below kind a b = compare_keys kind a b ≡ some (negsuc 0)

abbrev pub Above : KeyKind → Value → Value → Type 0
Above kind a b = compare_keys kind a b ≡ some (pos 1)

pub data KeyOrder (kind : KeyKind) (a b : Value) : Type 0 where
  below : Below kind a b → Above kind b a → KeyOrder kind a b
  equal : a ≡ b → compare_keys kind a b ≡ some (pos 0) → KeyOrder kind a b
  above : Above kind a b → Below kind b a → KeyOrder kind a b

-- a strict total order on a type, as a test
pub record IsOrder {A : Type 0} (lt : A → A → Bool) : Type 0 where
  irreflexive : (a : A) → lt a a ≡ false
  transitive : (a b c : A) → lt a b ≡ true → lt b c ≡ true → lt a c ≡ true
  total : (a b : A) → lt a b ≡ false → lt b a ≡ false → a ≡ b

pub lt_ℤ-IsOrder : IsOrder lt_ℤ
lt_ℤ-IsOrder = record { irreflexive = irreflexive; transitive = transitive; total = total }
  where
    irreflexive : (a : ℤ) → lt_ℤ a a ≡ false
    irreflexive (pos a) = ground arith
    irreflexive (negsuc a) = ground arith

    transitive : (a b c : ℤ) → lt_ℤ a b ≡ true → lt_ℤ b c ≡ true → lt_ℤ a c ≡ true
    transitive (pos a) (pos b) (pos c) h k = ground arith
    transitive (pos a) (pos b) (negsuc c) h k = cc
    transitive (pos a) (negsuc b) c h k = cc
    transitive (negsuc a) b (pos c) h k = refl
    transitive (negsuc a) (pos b) (negsuc c) h k = cc
    transitive (negsuc a) (negsuc b) (negsuc c) h k = ground arith

    total : (a b : ℤ) → lt_ℤ a b ≡ false → lt_ℤ b a ≡ false → a ≡ b
    total (pos a) (pos b) h k = ground arith
    total (pos a) (negsuc b) h k = cc
    total (negsuc a) (pos b) h k = cc
    total (negsuc a) (negsuc b) h k = ground arith

pub lt_bytes-IsOrder : IsOrder lt_bytes
lt_bytes-IsOrder = record {
  irreflexive = lt_bytes_irrefl;
  transitive = lt_bytes_trans;
  total = lt_bytes_total;
}

module _ {A : Type 0} (lt : A → A → Bool) (order : IsOrder lt) where
  pub asymmetric : (a b : A) → lt a b ≡ true → lt b a ≡ false
  asymmetric a b h = elim (Bool-cases (lt b a)) [
    | inr ge ↦ ge
    | inl gt ↦ cc (order.irreflexive a, order.transitive a b a h gt)
  ]

pub compare_keys-KeyOrder :
    (kind : KeyKind) (v w : Value) → IsKey kind v → IsKey kind w → KeyOrder kind v w
unfolding compare_keys
compare_keys-KeyOrder int64_key v w (a, e) (b, f) =
    rw (e, f)
      (elim (Bool-cases (lt_ℤ a b)) [
        | inl lt ↦ below (rw lt) (rw (lt, asymmetric lt_ℤ lt_ℤ-IsOrder a b lt))
        | inr ge ↦ elim (Bool-cases (lt_ℤ b a)) [
          | inl gt ↦ above (rw (ge, gt)) (rw gt)
          | inr le ↦ equal (ap int64 (lt_ℤ-IsOrder.total a b ge le)) (rw (ge, le))
        ]
      ])
compare_keys-KeyOrder varchar_key v w (a, e) (b, f) =
    rw (e, f)
      (elim (Bool-cases (lt_bytes a b)) [
        | inl lt ↦ below (rw lt) (rw (lt, asymmetric lt_bytes lt_bytes-IsOrder a b lt))
        | inr ge ↦ elim (Bool-cases (lt_bytes b a)) [
          | inl gt ↦ above (rw (ge, gt)) (rw gt)
          | inr le ↦ equal (ap string (lt_bytes_total a b ge le)) (rw (ge, le))
        ]
      ])
compare_keys-KeyOrder other_key v w h k = absurd h

abbrev pub sign_of : Bool → Bool → ℤ
sign_of lt gt = if lt then negsuc 0 else if gt then pos 1 else pos 0

sign_of_lt :
    (lt gt : Bool) → ◌≡◌ {A = Option ℤ} (some (sign_of lt gt)) (some (negsuc 0)) → lt ≡ true
sign_of_lt true gt h = refl
sign_of_lt false true h = cc
sign_of_lt false false h = cc

pub Below-trans :
    (kind : KeyKind) (u v w : Value)
    → IsKey kind u
    → IsKey kind v
    → IsKey kind w
    → Below kind u v
    → Below kind v w
    → Below kind u w
unfolding compare_keys
Below-trans int64_key u v w (a, eu) (b, ev) (c, ew) h k =
    let h' = sign_of_lt (lt_ℤ a b) (lt_ℤ b a) (rw (eu, ev) at h) in
    let k' = sign_of_lt (lt_ℤ b c) (lt_ℤ c b) (rw (ev, ew) at k) in
    rw (eu, ew, lt_ℤ-IsOrder.transitive a b c h' k')
Below-trans varchar_key u v w (a, eu) (b, ev) (c, ew) h k =
    let h' = sign_of_lt (lt_bytes a b) (lt_bytes b a) (rw (eu, ev) at h) in
    let k' = sign_of_lt (lt_bytes b c) (lt_bytes c b) (rw (ev, ew) at k) in
    rw (eu, ew, lt_bytes_trans a b c h' k')
Below-trans other_key u v w hu hv hw h k = absurd hu

-- every key is below all the keys behind it
abbrev pub Ascending : KeyKind → List Value → Type 0
Ascending kind [] = Unit
Ascending kind (k ∷ ks) = All (Below kind k) ks × Ascending kind ks

pub Below-flip :
    (kind : KeyKind) (a b : Value) → IsKey kind a → IsKey kind b → Below kind a b → Above kind b a
Below-flip kind a b ha hb h = flipped (compare_keys-KeyOrder kind a b ha hb)
  where
    flipped : KeyOrder kind a b → Above kind b a
    flipped (below lt gt) = gt
    flipped (equal e same) = cc
    flipped (above gt lt) = cc
