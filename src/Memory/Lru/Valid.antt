-- ===== src/Memory/Lru/Valid.antt =====
-- The LRU replacer's invariant, and that it meets the replacer's laws.
use gopher_db.Base.{
  ◌≡◌, refl, sym, subst, ◌∙◌, Bool, true, false, not, ◌&&◌, ◌||◌, List, [], ◌∷◌, ◌++◌, none, some,
  arith,
}
use gopher_db.Memory.Keys.{
  mem, remove, Distinct, mem-append, Distinct-remove, mem-remove, remove_absent, Distinct-concat,
}
use gopher_db.Memory.Lru.{LruReplacer, new_lru_replacer, push, delete, pick_front, pick_victim}
use gopher_db.Memory.Replacer.{Replacer}
use gopher_db.Memory.Slot.{PageKey, eq_key, eq_key-cases, eq_key_refl}

-- The list has no key twice, and the map's keys are those of the list.
pub record IsValid (r : LruReplacer) : Type 0 where
  pub distinct : Distinct r.linked_list
  pub map_distinct : Distinct r.lru
  pub agrees : (k : PageKey) → mem k r.lru ≡ mem k r.linked_list

abbrev pub tracks : PageKey → LruReplacer → Bool
tracks k r = mem k r.linked_list

pub new_lru_replacer-IsValid : IsValid new_lru_replacer
new_lru_replacer-IsValid = record { distinct = tt; map_distinct = tt; agrees = λ k. refl }

-- On a valid state `Push` of an unpinned slot moves its key to the back, whether or not it was there.
pub push-remove :
    (k : PageKey) (r : LruReplacer)
    → IsValid r
    → (push k false r).linked_list ≡ remove k r.linked_list ++ (k ∷ [])
unfolding push
push-remove k r h = ground (arith, h.agrees k, remove_absent k r.linked_list)

pub push-IsValid :
    (k : PageKey) (pinned : Bool) (r : LruReplacer) → IsValid r → IsValid (push k pinned r)
unfolding push mem
push-IsValid k true r h = h
push-IsValid k false r h = record {
  distinct = ground (
    arith,
    Distinct-concat k (remove k r.linked_list),
    Distinct-concat k r.linked_list,
    Distinct-remove k r.linked_list h.distinct,
    mem-remove k k r.linked_list h.distinct,
    eq_key_refl k,
    h.agrees k,
    h.distinct,
  );
  map_distinct = ground (arith, h.map_distinct);
  agrees = λ j. ground (
    arith,
    h.agrees j,
    h.agrees k,
    mem-append j (remove k r.linked_list) (k ∷ []),
    mem-append j r.linked_list (k ∷ []),
    mem-remove j k r.linked_list h.distinct,
    eq_key-cases k j,
  );
}

pub tracks-push :
    (j k : PageKey) (r : LruReplacer)
    → IsValid r
    → tracks j (push k false r) ≡ (eq_key k j || tracks j r)
unfolding mem
tracks-push j k r h = rw (push-remove k r h) (
    ground (
      arith,
      mem-append j (remove k r.linked_list) (k ∷ []),
      mem-remove j k r.linked_list h.distinct,
      eq_key-cases k j,
    ))

pub delete-IsValid : (k : PageKey) (r : LruReplacer) → IsValid r → IsValid (delete k r)
unfolding delete
delete-IsValid k r h = record {
  distinct = ground (arith, Distinct-remove k r.linked_list h.distinct, h.distinct);
  map_distinct = ground (arith, Distinct-remove k r.lru h.map_distinct, h.map_distinct);
  agrees = λ j. ground (
    arith,
    h.agrees j,
    mem-remove j k r.linked_list h.distinct,
    mem-remove j k r.lru h.map_distinct,
  );
}

pub tracks-delete :
    (j k : PageKey) (r : LruReplacer)
    → IsValid r
    → tracks j (delete k r) ≡ (not (eq_key k j) && tracks j r)
unfolding delete
tracks-delete j k r h =
    ground (arith, h.agrees k, mem-remove j k r.linked_list h.distinct, eq_key-cases k j)

-- what a valid state's front entry says of the rest
front :
    (k : PageKey) (rest lru : List PageKey)
    → IsValid (record { linked_list = k ∷ rest; lru = lru })
    → (j : PageKey) → mem j rest ≡ (not (eq_key k j) && mem j (k ∷ rest))
unfolding mem
front k rest lru h j = ground (arith, eq_key-cases k j, h.distinct)

pick_front-IsValid :
    (l lru : List PageKey)
    → IsValid (record { linked_list = l; lru = lru })
    → IsValid (pick_front l lru).0
unfolding pick_front
pick_front-IsValid [] lru h = h
pick_front-IsValid (k ∷ rest) lru h = record {
  distinct = h.distinct.1;
  map_distinct = Distinct-remove k lru h.map_distinct;
  agrees = λ j. mem-remove j k lru h.map_distinct ∙ rw (h.agrees j) (sym (front k rest lru h j));
}

tracks-victim :
    (k : PageKey) (l lru : List PageKey) → (pick_front l lru).1 ≡ some k → mem k l ≡ true
unfolding pick_front mem
tracks-victim k [] lru e = cc
tracks-victim k (x ∷ rest) lru e = ground (arith, eq_key_refl x)

tracks-pick_front :
    (j k : PageKey) (l lru : List PageKey)
    → IsValid (record { linked_list = l; lru = lru })
    → (pick_front l lru).1 ≡ some k
    → tracks j (pick_front l lru).0 ≡ (not (eq_key k j) && mem j l)
unfolding pick_front
tracks-pick_front j k [] lru h e = cc
tracks-pick_front j k (x ∷ rest) lru h e =
    let same : x ≡ k = cc in
    subst (λ y. mem j rest ≡ (not (eq_key y j) && mem j (x ∷ rest))) same (front x rest lru h j)

no_victim :
    (l lru : List PageKey)
    → (pick_front l lru).1 ≡ none
    → (l ≡ []) × ((pick_front l lru).0 ≡ record { linked_list = l; lru = lru })
unfolding pick_front
no_victim [] lru e = (refl, refl)
no_victim (x ∷ rest) lru e = cc

pub push_pinned : (k : PageKey) (r : LruReplacer) → push k true r ≡ r
unfolding push
push_pinned k r = refl

pub pick_victim-IsValid : (r : LruReplacer) → IsValid r → IsValid (pick_victim r).0
unfolding pick_victim
pick_victim-IsValid r h = pick_front-IsValid r.linked_list r.lru h

pub tracks-pick_victim_self :
    (k : PageKey) (r : LruReplacer) → IsValid r → (pick_victim r).1 ≡ some k → tracks k r ≡ true
unfolding pick_victim
tracks-pick_victim_self k r h e = tracks-victim k r.linked_list r.lru e

pub tracks-pick_victim :
    (j k : PageKey) (r : LruReplacer)
    → IsValid r
    → (pick_victim r).1 ≡ some k
    → tracks j (pick_victim r).0 ≡ (not (eq_key k j) && tracks j r)
unfolding pick_victim
tracks-pick_victim j k r h e = tracks-pick_front j k r.linked_list r.lru h e

pub no_victim_tracks :
    (j : PageKey) (r : LruReplacer) → IsValid r → (pick_victim r).1 ≡ none → tracks j r ≡ false
unfolding pick_victim mem
no_victim_tracks j r h e = rw (no_victim r.linked_list r.lru e).0

pub no_victim_state :
    (r : LruReplacer) → IsValid r → (pick_victim r).1 ≡ none → (pick_victim r).0 ≡ r
unfolding pick_victim
no_victim_state r h e = (no_victim r.linked_list r.lru e).1

-- The LRU replacer meets the replacer's laws.
unfoldable pub lru_replacer : Replacer
lru_replacer = record {
  State = LruReplacer;
  IsValid = IsValid;
  tracks = tracks;
  push = push;
  delete = delete;
  pick_victim = pick_victim;
  push-IsValid = push-IsValid;
  tracks-push = tracks-push;
  push_pinned = push_pinned;
  delete-IsValid = delete-IsValid;
  tracks-delete = tracks-delete;
  pick_victim-IsValid = pick_victim-IsValid;
  tracks-victim = tracks-pick_victim_self;
  tracks-pick_victim = tracks-pick_victim;
  no_victim = no_victim_tracks;
  no_victim_state = no_victim_state;
}
