-- ===== src/Memory/Lru/Order.antt =====
-- Which slot the LRU replacer evicts.
use mathlib.Core.List.{head?}
use gopher_db.Base.{◌≡◌, refl, sym, ◌∙◌, false, append-nil, List, [], ◌∷◌, ◌++◌, append_assoc, ap}
use gopher_db.Memory.Lru.Recency.{keep_last, keep_last-concat}
use gopher_db.Memory.Lru.Valid.{IsValid, new_lru_replacer-IsValid, push-remove, push-IsValid}
use gopher_db.Memory.Lru.{LruReplacer, new_lru_replacer, push, pick_front, pick_victim}
use gopher_db.Memory.Slot.{PageKey}

-- pushes of unpinned slots, in order
abbrev pub pushes : List PageKey → LruReplacer → LruReplacer
pushes [] r = r
pushes (k ∷ ks) r = pushes ks (push k false r)

pushes-append :
    (ks h : List PageKey) (r : LruReplacer)
    → IsValid r
    → r.linked_list ≡ keep_last h
    → (pushes ks r).linked_list ≡ keep_last (h ++ ks)
pushes-append [] h r v e = rw append-nil e
pushes-append (k ∷ ks) h r v e =
    pushes-append ks (h ++ (k ∷ [])) (push k false r) (push-IsValid k false r v)
      (push-remove k r v ∙ rw e (sym (keep_last-concat k h)))
    ∙ ap keep_last (append_assoc h (k ∷ []) ks)

pick_front-head? : (l lru : List PageKey) → (pick_front l lru).1 ≡ head? l
unfolding pick_front
pick_front-head? [] lru = refl
pick_front-head? (k ∷ rest) lru = refl

-- After any series of pushes the list holds each pushed key once, in the order of the last pushes,
-- and the victim is the first of these: the key whose last push is the longest ago.
pub victim-keep_last :
    (ks : List PageKey)
    → ((pushes ks new_lru_replacer).linked_list ≡ keep_last ks)
      × ((pick_victim (pushes ks new_lru_replacer)).1 ≡ head? (keep_last ks))
unfolding pick_victim keep_last
victim-keep_last ks =
    let order = pushes-append ks [] new_lru_replacer new_lru_replacer-IsValid refl in
    (order, pick_front-head? _ _ ∙ ap head? order)
