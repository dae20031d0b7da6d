-- ===== src/AutoHeight/Watched.antt =====
-- AutoHeightController.js: when the timer runs, and when a height is dispatched.
use mxzz_bi.Prelude.{
  ℕ, zero, suc, String, ◌≡◌, refl, ◌∙◌, Bool, true, false, not, ◌||◌, Option, none, some, List, [],
  ◌∷◌, ◌==◌, filter, str_eq, if◌then◌else◌, Bool-cases, inl, inr, arith,
}
use mxzz_bi.Parameters.Normalize.{member}
use mxzz_bi.AutoHeight.{
  Slot, removed, watched, Controller, new, is_watched, exists_in, any_watched, is_empty, put_slot,
  add, remove, add_all, remove_all, keys, update, same_height, check_slot, check_height_changes,
}

-- The timer runs exactly while some widget is watched.
abbrev pub IsTimed : Controller → Type 0
IsTimed c = c.running ≡ not (is_empty c)

any_watched-put_slot :
    (id : String) (h : Option ℕ) (ws : List (String × Slot))
    → any_watched (put_slot id (watched h) ws) ≡ true
unfolding put_slot
any_watched-put_slot id h [] = refl
any_watched-put_slot id h ((k, s) ∷ ws) = elim (Bool-cases (str_eq id k)) [
  | inl e ↦ rw e refl
  | inr e ↦ rw e (or_true (is_watched s) _ (any_watched-put_slot id h ws))
]
  where
    or_true : (a b : Bool) → b ≡ true → (a || b) ≡ true
    or_true true b h = refl
    or_true false b h = h

if_or : (t a b c : Bool) → (if t then a else b) ≡ true → (b ≡ true → c ≡ true) → (a || c) ≡ true
if_or true true b c h k = refl
if_or true false b c h k = cc
if_or false true b c h k = refl
if_or false false b c h k = k h

any_watched-exists_in :
    (id : String) (ws : List (String × Slot)) → exists_in id ws ≡ true → any_watched ws ≡ true
any_watched-exists_in id [] h = cc
any_watched-exists_in id ((k, s) ∷ ws) h =
    if_or (str_eq id k) (is_watched s) (exists_in id ws) (any_watched ws) h
      (any_watched-exists_in id ws)

started : (a r : Bool) → r ≡ not (not a) → (if not a then true else r) ≡ true
started true r h = h
started false r h = refl

stopped : (a r : Bool) → r ≡ true → (if not a then false else r) ≡ not (not a)
stopped true r h = h
stopped false r h = refl

add-IsTimed : (id : String) (c : Controller) → IsTimed c → IsTimed (add id c)
unfolding add
add-IsTimed id c h =
    rw (any_watched-put_slot id none c.widgets) (started (any_watched c.widgets) c.running h)

twice : (a : Bool) → a ≡ true → not (not a) ≡ true
twice true h = refl
twice false h = cc

remove-IsTimed : (id : String) (c : Controller) → IsTimed c → IsTimed (remove id c)
unfolding remove
remove-IsTimed id c h = elim (Bool-cases (exists_in id c.widgets)) [
  | inl e ↦ rw e (
      stopped (any_watched (put_slot id removed c.widgets)) c.running
        (h ∙ twice (any_watched c.widgets) (any_watched-exists_in id c.widgets e)))
  | inr e ↦ rw e h
]

add_all-IsTimed : (ids : List String) (c : Controller) → IsTimed c → IsTimed (add_all ids c)
unfolding add_all
add_all-IsTimed [] c h = h
add_all-IsTimed (id ∷ ids) c h = add_all-IsTimed ids (add id c) (add-IsTimed id c h)

remove_all-IsTimed : (ids : List String) (c : Controller) → IsTimed c → IsTimed (remove_all ids c)
unfolding remove_all
remove_all-IsTimed [] c h = h
remove_all-IsTimed (id ∷ ids) c h = remove_all-IsTimed ids (remove id c) (remove-IsTimed id c h)

update-IsTimed : (ids : List String) (c : Controller) → IsTimed c → IsTimed (update ids c)
unfolding update
update-IsTimed ids c h =
    let added = add_all (filter (λ id. not (member id (keys c))) ids) c in
    remove_all-IsTimed (filter (λ id. not (member id ids)) (keys added)) added
      (add_all-IsTimed (filter (λ id. not (member id (keys c))) ids) c h)

abbrev pub updates : List (List String) → Controller → Controller
updates [] c = c
updates (ids ∷ us) c = updates us (update ids c)

updates_from-IsTimed :
    (us : List (List String)) (c : Controller) → IsTimed c → IsTimed (updates us c)
updates_from-IsTimed [] c h = h
updates_from-IsTimed (ids ∷ us) c h =
    updates_from-IsTimed us (update ids c) (update-IsTimed ids c h)

-- However often the widgets are updated, the timer runs exactly while some widget is watched.
pub updates-IsTimed : (us : List (List String)) → IsTimed (updates us new)
updates-IsTimed us = updates_from-IsTimed us new refl

same_height_self : (h : ℕ) → (h == h) ≡ true
same_height_self h = ground arith

check_slot-check_slot :
    (h : Option ℕ) (s : Slot) → check_slot h (check_slot h s).0 ≡ ((check_slot h s).0, none)
unfolding check_slot
check_slot-check_slot h removed = refl
check_slot-check_slot none (watched p) = refl
check_slot-check_slot (some zero) (watched p) = refl
check_slot-check_slot (some (suc h)) (watched p) = elim (Bool-cases (same_height (suc h) p)) [
  | inl e ↦ rw (e, e)
  | inr e ↦ rw (e, same_height_self (suc h))
]

-- A height is dispatched once: a second check at the same heights changes nothing and calls nothing.
check_height_changes-check_height_changes :
    (height : String → Option ℕ) (ws : List (String × Slot))
    → check_height_changes height (check_height_changes height ws).0
      ≡ ((check_height_changes height ws).0, [])
unfolding check_height_changes
check_height_changes-check_height_changes height [] = refl
check_height_changes-check_height_changes height ((k, s) ∷ ws) =
    rw (check_slot-check_slot (height k) s, check_height_changes-check_height_changes height ws)
