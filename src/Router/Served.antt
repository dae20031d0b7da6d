-- ===== src/Router/Served.antt =====
-- Router.jsx: the page of the latest path is shown or on its way.
use mathlib.Core.Option.{some-injective, none-ne-some}
use mxzz_bi.Prelude.{
  ℕ, zero, suc, String, ◌≡◌, refl, sym, ap, ap₂, ◌∙◌, Bool, true, false, not, ◌&&◌, ◌||◌, Option,
  none, some, List, [], ◌∷◌, any, get_elem?, eq_iff, eq_refl, Bool-cases, Option-cases, inl, inr,
}
use mxzz_bi.Router.{
  same_path, NavigationAction, push, Outcome, Router, Event, navigate, answer, unmount, remove_at,
  is_current, is_replace, resolve, answered, step, run, new_router, mount,
}

same_path_refl : (p : Option String) → same_path p p ≡ true
same_path_refl none = refl
same_path_refl (some s) = eq_refl s

same_path→eq : (p q : Option String) → same_path p q ≡ true → p ≡ q
same_path→eq none none h = refl
same_path→eq none (some t) h = cc
same_path→eq (some s) none h = cc
same_path→eq (some s) (some t) h = ap some ((eq_iff s t).0 h)

abbrev pub is_resolving : Option String → List (Option String) → Bool
is_resolving p = any (same_path p)

or_right : (a b : Bool) → a ≡ false → (a || b) ≡ true → b ≡ true
or_right true b e h = cc
or_right false b e h = h

or_true : (a : Bool) → (a || true) ≡ true
or_true true = refl
or_true false = refl

or_first : (b c a : Bool) → (b ≡ true → c ≡ true) → (b || a) ≡ true → (c || a) ≡ true
or_first true c a f h = rw (f refl) refl
or_first false c true f h = or_true c
or_first false c false f h = cc

or_later : (a b c : Bool) → (b ≡ true → c ≡ true) → (a || b) ≡ true → (a || c) ≡ true
or_later true b c f h = refl
or_later false b c f h = f h

still_resolving :
    (p q : Option String) (xs : List (Option String)) (i : ℕ)
    → get_elem? xs i ≡ some q
    → same_path p q ≡ false
    → is_resolving p xs ≡ true
    → is_resolving p (remove_at i xs) ≡ true
still_resolving p q [] i g n h = h
still_resolving p q (x ∷ xs) zero g n h =
    or_right (same_path p x) (is_resolving p xs) (ap (same_path p) (some-injective x q g) ∙ n) h
still_resolving p q (x ∷ xs) (suc i) g n h =
    or_later (same_path p x) (is_resolving p xs) (is_resolving p (remove_at i xs))
      (still_resolving p q xs i g n) h

module _ {Route Error : Type 0} where
  abbrev pub is_shown : Option String → Option (Option String × Outcome Route Error) → Bool
  is_shown p none = false
  is_shown p (some (q, outcome)) = same_path p q

  -- While the router is mounted, for the latest path.
  abbrev IsServed : Router Route Error → Type 0
  IsServed r =
      (p : Option String)
      → r.is_abandoned ≡ false
      → r.current_path ≡ some p
      → (is_resolving p r.resolving || is_shown p r.current_route) ≡ true

  -- Without `replaceState`, which does not resolve the new path.
  abbrev pub NoReplace : List (Event Route Error) → Type 0
  NoReplace [] = Unit {0}
  NoReplace (navigate action p ∷ es) = (is_replace action ≡ false) × NoReplace es
  NoReplace (answer i o ∷ es) = NoReplace es
  NoReplace (unmount ∷ es) = NoReplace es

  resolve-IsServed :
      (action : NavigationAction) (path : Option String) (r : Router Route Error)
      → is_replace action ≡ false
      → IsServed r
      → IsServed (resolve action path r)
  unfolding resolve
  resolve-IsServed action path r n s =
      elim (Bool-cases (r.is_abandoned || is_current r.current_path path)) [
        | inl e ↦ rw e s
        | inr e ↦
            rw (e, n)
              (λ p a c.
                let t : same_path p path ≡ true =
                  ap (same_path p) (some-injective path p c) ∙ same_path_refl p in
                rw t refl)
      ]

  answered-IsServed :
      (path : Option String) (o : Outcome Route Error) (i : ℕ) (r : Router Route Error)
      → get_elem? r.resolving i ≡ some path
      → IsServed r
      → IsServed (answered path o (record r { resolving = remove_at i r.resolving }))
  unfolding answered
  answered-IsServed path o i r g s =
      elim (Bool-cases (not r.is_abandoned && is_current r.current_path path)) [
        | inl e ↦ rw e (λ p a c.
            let t : same_path p path ≡ true =
              sym (ap₂ (λ b o. not b && is_current o path) a c) ∙ e in
            rw t (or_true (is_resolving p (remove_at i r.resolving))))
        | inr e ↦ rw e (λ p a c.
            let n : same_path p path ≡ false =
              sym (ap₂ (λ b o. not b && is_current o path) a c) ∙ e in
            or_first (is_resolving p r.resolving) (is_resolving p (remove_at i r.resolving))
              (is_shown p r.current_route) (still_resolving p path r.resolving i g n) (s p a c))
      ]

  run-IsServed :
      (es : List (Event Route Error)) (r : Router Route Error)
      → NoReplace es
      → IsServed r
      → IsServed (run es r)
  unfolding run step
  run-IsServed [] r n s = s
  run-IsServed (navigate action path ∷ es) r (a, n) s =
      run-IsServed es (resolve action path r) n (resolve-IsServed action path r a s)
  run-IsServed (answer i o ∷ es) r n s = elim (Option-cases (get_elem? r.resolving i)) [
    | inl e ↦ rw (run, step, e) (run-IsServed es r n s)
    | inr (path, e) ↦
        rw (run, step, e)
          (run-IsServed es (answered path o (record r { resolving = remove_at i r.resolving })) n
            (answered-IsServed path o i r e s))
  ]
  run-IsServed (unmount ∷ es) r n s =
      run-IsServed es (record r { is_abandoned = true }) n (λ p a c. cc)

  -- As long as the router is mounted and no address was replaced, the route of the latest path is shown
  -- or is being resolved, whatever order the answers come in: no page is lost to an older one.
  pub run-mount_served :
      (start p : Option String) (es : List (Event Route Error))
      → NoReplace es
      → (run es (mount start)).is_abandoned ≡ false
      → (run es (mount start)).current_path ≡ some p
      → (is_resolving p (run es (mount start)).resolving
          || is_shown p (run es (mount start)).current_route)
        ≡ true
  unfolding mount new_router
  run-mount_served start p es n a c =
      run-IsServed es (mount start) n
        (resolve-IsServed push start new_router refl (λ q b d. absurd (none-ne-some q d))) p a c
