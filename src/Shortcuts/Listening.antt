-- ===== src/Shortcuts/Listening.antt =====
-- KeyboardShortcuts.js: Mousetrap listens to what has a function, and unbinding undoes binding.
use mxzz_bi.Prelude.{
  ℕ, String, ◌≡◌, refl, false, not, List, [], ◌∷◌, ◌++◌, str_eq, if◌then◌else◌, Bool-cases, inl,
  inr,
}
use mxzz_bi.Shortcuts.{
  Shortcuts, no_shortcuts, without, is_empty, bind_key, unbind_key, each_key, Keymap, bind, unbind,
}

-- Mousetrap is bound to exactly the shortcuts that have a function.
abbrev Listens : Shortcuts → Type 0
Listens s = (j : String) → s.bound j ≡ not (is_empty (s.handlers j))

is_empty-append : (xs : List ℕ) (f : ℕ) → is_empty (xs ++ (f ∷ [])) ≡ false
is_empty-append [] f = refl
is_empty-append (x ∷ xs) f = refl

left_over :
    (xs : List ℕ) (f : ℕ)
    → (if is_empty (without xs f) then false else not (is_empty xs)) ≡ not (is_empty (without xs f))
left_over [] f = refl
left_over (x ∷ xs) f = elim (Bool-cases (is_empty (without (x ∷ xs) f))) [
  | inl e ↦ rw e
  | inr e ↦ rw e
]

bind_key-Listens : (fn : ℕ) (k : String) (s : Shortcuts) → Listens s → Listens (bind_key fn k s)
unfolding bind_key
bind_key-Listens fn k s h j = elim (Bool-cases (str_eq j k)) [
  | inl e ↦ rw (e, is_empty-append (without (s.handlers j) fn) fn) refl
  | inr e ↦ rw e (h j)
]

unbind_key-Listens : (fn : ℕ) (k : String) (s : Shortcuts) → Listens s → Listens (unbind_key fn k s)
unfolding unbind_key
unbind_key-Listens fn k s h j = elim (Bool-cases (str_eq j k)) [
  | inl e ↦ rw (e, h j) (left_over (s.handlers j) fn)
  | inr e ↦ rw e (h j)
]

each_key-Listens :
    (f : String → Shortcuts → Shortcuts)
    → ((k : String) (s : Shortcuts) → Listens s → Listens (f k s))
    → (ks : List String) (s : Shortcuts) → Listens s
    → Listens (each_key f ks s)
each_key-Listens f g [] s h = h
each_key-Listens f g (k ∷ ks) s h = each_key-Listens f g ks (f k s) (g k s h)

bind-Listens : (m : Keymap) (s : Shortcuts) → Listens s → Listens (bind m s)
unfolding bind
bind-Listens [] s h = h
bind-Listens ((ks, fn) ∷ m) s h =
    bind-Listens m (each_key (bind_key fn) ks s)
      (each_key-Listens (bind_key fn) (bind_key-Listens fn) ks s h)

unbind-Listens : (m : Keymap) (s : Shortcuts) → Listens s → Listens (unbind m s)
unfolding unbind
unbind-Listens [] s h = h
unbind-Listens ((ks, fn) ∷ m) s h =
    unbind-Listens m (each_key (unbind_key fn) ks s)
      (each_key-Listens (unbind_key fn) (unbind_key-Listens fn) ks s h)

-- A call of `bind` or of `unbind`.
pub data Call : Type 0 where
  binds unbinds : Keymap → Call

abbrev pub calls : List Call → Shortcuts → Shortcuts
calls [] s = s
calls (binds m ∷ cs) s = calls cs (bind m s)
calls (unbinds m ∷ cs) s = calls cs (unbind m s)

calls_from-Listens : (cs : List Call) (s : Shortcuts) → Listens s → Listens (calls cs s)
calls_from-Listens [] s h = h
calls_from-Listens (binds m ∷ cs) s h = calls_from-Listens cs (bind m s) (bind-Listens m s h)
calls_from-Listens (unbinds m ∷ cs) s h = calls_from-Listens cs (unbind m s) (unbind-Listens m s h)

-- After any calls, in any order, Mousetrap listens to exactly the shortcuts that have a function.
pub bound-calls :
    (cs : List Call) (j : String)
    → (calls cs no_shortcuts).bound j ≡ not (is_empty ((calls cs no_shortcuts).handlers j))
bound-calls cs j = calls_from-Listens cs no_shortcuts (λ k. refl) j
