-- ===== src/Shortcuts.antt =====
-- client/app/services/KeyboardShortcuts.js: which functions a shortcut calls, and which shortcuts
-- Mousetrap listens to. Functions are numbers; the keys of an entry of the keymap are a list, as they
-- are after the split.
pub mod Listening
mod Tests
use mxzz_bi.Prelude.{
  ℕ, String, Bool, true, false, not, List, [], ◌∷◌, ◌++◌, ◌==◌, filter, str_eq, if◌then◌else◌,
}

pub record Shortcuts : Type 0 where
  -- no functions where the source has `undefined`
  pub handlers : String → List ℕ
  -- whether Mousetrap is bound
  pub bound : String → Bool

abbrev pub no_shortcuts : Shortcuts
no_shortcuts = record { handlers = λ k. []; bound = λ k. false }

-- `without`
abbrev pub without : List ℕ → ℕ → List ℕ
without fns fn = filter (λ f. not (f == fn)) fns

abbrev pub is_empty : List ℕ → Bool
is_empty [] = true
is_empty (f ∷ fns) = false

unfoldable pub bind_key : ℕ → String → Shortcuts → Shortcuts
bind_key fn k s = record {
  handlers = λ j. if str_eq j k then without (s.handlers j) fn ++ (fn ∷ []) else s.handlers j;
  bound = λ j. if str_eq j k then true else s.bound j;
}

unfoldable pub unbind_key : ℕ → String → Shortcuts → Shortcuts
unbind_key fn k s = record {
  handlers = λ j. if str_eq j k then without (s.handlers j) fn else s.handlers j;
  bound = λ j.
      if str_eq j k
      then (if is_empty (without (s.handlers j) fn) then false else s.bound j)
      else s.bound j;
}

abbrev pub each_key : (String → Shortcuts → Shortcuts) → List String → Shortcuts → Shortcuts
each_key f [] s = s
each_key f (k ∷ ks) s = each_key f ks (f k s)

abbrev pub Keymap : Type 0
Keymap = List (List String × ℕ)

unfoldable pub bind : Keymap → Shortcuts → Shortcuts
unfolding bind_key
bind [] s = s
bind ((ks, fn) ∷ m) s = bind m (each_key (bind_key fn) ks s)

unfoldable pub unbind : Keymap → Shortcuts → Shortcuts
unfolding unbind_key
unbind [] s = s
unbind ((ks, fn) ∷ m) s = unbind m (each_key (unbind_key fn) ks s)

-- `onShortcut`: the functions that are called, in order.
abbrev pub on_shortcut : String → Shortcuts → List ℕ
on_shortcut k s = s.handlers k
