-- ===== src/MappingInput/Saved.antt =====
-- ParameterMappingInput.jsx: what the editor of a mapping saves.
use mxzz_bi.Prelude.{
  String, ◌≡◌, refl, ◌⊎◌, inl, inr, Bool, true, false, Option, none, some, List, [], ◌∷◌,
  if◌then◌else◌,
}
use mxzz_bi.MappingInput.Editable.{EditableMapping}
use mxzz_bi.MappingInput.Editor.{
  Editor, Action, change, pop_up, close, ok, receive, InputError, is_some, error_of, on_change,
  show, hide, save, act, acts, new,
}

is_some-none : (o : Option InputError) → is_some o ≡ false → o ≡ none
is_some-none none h = refl
is_some-none (some x) h = cc

module _ {Num Moment : Type 0} (existing : List String) where
  abbrev pub All :
      (P : EditableMapping Num Moment → Type 0) → List (EditableMapping Num Moment) → Type 0
  All P [] = Unit {0}
  All P (m ∷ ms) = P m × All P ms

  -- The mappings that come from the outside.
  abbrev pub received : List (Action Num Moment) → List (EditableMapping Num Moment)
  received [] = []
  received (receive m ∷ xs) = m ∷ received xs
  received (change m ∷ xs) = received xs
  received (pop_up ∷ xs) = received xs
  received (close ∷ xs) = received xs
  received (ok ∷ xs) = received xs

  module _ (P : EditableMapping Num Moment → Type 0) where
    abbrev pub IsGood : EditableMapping Num Moment → Type 0
    IsGood m = P m ⊎ (error_of existing m ≡ none)

    abbrev Holds : Editor Num Moment → Type 0
    Holds e = P e.given × (e.input_error ≡ none → IsGood e.mapping) × All IsGood e.saved

    save_if :
        (b : Bool) (e : Editor Num Moment)
        → (b ≡ false → e.input_error ≡ none)
        → Holds e
        → Holds (if b then e else save existing e)
    save_if true e f h = h
    save_if false e f (g, m, s) = let n = m (f refl) in (g, (λ q. n), (n, s))

    acts-IsGood :
        (xs : List (Action Num Moment)) (e : Editor Num Moment)
        → Holds e
        → All P (received xs)
        → All IsGood (acts existing xs e).saved
    unfolding acts act
    acts-IsGood [] e (g, m, s) r = s
    acts-IsGood (change m ∷ xs) e (g, n, s) r =
        acts-IsGood xs (on_change existing m e) (g, (λ q. inr q), s) r
    acts-IsGood (pop_up ∷ xs) e (g, n, s) r =
        acts-IsGood xs (show existing e) (g, (λ q. inl g), s) r
    acts-IsGood (close ∷ xs) e h r = acts-IsGood xs (hide existing e) h r
    acts-IsGood (ok ∷ xs) e h r =
        acts-IsGood xs (act existing ok e)
          (save_if (is_some e.input_error) e (is_some-none e.input_error) h) r
    acts-IsGood (receive m ∷ xs) e (g, n, s) r =
        acts-IsGood xs (record e { given = m }) (r.0, n, s) r.1

    -- However the editor is used, a mapping that it saves either has a key that is right for its type,
    -- or is as it came from the outside: what holds of all those holds of it.
    saved-acts-new :
        (m : EditableMapping Num Moment) (xs : List (Action Num Moment))
        → P m
        → All P (received xs)
        → All IsGood (acts existing xs (new m)).saved
    unfolding new
    saved-acts-new m xs h r = acts-IsGood xs (new m) (h, (λ q. inl h), tt) r

  -- A wrong key outlives the mapping it stood in: when the editor is closed and opened again, it has the
  -- mapping it was given, and yet nothing can be saved.
  pub act-error_stays :
      (e : Editor Num Moment) (m : EditableMapping Num Moment) (x : InputError)
      → error_of existing m ≡ some x
      → (let e' = acts existing (change m ∷ close ∷ pop_up ∷ []) e in
          (e'.mapping ≡ e.given) × (act existing ok e' ≡ e'))
  unfolding acts act
  act-error_stays e m x h = (refl, rw h refl)
