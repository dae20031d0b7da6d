-- ===== src/ItemsList/Sorter/Order.antt =====
-- What `sort` returns, from the documented behaviour of lodash's `sortBy`.
use mathlib.Core.List.{Perm, Pairwise, reverse_perm, Pairwise-reverse}
use mathlib.Core.List.Perm
use mathlib.Core.Path.{subst}
use mxzz_bi.Prelude.{
  Bool-cases, inl, inr, reverse, String, ◌≡◌, refl, ◌≢◌, ◌↔◌, Bool, true, false, Option, none, some,
  List,
}
use mxzz_bi.Js.{Arg, text_or_null, str}
use mxzz_bi.ItemsList.Sorter.{Sorter, set_field, new, toggle_field, sort, is_field}

-- `sortBy(items, field)` holds the items in ascending order of the field, where `below f a b` says
-- that `a` may stand before `b`.
pub record SortsBy {A : Type 0} (below : String → A → A → Type 0)
    (sort_by : String → List A → List A) : Type 0 where
  pub below_prop : (f : String) (a b : A) → IsProp (below f a b)
  pub same_items : (f : String) (xs : List A) → Perm (sort_by f xs) xs
  pub ascending : (f : String) (xs : List A) → Pairwise (below f) (sort_by f xs)

-- A field is a text that is not empty.
abbrev pub IsValid : Sorter → Type 0
IsValid s = ◌≢◌ {A = Option String} s.field (some "")

text_or_null-ne : (v : Arg) → ◌≢◌ {A = Option String} (text_or_null v) (some "")
unfolding text_or_null
text_or_null-ne (str String.[]) = cc
text_or_null-ne (str (String.◌∷◌ c s)) = cc
text_or_null-ne _ = cc

pub set_field-IsValid : (v : Arg) (s : Sorter) → IsValid (set_field v s)
unfolding set_field
set_field-IsValid v s = text_or_null-ne v

pub new-IsValid : (f r : Arg) → IsValid (new f r)
unfolding new
new-IsValid f r = text_or_null-ne f

pub toggle_field-IsValid : (v : Arg) (s : Sorter) → IsValid s → IsValid (toggle_field v s)
unfolding toggle_field
toggle_field-IsValid (str String.[]) s h = h
toggle_field-IsValid (str (String.◌∷◌ c f)) s h =
    elim (Bool-cases (is_field (String.◌∷◌ c f) s.field)) [
      | inl same ↦ rw same h
      | inr other ↦ rw other (λ e. cc)
    ]
toggle_field-IsValid _ s h = h

module _ {A : Type 0} (sort_by : String → List A → List A) where
  -- `sort` returns `undefined` exactly when there is no field to sort on.
  sort-none_iff :
      (s : Sorter) (items : List A) → IsValid s → (sort sort_by s items ≡ none) ↔ (s.field ≡ none)
  unfolding sort
  sort-none_iff s items v = by_field s.field s.reverse v
    where
      by_field :
          (f : Option String) (r : Bool)
          → ◌≢◌ {A = Option String} f (some "")
          → (sort sort_by (record { field = f; reverse = r }) items ≡ none) ↔ (f ≡ none)
      by_field none r h = (λ _. refl, λ _. refl)
      by_field (some String.[]) r h = absurd (h refl)
      by_field (some (String.◌∷◌ c f)) true h = (λ e. cc, λ e. cc)
      by_field (some (String.◌∷◌ c f)) false h = (λ e. cc, λ e. cc)

-- The order that a sorter asks for.
abbrev pub Ordered : {A : Type 0} → (String → A → A → Type 0) → String → Bool → List A → Type 0
Ordered below f false = Pairwise (below f)
Ordered below f true = Pairwise (λ a b. below f b a)

some-inj : (f g : String) → ◌≡◌ {A = Option String} (some f) (some g) → f ≡ g
some-inj f g e = cc

module _ {A : Type 0} (below : String → A → A → Type 0) (sort_by : String → List A → List A)
    (sorts : SortsBy below sort_by) where
  -- With a field, `sort` returns the same items in the field's order, descending if `reverse`.
  sort-Ordered :
      (s : Sorter) (f : String) (items : List A)
      → IsValid s
      → s.field ≡ some f
      → (r : List A) × (sort sort_by s items ≡ some r) × Perm r items × Ordered below f s.reverse r
  unfolding sort
  sort-Ordered s f items v e = on_field f s.field s.reverse e v
    where
      on_field :
          (f : String) (g : Option String) (r : Bool)
          → g ≡ some f
          → ◌≢◌ {A = Option String} g (some "")
          → (res : List A) × (sort sort_by (record { field = g; reverse = r }) items ≡ some res)
            × Perm res items
            × Ordered below f r res
      on_field f none r e v = cc
      on_field f (some String.[]) r e v = absurd (v refl)
      on_field f (some (String.◌∷◌ c g)) false e v = (
        sort_by _ items,
        refl,
        sorts.same_items _ items,
        subst (λ k. Pairwise (below k) (sort_by (String.◌∷◌ c g) items)) (some-inj _ f e)
            (sorts.ascending _ items),
      )
      on_field f (some (String.◌∷◌ c g)) true e v = (
        reverse (sort_by _ items),
        refl,
        Perm.trans (reverse_perm _) (sorts.same_items _ items),
        subst (λ k. Pairwise (λ a b. below k b a) (reverse (sort_by (String.◌∷◌ c g) items)))
            (some-inj _ f e)
            ((Pairwise-reverse (λ a b. sorts.below_prop _ b a)).1 (sorts.ascending _ items)),
      )
