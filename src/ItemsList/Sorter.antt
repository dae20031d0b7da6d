-- ===== src/ItemsList/Sorter.antt =====
-- client/app/components/items-list/classes/Sorter.js
-- `null` fields are `none`; lodash's `sortBy` is a parameter.
pub mod Compiled
pub mod Order
use Prim.Native.Char.{code, Char}
use Prim.Native.String
use mxzz_bi.Prelude.{
  ℕ, String, Bool, true, false, not, Option, none, some, List, reverse, ◌==◌, str_eq, if◌then◌else◌,
}
use mxzz_bi.Js.{Arg, str, truthy, text_or_null}

pub record Sorter : Type 0 where
  pub field : Option String
  pub reverse : Bool

-- The function `compile`: an empty field is falsy.
unfoldable pub compile : Option String → Bool → Option String
compile none r = none
compile (some String.[]) r = none
compile (some (String.◌∷◌ c s)) true = some (String.◌∷◌ "-" (String.◌∷◌ c s))
compile (some (String.◌∷◌ c s)) false = some (String.◌∷◌ c s)

nonempty : String → Option String
nonempty String.[] = none
nonempty (String.◌∷◌ c s) = some (String.◌∷◌ c s)

parse_text : String → Sorter
unfolding nonempty
parse_text String.[] = record { field = none; reverse = false }
parse_text (String.◌∷◌ c s) =
    if code c == b'-'
    then record { field = nonempty s; reverse = true }
    else record { field = some (String.◌∷◌ c s); reverse = false }

-- The function `parse`, on a string or on a value that is none.
unfoldable pub parse : Option String → Sorter
unfolding parse_text
parse none = parse_text ""
parse (some s) = parse_text s

-- The accessors of `compiled`.
unfoldable pub compiled : Sorter → Option String
unfolding compile
compiled s = compile s.field s.reverse

unfoldable pub set_compiled : Option String → Sorter → Sorter
unfolding parse
set_compiled value s = record s { field = (parse value).field; reverse = (parse value).reverse }

unfoldable pub set_field : Arg → Sorter → Sorter
unfolding text_or_null
set_field value s = record s { field = text_or_null value }

unfoldable pub set_reverse : Arg → Sorter → Sorter
unfolding truthy
set_reverse value s = record s { reverse = truthy value }

-- The constructor, from the field initialisers.
unfoldable pub new : (order_by_field order_by_reverse : Arg) → Sorter
unfolding set_field set_reverse
new order_by_field order_by_reverse =
    set_reverse order_by_reverse
      (set_field order_by_field (record { field = none; reverse = false }))

-- `field === this.field`
abbrev pub is_field : String → Option String → Bool
is_field f none = false
is_field f (some g) = str_eq f g

toggle : Option String → Sorter → Sorter
toggle none s = s
toggle (some f) s =
    if is_field f s.field
    then record s { reverse = not s.reverse }
    else record { field = some f; reverse = false }

unfoldable pub toggle_field : Arg → Sorter → Sorter
unfolding toggle text_or_null
toggle_field value s = toggle (text_or_null value) s

module _ {ℓ} {A : Type ℓ} (sort_by : String → List A → List A) where
  sort_on : Option String → Bool → List A → Option (List A)
  sort_on none r items = none
  sort_on (some String.[]) r items = none
  sort_on (some f) true items = some (reverse (sort_by f items))
  sort_on (some f) false items = some (sort_by f items)

  -- `none` is `undefined`, which the method returns when there is no field.
  unfoldable pub sort : Sorter → List A → Option (List A)
  unfolding sort_on
  sort s items = sort_on s.field s.reverse items
