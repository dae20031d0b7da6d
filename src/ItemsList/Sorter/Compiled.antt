-- ===== src/ItemsList/Sorter/Compiled.antt =====
-- The text form of an order, as it stands in URLs and requests.
use Prim.Native.Char.{code, Char}
use text.Mathlib.TextEquality.{Char-path}
use mxzz_bi.Prelude.{ap, String, ◌≡◌, refl, ◌≢◌, Bool, true, false, some, arith}
use mxzz_bi.ItemsList.Sorter.{compile, parse}

-- `parse` gives back what `compile` was given, for a field that is not empty and that, in ascending
-- order, does not begin with a dash.
pub parse-compile :
    (c : Char) (f : String) (r : Bool)
    → (r ≡ false → code c ≢ b'-')
    → parse (compile (some (String.◌∷◌ c f)) r)
      ≡ record { field = some (String.◌∷◌ c f); reverse = r }
unfolding parse compile
parse-compile c f true h = refl
parse-compile c f false h = ground (arith, h refl)

-- The condition is needed.
pub parse-compile_dash :
    (c : Char) (f : String)
    → code c ≡ b'-'
    → (parse (compile (some (String.◌∷◌ c f)) false)).reverse ≡ true
unfolding parse compile
parse-compile_dash c f h = ground arith

-- What `parse` reads from a text other than "" and "-" compiles to that text again.
compile-parse :
    (s : String)
    → ◌≢◌ {A = String} s ""
    → ◌≢◌ {A = String} s "-"
    → compile (parse (some s)).field (parse (some s)).reverse ≡ some s
unfolding compile parse
compile-parse String.[] h k = absurd (h refl)
compile-parse (String.◌∷◌ c String.[]) h k =
    ground
      (arith, λ (e : code c ≡ b'-'). k (ap (λ (x : Char). String.◌∷◌ x "") (Char-path c "-" e)))
compile-parse (String.◌∷◌ c (String.◌∷◌ d s)) h k = ground (arith, Char-path c "-")
