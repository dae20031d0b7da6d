-- ===== src/Query/Names.antt =====
-- query.js: `collectParams`, on what Mustache parses, and lodash's `uniq` and `union`.
use Prim.Native.Char.{code}
use mxzz_bi.Prelude.{String, true, false, List, [], ◌∷◌, ◌++◌, ◌==◌}
use mxzz_bi.Parameters.Normalize.{member}

-- A token of Mustache: a name (type "name" or "&"), a section (type "#") with its tokens, another.
mutual
  pub data Part : Type 0 where
    tag : String → Part
    section : String → Parts → Part
    other : Part

  pub data Parts : Type 0 where
    no_parts : Parts
    part : Part → Parts → Parts

-- `split(".")[0]`
unfoldable pub before_dot : String → String
before_dot String.[] = ""
before_dot (String.◌∷◌ c s) = elim (code c == b'.') [
  | true ↦ ""
  | false ↦ String.◌∷◌ c (before_dot s)
]

-- `uniq`: each once, where it is first, less what is seen.
unfoldable pub uniq_from : (seen : List String) → List String → List String
uniq_from seen [] = []
uniq_from seen (x ∷ xs) = elim (member x seen) [
  | true ↦ uniq_from seen xs
  | false ↦ x ∷ uniq_from (x ∷ seen) xs
]

abbrev pub uniq : List String → List String
uniq xs = uniq_from [] xs

abbrev pub union : List String → List String → List String
union xs ys = uniq (xs ++ ys)

-- `parameters` is what the loop has so far.
unfoldable mutual
  unfolding before_dot

  pub collect_params_from : (parameters : List String) → Parts → List String
  collect_params_from parameters no_parts = parameters
  collect_params_from parameters (part p ps) = collect_params_from (collect_part parameters p) ps

  pub collect_part : (parameters : List String) → Part → List String
  collect_part parameters (tag s) = parameters ++ (before_dot s ∷ [])
  collect_part parameters (section s ps) = union parameters (collect_params_from [] ps)
  collect_part parameters other = parameters

abbrev pub collect_params : Parts → List String
collect_params ps = collect_params_from [] ps
