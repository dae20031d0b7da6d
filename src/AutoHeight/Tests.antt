-- ===== src/AutoHeight/Tests.antt =====
-- The theorems of the heights at concrete inputs.
use mxzz_bi.Prelude.{String, List, [], ◌∷◌}
use mxzz_bi.AutoHeight.{new}
use mxzz_bi.AutoHeight.Watched.{IsTimed, updates, updates-IsTimed}

abbrev three_updates : List (List String)
three_updates = ("1" ∷ "2" ∷ []) ∷ ("2" ∷ []) ∷ [] ∷ []

updates-IsTimed_example : IsTimed (updates three_updates new)
updates-IsTimed_example = updates-IsTimed three_updates
