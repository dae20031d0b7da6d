-- ===== src/Pagination/Tests.antt =====
-- The theorems of paged rows at concrete inputs.
use mxzz_bi.Prelude.{String, ◌≡◌, refl, ap, Bool, true, false, List, [], ◌∷◌}

-- True rows before false ones.
abbrev put : Bool → List Bool → List Bool
put true bs = true ∷ bs
put false [] = false ∷ []
put false (true ∷ bs) = true ∷ put false bs
put false (false ∷ bs) = false ∷ false ∷ bs

abbrev sort_bools : String → List Bool → List Bool
sort_bools f [] = []
sort_bools f (b ∷ bs) = put b (sort_bools f bs)

sort_bools-put :
    (f : String) (b : Bool) (bs : List Bool) → sort_bools f (put b bs) ≡ put b (sort_bools f bs)
sort_bools-put f true bs = refl
sort_bools-put f false [] = refl
sort_bools-put f false (true ∷ bs) = ap (true ∷◌) (sort_bools-put f false bs)
sort_bools-put f false (false ∷ bs) = refl

sort_bools-sort_bools :
    (f : String) (bs : List Bool) → sort_bools f (sort_bools f bs) ≡ sort_bools f bs
sort_bools-sort_bools f [] = refl
sort_bools-sort_bools f (b ∷ bs) =
    rw (sort_bools-put f b (sort_bools f bs), sort_bools-sort_bools f bs)
