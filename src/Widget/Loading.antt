-- ===== src/Widget/Loading.antt =====
-- widget.js: `load`. `R` are the query results; a load asks one of the query and waits for its
-- promise, and the promises of several loads settle in any order.
use mxzz_bi.Prelude.{
  ℕ, suc, zero, ◌≡◌, refl, Bool, true, false, Option, none, some, List, [], ◌∷◌, ◌++◌,
  if◌then◌else◌, ◌||◌,
}

pub record Widget (R : Type 0) : Type 0 where
  pub visualization : Bool
  pub loading : Bool
  -- `data`, the last one loaded, and the one that is loading
  pub loaded : Option R
  pub query_result : Option R
  -- those whose promise is not settled, the last one last
  pub in_flight : List R

-- The age to ask for.
unfoldable pub age_of : (force : Bool) (max_age : Option ℕ) → Option ℕ
age_of true max_age = some 0
age_of false max_age = max_age

module _ {R : Type 0} where
  abbrev pub is_none : Option R → Bool
  is_none none = true
  is_none (some r) = false

  unfoldable pub load :
      (get_query_result : Option ℕ → R) (force : Bool) (max_age : Option ℕ) → Widget R → Widget R
  unfolding age_of
  load get_query_result force max_age w =
      if w.visualization
      then (if force || is_none w.query_result
          then record w {
            loading = true;
            query_result = some (get_query_result (age_of force max_age));
            in_flight = w.in_flight ++ (get_query_result (age_of force max_age) ∷ []);
          }
          else w)
      else w

  abbrev pub remove_at : ℕ → List R → List R
  remove_at n [] = []
  remove_at zero (r ∷ rs) = rs
  remove_at (suc n) (r ∷ rs) = r ∷ remove_at n rs

  -- The promise at the place among those in flight is resolved or rejected with a result.
  abbrev pub settled : ℕ → R → Widget R → Widget R
  settled i r w = record w { loading = false; loaded = some r; in_flight = remove_at i w.in_flight }

  -- A widget with nothing in flight that is loaded by force asks for age 0 whatever age is given, and
  -- is loading until the answer is in, which it then shows; loading it again without force asks
  -- nothing.
  load-settled :
      (ask : Option ℕ → R) (max_age again : Option ℕ) (w : Widget R)
      → w.visualization ≡ true
      → w.in_flight ≡ []
      → let waiting = load ask true max_age w in
        let answered = settled 0 (ask (some 0)) waiting in
        (waiting.in_flight ≡ ask (some 0) ∷ [])
        × (waiting.loading ≡ true)
        × (answered.loaded ≡ some (ask (some 0)))
        × (answered.loading ≡ false)
        × (answered.in_flight ≡ [])
        × (load ask false again answered ≡ answered)
  unfolding load
  load-settled ask max_age again w v f = rw (v, f) (refl, refl, refl, refl, refl, refl)

  -- In a widget with a visualization and nothing in flight, when a forced load overtakes another
  -- one, and the first answer comes last, the widget ends with
  -- the first one's data, and it counts as loaded while that answer is still in flight.
  pub load_overtaken :
      (first second : R) (w : Widget R)
      → w.visualization ≡ true
      → w.in_flight ≡ []
      → let both = load (λ a. second) true none (load (λ a. first) true none w) in
        let one = settled 1 second both in
        let two = settled 0 first one in
        (one.loading ≡ false)
        × (one.in_flight ≡ first ∷ [])
        × (two.query_result ≡ some second)
        × (two.loaded ≡ some first)
  unfolding load
  load_overtaken first second w v f = rw (v, f) (refl, refl, refl, refl)
