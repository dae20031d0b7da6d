-- ===== src/Router/Tests.antt =====
-- The router at concrete navigations, with texts for routes and errors.
use mxzz_bi.Prelude.{ℕ, String, ◌≡◌, refl, true, ◌||◌, none, some, List, [], ◌∷◌}
use mxzz_bi.Js.{codes}
use mxzz_bi.Router.{
  push, replace, resolved, Router, Event, navigate, answer, strip_base, resolve, answered, step,
  run, new_router, mount,
}
use mxzz_bi.Router.Served.{is_resolving, is_shown, run-mount_served}

abbrev events : List (Event String String)
events =
    navigate push (some "/b") ∷ answer 0 (resolved "page b") ∷ answer 0 (resolved "page a") ∷ []

abbrev at_a : Router String String
at_a = mount (some "/a")

run-mount_served_example :
    (is_resolving (some "/b") (run events at_a).resolving
      || is_shown (some "/b") (run events at_a).current_route)
    ≡ true
unfolding run step mount new_router resolve answered
run-mount_served_example = run-mount_served (some "/a") (some "/b") events (refl, tt) refl refl

-- The address is replaced while the first page is being resolved: nothing is ever shown.
page_lost :
    (run (navigate replace (some "/b") ∷ answer 0 (resolved "page a") ∷ []) at_a).current_route
    ≡ none
unfolding run step mount new_router resolve answered
page_lost = refl

abbrev on_site : List ℕ → List ℕ
on_site [] = codes "http://site/bi/"
on_site (c ∷ cs) = c ∷ cs

stripped : strip_base on_site (codes "http://site/bi//queries") ≡ some (codes "/queries")
unfolding strip_base
stripped = refl
