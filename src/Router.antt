-- ===== src/Router.antt =====
-- client/app/components/ApplicationArea/Router.jsx: `stripBase` and the resolving of routes. A path is
-- `none` where `stripBase` gives false; routes, and what resolves them, are parameters.
pub mod Served
mod Tests
use mxzz_bi.Prelude.{
  ℕ, zero, suc, String, Bool, true, false, not, ◌&&◌, ◌||◌, Option, none, some, List, [], ◌∷◌, ◌++◌,
  drop, length, str_eq, ◌==◌, get_elem?, if◌then◌else◌,
}

abbrev pub same_path : Option String → Option String → Bool
same_path none none = true
same_path none (some t) = false
same_path (some s) none = false
same_path (some s) (some t) = str_eq s t

-- lodash's `trimStart` and `trimEnd` of slashes, on code points.
abbrev pub slash : ℕ
slash = b'/'

abbrev pub trim_start : List ℕ → List ℕ
trim_start [] = []
trim_start (c ∷ cs) = if c == slash then trim_start cs else c ∷ cs

abbrev pub trim_end : List ℕ → List ℕ
trim_end [] = []
trim_end (c ∷ cs) = elim (trim_end cs) [
  | [] ↦ if c == slash then [] else c ∷ []
  | d ∷ ds ↦ c ∷ d ∷ ds
]

abbrev pub starts_with : (text prefix : List ℕ) → Bool
starts_with cs [] = true
starts_with [] (p ∷ ps) = false
starts_with (c ∷ cs) (p ∷ ps) = c == p && starts_with cs ps

-- `normalize` is that of services/url.js, on the document.
unfoldable pub strip_base : (normalize : List ℕ → List ℕ) → (href : List ℕ) → Option (List ℕ)
strip_base normalize href =
    let base_href = trim_end (normalize []) ++ (slash ∷ []) in
    let url = normalize href in
    if starts_with url base_href
    then some (slash ∷ trim_start (drop (length base_href) url))
    else none

pub data NavigationAction : Type 0 where
  push pop replace : NavigationAction

pub data Outcome (Route Error : Type 0) : Type 0 where
  resolved : Route → Outcome Route Error
  failed : Error → Outcome Route Error

pub record Router (Route Error : Type 0) : Type 0 where
  -- `currentPathRef.current`, null at first
  pub current_path : Option (Option String)
  -- `currentRoute`, with the path it was resolved for
  pub current_route : Option (Option String × Outcome Route Error)
  pub is_abandoned : Bool
  -- the paths that are being resolved
  pub resolving : List (Option String)

pub data Event (Route Error : Type 0) : Type 0 where
  navigate : NavigationAction → (pathname : Option String) → Event Route Error
  -- the answer to the request at an index
  answer : ℕ → Outcome Route Error → Event Route Error
  unmount : Event Route Error

abbrev pub remove_at {ℓ} : {A : Type ℓ} → ℕ → List A → List A
remove_at i [] = []
remove_at zero (x ∷ xs) = xs
remove_at (suc i) (x ∷ xs) = x ∷ remove_at i xs

abbrev pub is_current : Option (Option String) → Option String → Bool
is_current none pathname = false
is_current (some p) pathname = same_path p pathname

abbrev pub is_replace : NavigationAction → Bool
is_replace replace = true
is_replace push = false
is_replace pop = false

module _ {Route Error : Type 0} where
  unfoldable pub resolve :
      NavigationAction → Option String → Router Route Error → Router Route Error
  resolve action pathname r =
      if r.is_abandoned || is_current r.current_path pathname
      then r
      else if is_replace action
      then record r { current_path = some pathname }
      else record r { current_path = some pathname; resolving = pathname ∷ r.resolving }

  unfoldable pub answered :
      Option String → Outcome Route Error → Router Route Error → Router Route Error
  answered pathname outcome r =
      if not r.is_abandoned && is_current r.current_path pathname
      then record r { current_route = some (pathname, outcome) }
      else r

  unfoldable pub step : Event Route Error → Router Route Error → Router Route Error
  unfolding resolve answered
  step (navigate action pathname) r = resolve action pathname r
  step (answer i outcome) r = elim (get_elem? r.resolving i) [
    | none ↦ r
    | some pathname ↦ answered pathname outcome (record r { resolving = remove_at i r.resolving })
  ]
  step unmount r = record r { is_abandoned = true }

  unfoldable pub run : List (Event Route Error) → Router Route Error → Router Route Error
  unfolding step
  run [] r = r
  run (e ∷ es) r = run es (step e r)

  unfoldable pub new_router : Router Route Error
  new_router = record {
    current_path = none;
    current_route = none;
    is_abandoned = false;
    resolving = [];
  }

  -- The effect on mount resolves the path that the page is at.
  unfoldable pub mount : (pathname : Option String) → Router Route Error
  unfolding resolve new_router
  mount pathname = resolve push pathname new_router
