-- ===== src/Dashboard/Globals.antt =====
-- dashboard.js: `getParametersDefs`. The parameters of the widgets' queries hang below those of the
-- dashboard as their locals, which is where they are changed.
use mxzz_bi.Prelude.{String, Option, none, some, List, [], ◌∷◌, map, str_eq, if◌then◌else◌}
use mxzz_bi.Parameters.Normalize.{Env}
use mxzz_bi.Parameters.Object.{Node, node, Locals, no_locals, with_local, root, assign, set_value}
use mxzz_bi.Parameters.Url.{Json, from_url_params}
use mxzz_bi.Widget.Mappings.{
  Mapping, Mappings, mapping_at, dashboard_level, title_or, get_parameter_mappings,
}

-- The parameters of a widget's query, none for a text box, and the saved mappings.
pub record Widget (Num Moment : Type 0) : Type 0 where
  pub parameters : List (Node Num Moment)
  pub mappings : Mappings Num Moment

module _ {Num Moment : Type 0} where
  abbrev pub push_local : Node Num Moment → Locals Num Moment → Locals Num Moment
  push_local n no_locals = with_local n no_locals
  push_local n (with_local l ls) = with_local l (push_local n ls)

  abbrev pub with_pushed : Node Num Moment → Node Num Moment → Node Num Moment
  with_pushed n (node p ls) = node p (push_local n ls)

  module _ (env : Env Num Moment) where
    -- `cloneParameter` with its new name and title
    abbrev pub new_global : Mapping Num Moment → Node Num Moment → Node Num Moment
    new_global m n =
        let p = root n in
        node
          (record (assign env p.value (record p { url_prefix = "p_" })) {
            name = m.map_to;
            title = title_or m.title p.title;
          })
          (with_local n no_locals)

    -- To the parameter of that key, which is made if it is not there.
    unfoldable pub add_global :
        Mapping Num Moment
        → Node Num Moment
        → List (String × Node Num Moment)
        → List (String × Node Num Moment)
    add_global m n [] = (m.map_to, new_global m n) ∷ []
    add_global m n ((k, g) ∷ gs) =
        if str_eq m.map_to k then (k, with_pushed n g) ∷ gs else (k, g) ∷ add_global m n gs

    -- Each parameter has a mapping.
    abbrev pub add_mapped :
        Option (Mapping Num Moment)
        → Node Num Moment
        → List (String × Node Num Moment)
        → List (String × Node Num Moment)
    add_mapped none n gs = gs
    add_mapped (some m) n gs = elim m.type [ dashboard_level ↦ add_global m n gs | _ ↦ gs ]

    unfoldable pub add_parameters :
        Mappings Num Moment
        → List (Node Num Moment)
        → List (String × Node Num Moment)
        → List (String × Node Num Moment)
    unfolding add_global
    add_parameters ms [] gs = gs
    add_parameters ms (n ∷ ns) gs =
        add_parameters ms ns (add_mapped (mapping_at (root n).name ms) n gs)

    unfoldable pub add_widgets :
        List (Widget Num Moment) → List (String × Node Num Moment) → List (String × Node Num Moment)
    unfolding add_parameters get_parameter_mappings
    add_widgets [] gs = gs
    add_widgets (w ∷ ws) gs =
        add_widgets ws (
          add_parameters (get_parameter_mappings (map root w.parameters) w.mappings) w.parameters
            gs)

    -- Its value to all locals, and then that of the URL, if there is one.
    unfoldable pub initialize :
        Json Num → (query_params : List (String × String)) → Node Num Moment → Node Num Moment
    initialize json query n = from_url_params env json query (set_value env (root n).value n)

    unfoldable pub get_parameters_defs :
        Json Num
        → (query_params : List (String × String)) → List (Widget Num Moment)
        → List (Node Num Moment)
    unfolding add_widgets initialize
    get_parameters_defs json query ws = map (λ e. initialize json query e.1) (add_widgets ws [])
