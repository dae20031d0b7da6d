-- ===== src/Dashboard/Tests.antt =====
-- The theorems of dashboards at concrete inputs.
use mxzz_bi.Prelude.{ℕ, String, ◌≡◌, refl, Bool, true, false, none, List, [], ◌∷◌, ◌++◌}
use mxzz_bi.Parameters.Normalize.{Value, text, Env, text_kind}
use mxzz_bi.Parameters.Normalize
use mxzz_bi.Parameters.Object.{Node, node, no_locals, with_local, root}
use mxzz_bi.Dashboard.Filters.{Filter, collect_dashboard_filters}
use mxzz_bi.Dashboard.Filtered.{
  values_at, merge_named, all_filters, values_at-collect_dashboard_filters,
}
use mxzz_bi.Dashboard.Globals.{Widget, add_widgets}
use mxzz_bi.Dashboard.Linked.{locals_at, all_mapped_to, locals_at-add_widgets}

abbrev filter_of : String → List ℕ → Filter ℕ
filter_of name values = record { name = name; values = values; current = none }

abbrev results : List (List (Filter ℕ))
results =
    (filter_of "city" (1 ∷ 2 ∷ []) ∷ filter_of "day" (7 ∷ []) ∷ [])
    ∷ (filter_of "city" (3 ∷ []) ∷ [])
    ∷ []

values_at-collect_dashboard_filters_example :
    values_at ◌++◌ "city" (collect_dashboard_filters ◌++◌ false results (("city", 2) ∷ []))
    ≡ merge_named ◌++◌ "city" (all_filters ◌++◌ false (("city", 2) ∷ []) "city" refl results) none
values_at-collect_dashboard_filters_example =
    values_at-collect_dashboard_filters ◌++◌ false (("city", 2) ∷ []) "city" refl results

abbrev no_text : Value Bool Bool → String
no_text (text s) = s
no_text _ = ""

abbrev texts : Env Bool Bool
texts = record {
  to_string = no_text;
  to_number = λ v. none;
  moment_of = λ v. none;
  format = λ f m. "";
}

abbrev param : String → Node Bool Bool
param name =
    node
      (record {
        name = name;
        title = name;
        global = true;
        kind = text_kind;
        value = text "x";
        normalized_value = text "x";
        pending_value = Normalize.undefined;
        url_prefix = "p_";
      })
      no_locals

abbrev widgets : List (Widget Bool Bool)
widgets =
    record { parameters = param "city" ∷ param "day" ∷ []; mappings = [] }
    ∷ record { parameters = param "city" ∷ []; mappings = [] }
    ∷ []

locals_at-add_widgets_example :
    locals_at "city" (add_widgets texts widgets []) ≡ [] ++ all_mapped_to "city" widgets
locals_at-add_widgets_example = locals_at-add_widgets texts "city" widgets []

abbrev global : Node Bool Bool
global = node (root (param "city")) (with_local (param "city") no_locals)
