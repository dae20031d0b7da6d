-- ===== src/MappingInput/Tests.antt =====
-- The theorems of editable mappings at concrete inputs.
use mxzz_bi.Prelude.{String, ◌≡◌, refl, Bool, false, none, some, List, [], ◌∷◌}
use mxzz_bi.Parameters.Normalize.{Value, null, text, Env, text_kind, normalize, stored}
use mxzz_bi.Parameters.Normalize
use mxzz_bi.Parameters.Object.{Parameter}
use mxzz_bi.Widget.Mappings.{
  MappingType as ParameterMappingType, dashboard_level, static_value, Mapping, Mappings,
}
use mxzz_bi.MappingInput.Editable.{
  EditableMapping, dashboard_add_new, parameter_mappings_to_editable_mappings,
  editable_mappings_to_parameter_mappings,
}
use mxzz_bi.MappingInput.RoundTrip.{Distinct, AllSaved, mappings_round_trip}
use mxzz_bi.MappingInput.Titles.{Widget, synchronize_widget_titles}
use mxzz_bi.MappingInput.Synchronized.{titles-synchronize_widget_titles}
use mxzz_bi.MappingInput.Editor.{
  Editor, change, pop_up, close, ok, keyword_exists, error_of, act, acts, new,
}
use mxzz_bi.MappingInput.Saved.{act-error_stays}

abbrev no_text : Value Bool Bool → String
no_text (text s) = s
no_text _ = ""

abbrev texts : Env Bool Bool
texts = record {
  to_string = no_text;
  to_number = λ v. none;
  moment_of = λ v. none;
  format = λ f m. "";
}

abbrev fixed : Parameter Bool Bool
fixed = record {
  name = "fixed";
  title = "Fixed";
  global = false;
  kind = text_kind;
  value = text "x";
  normalized_value = text "x";
  pending_value = Normalize.undefined;
  url_prefix = "p_";
}

abbrev mapping : String → ParameterMappingType → Value Bool Bool → String → Mapping Bool Bool
mapping name type value title = record {
  name = name;
  type = type;
  map_to = name;
  value = value;
  title = title;
}

abbrev one_mapping : String × Mapping Bool Bool
one_mapping = ("fixed", mapping "fixed" static_value (text "y") "")

abbrev all_mapping : String × Mapping Bool Bool
all_mapping = ("all", mapping "all" dashboard_level null "")

abbrev both : Mappings Bool Bool
both = one_mapping ∷ all_mapping ∷ []

mappings_round_trip_example :
    (es : List (EditableMapping Bool Bool)) × (parameter_mappings_to_editable_mappings texts both
        (fixed ∷ [])
        ("all" ∷ [])
      ≡ some es)
    × (editable_mappings_to_parameter_mappings texts es ≡ some both)
unfolding normalize stored
mappings_round_trip_example =
    let keys : Distinct (one_mapping ∷ []) (all_mapping ∷ []) = (refl, tt) in
    let last : AllSaved texts (fixed ∷ []) (all_mapping ∷ []) = (refl, refl, tt) in
    mappings_round_trip texts (fixed ∷ []) ("all" ∷ []) both (refl, keys)
      (refl, (fixed, refl, refl), last)

-- Two parameters of the first widget, and one of the second, stand for one of the dashboard.
abbrev two_widgets : List (Widget Bool Bool)
two_widgets =
    record {
      id = 1;
      parameter_mappings =
          ("a", mapping "all" dashboard_level null "First")
          ∷ ("b", mapping "all" dashboard_level null "Second")
          ∷ [];
    }
    ∷ record { id = 2; parameter_mappings = all_mapping ∷ [] }
    ∷ []

titles-synchronize_widget_titles_example :
    (synchronize_widget_titles 1 two_widgets).0
    ≡ record {
      id = 1;
      parameter_mappings =
          ("a", mapping "all" dashboard_level null "First")
          ∷ ("b", mapping "all" dashboard_level null "First")
          ∷ [];
    }
      ∷ record {
        id = 2;
        parameter_mappings = ("all", mapping "all" dashboard_level null "First") ∷ [];
      }
      ∷ []
titles-synchronize_widget_titles_example = titles-synchronize_widget_titles 1 two_widgets

abbrev keyed : String → EditableMapping Bool Bool
keyed key = record {
  name = "fixed";
  type = dashboard_add_new;
  map_to = key;
  value = null;
  title = "";
  param = some fixed;
}

abbrev reopened : Editor Bool Bool
reopened = acts ("all" ∷ []) (change (keyed "all") ∷ close ∷ pop_up ∷ []) (new (keyed "old"))

act-error_stays_example :
    (reopened.mapping ≡ (new (keyed "old")).given) × (act ("all" ∷ []) ok reopened ≡ reopened)
unfolding error_of
act-error_stays_example =
    act-error_stays ("all" ∷ []) (new (keyed "old")) (keyed "all") keyword_exists refl
