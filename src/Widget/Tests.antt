-- ===== src/Widget/Tests.antt =====
-- The theorems of widgets at concrete inputs.
use mxzz_bi.Prelude.{ℕ, String, ◌≡◌, refl, Bool, true, false, none, some, [], ◌∷◌}
use mxzz_bi.Parameters.Normalize.{text, text_kind}
use mxzz_bi.Parameters.Normalize
use mxzz_bi.Parameters.Object.{Parameter}
use mxzz_bi.Widget.Mappings.{
  static_value, Mappings, mapping_at, get_parameter_mappings, default_mapping,
}
use mxzz_bi.Widget.Mapped.{mapping_at-get_parameter_mappings}
use mxzz_bi.Widget.Loading.{Widget, load, settled, load_overtaken}

abbrev param : String → Bool → Parameter Bool Bool
param name global = record {
  name = name;
  title = name;
  global = global;
  kind = text_kind;
  value = text "x";
  normalized_value = text "x";
  pending_value = Normalize.undefined;
  url_prefix = "p_";
}

abbrev gone_and_fixed : Mappings Bool Bool
gone_and_fixed =
    ("gone", default_mapping (param "gone" false))
    ∷ (
      "fixed",
      record (default_mapping (param "fixed" false)) { type = static_value; value = text "y" },
    )
    ∷ []

mapping_at-get_parameter_mappings_example :
    mapping_at "gone"
      (get_parameter_mappings (param "fixed" false ∷ param "new" true ∷ []) gone_and_fixed)
    ≡ none
mapping_at-get_parameter_mappings_example =
    mapping_at-get_parameter_mappings "gone" (param "fixed" false ∷ param "new" true ∷ [])
      gone_and_fixed

abbrev new_widget : Widget ℕ
new_widget = record {
  visualization = true;
  loading = false;
  loaded = none;
  query_result = none;
  in_flight = [];
}

load_overtaken_example :
    let both = load (λ a. 8) true none (load (λ a. 7) true none new_widget) in
    let one = settled 1 8 both in
    let two = settled 0 7 one in
    (one.loading ≡ false)
    × (one.in_flight ≡ 7 ∷ [])
    × (two.query_result ≡ some 8)
    × (two.loaded ≡ some 7)
load_overtaken_example = load_overtaken 7 8 new_widget refl refl
