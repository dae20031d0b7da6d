-- ===== src/Query/Tests.antt =====
-- The theorems of queries at concrete inputs.
use mxzz_bi.Prelude.{String, ◌≡◌, refl, Bool, true, false, Option, none, some, [], ◌∷◌}
use mxzz_bi.Parameters.Normalize.{Value, null, text, Env, member}
use mxzz_bi.Parameters.Object.{Definition}
use mxzz_bi.Query.Names.{
  Parts, tag, section, other, no_parts, part, uniq, uniq_from, before_dot, collect_params,
  collect_params_from,
}
use mxzz_bi.Query.Uniq.{all_names, uniq-collect_params}
use mxzz_bi.Query.ParameterList.{saved, Parameters, names, update_parameters, parse_query}
use mxzz_bi.Query.Listed.{member-names-update_parameters}

-- Nothing but texts is converted.
abbrev text_of : Value Bool Bool → String
text_of (text s) = s
text_of _ = ""

abbrev texts : Env Bool Bool
texts = record {
  to_string = text_of;
  to_number = λ v. none;
  moment_of = λ v. none;
  format = λ f m. "";
}

-- `{{ a.start }} {{# b }}{{ a }}{{ c }}{{/ b }}`
abbrev some_parts : Parts
some_parts =
    part (tag "a.start")
      (part other (part (section "b" (part (tag "a") (part (tag "c") no_parts))) no_parts))

some_names : collect_params some_parts ≡ "a" ∷ "c" ∷ []
unfolding collect_params_from uniq_from before_dot
some_names = refl

-- Every text parses to the same parts.
abbrev parses : String → Option Parts
parses s = some some_parts

abbrev text_param : String → Value Bool Bool → Definition Bool Bool
text_param name value = record {
  name = name;
  title = name;
  type = "text";
  value = value;
  global = false;
  enum_options = none;
  multi_values_options = none;
  use_current_date_time = false;
}

abbrev changed : Parameters Bool Bool
changed = record {
  text = some "new";
  parameters = saved (text_param "c" null) ∷ saved (text_param "d" (text "x")) ∷ [];
  cached_query_text = some "old";
}

uniq-collect_params_example : uniq (collect_params some_parts) ≡ uniq (all_names some_parts)
uniq-collect_params_example = uniq-collect_params some_parts

member-names-update_parameters_example :
    member "d" (names (update_parameters texts parses true changed).parameters) ≡ false
unfolding parse_query collect_params_from uniq_from before_dot
member-names-update_parameters_example =
    member-names-update_parameters texts parses changed "d" refl
