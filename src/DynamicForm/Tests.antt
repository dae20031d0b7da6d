-- ===== src/DynamicForm/Tests.antt =====
-- The theorems of forms at concrete schemas, with texts for values.
use mxzz_bi.Prelude.{String, ◌≡◌, refl, false, none, some, List, [], ◌∷◌, str_eq}
use mxzz_bi.DynamicForm.{
  Values, Property, Schema, Target, ordered_inputs, input_of, get_fields, normalize_schema,
  normalize_property, plain_type, ends_with, set_defaults, set_default, default_choice,
}
use mxzz_bi.DynamicForm.Ordered.{ordered_inputs_ordered}

abbrev texts : Values String
texts = record {
  undefined = "";
  is_undefined = λ v. str_eq v "";
  is_nil = λ v. str_eq v "";
  equal = str_eq;
  to_string = λ v. v;
}

abbrev property : String → List String → Property String
property type enum = record {
  title = "";
  type = type;
  default = "";
  enum = enum;
  extended_enum = [];
  options = [];
  required = false;
  extra = false;
}

abbrev properties : List (String × Property String)
properties =
    ("port", property "number" [])
    ∷ ("host", property "string" [])
    ∷ ("sslFile", property "string" ("on" ∷ "off" ∷ []))
    ∷ []

abbrev schema : Schema String
schema = record {
  properties = properties;
  required = "host" ∷ [];
  extra_options = [];
  order = some ("host" ∷ "gone" ∷ "port" ∷ []);
}

abbrev target : Target String
target = record { has_id = false; name = ""; options = [] }

-- A name that ends in File does not hold against an enumeration, and the first choice is set.
defaults : (get_fields texts "pg" schema target).2 ≡ ("sslFile", "on") ∷ []
unfolding get_fields normalize_schema normalize_property plain_type ends_with set_defaults
    set_default default_choice
defaults = refl

ordered_inputs_ordered_example :
    ordered_inputs texts properties ("host" ∷ "gone" ∷ "port" ∷ []) []
    ≡ some (input_of texts [] "host" (property "string" []))
      ∷ none
      ∷ some (input_of texts [] "port" (property "number" []))
      ∷ some (input_of texts [] "sslFile" (property "string" ("on" ∷ "off" ∷ [])))
      ∷ []
ordered_inputs_ordered_example =
    ordered_inputs_ordered texts ("host" ∷ "gone" ∷ "port" ∷ []) [] properties
      (refl, (refl, (refl, tt))) (refl, (refl, (refl, tt)))
