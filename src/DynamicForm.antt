-- ===== src/DynamicForm.antt =====
-- client/app/components/dynamic-form/dynamicFormHelper.js: the fields of a form, made from the schema of
-- a type. The properties of an object are a list by their names, in the order of Object.keys; values are
-- JavaScript's, with the tests that the code makes. The reading of files is left out.
pub mod Ordered
mod Tests
use Prim.Native.String
use mxzz_bi.Prelude.{
  ℕ, zero, suc, ◌+◌, String, Bool, true, false, not, ◌&&◌, ◌||◌, Option, none, some, List, [], ◌∷◌,
  ◌++◌, map, any, str_eq, if◌then◌else◌,
}
use mxzz_bi.Parameters.Normalize.{member}

pub record Values (Value : Type 0) : Type 0 where
  pub undefined : Value
  pub is_undefined : Value → Bool
  pub is_nil : Value → Bool
  pub equal : Value → Value → Bool
  pub to_string : Value → String

pub record Choice (Value : Type 0) : Type 0 where
  pub value : Value
  pub name : Value

-- `enum` and `extendedEnum` are empty where they are missing.
pub record Property (Value : Type 0) : Type 0 where
  pub title : String
  pub type : String
  pub default : Value
  pub enum : List Value
  pub extended_enum : List (Choice Value)
  pub options : List (Choice Value)
  pub required : Bool
  pub extra : Bool

-- `required` and `extra_options` are empty, and `order` is `none`, where they are missing.
pub record Schema (Value : Type 0) : Type 0 where
  pub properties : List (String × Property Value)
  pub required : List String
  pub extra_options : List String
  pub order : Option (List String)

-- `options` is undefined but for a select.
pub record Input (Value : Type 0) : Type 0 where
  pub name : String
  pub title : String
  pub type : String
  pub placeholder : Option String
  pub required : Bool
  pub extra : Bool
  pub initial_value : Value
  pub options : Option (List (Choice Value))

pub record Target (Value : Type 0) : Type 0 where
  pub has_id : Bool
  pub name : Value
  pub options : List (String × Value)

-- The field of the name, which stands before the others.
pub record NameField (Value : Type 0) : Type 0 where
  pub initial_value : Value
  pub placeholder : String
  pub auto_focus : Bool

abbrev pub is_nonempty : {A : Type 0} → List A → Bool
is_nonempty [] = false
is_nonempty (x ∷ xs) = true

unfoldable pub ends_with : String → String → Bool
ends_with t String.[] = str_eq String.[] t
ends_with t (String.◌∷◌ c s) = str_eq (String.◌∷◌ c s) t || ends_with t s

abbrev pub index_of : String → List String → Option ℕ
index_of key [] = none
index_of key (n ∷ ns) =
    let rest = index_of key ns in
    if str_eq key n then some 0 else elim rest [ none ↦ none | some i ↦ some (suc i) ]

module _ {A : Type 0} where
  abbrev pub set_at : ℕ → A → List A → List A
  set_at i v [] = []
  set_at zero v (x ∷ xs) = v ∷ xs
  set_at (suc i) v (x ∷ xs) = x ∷ set_at i v xs

  abbrev pub value_at : A → String → List (String × A) → A
  value_at undefined key [] = undefined
  value_at undefined key ((k, v) ∷ fs) = if str_eq key k then v else value_at undefined key fs

  abbrev pub set_value : String → A → List (String × A) → List (String × A)
  set_value key v [] = (key, v) ∷ []
  set_value key v ((k, w) ∷ fs) =
      let rest = set_value key v fs in if str_eq key k then (k, v) ∷ fs else (k, w) ∷ rest

module _ {Value : Type 0} (values : Values Value) where
  -- The type that the name and the type ask for.
  unfoldable pub plain_type : String → String → String
  unfolding ends_with
  plain_type name type =
      let a = if str_eq name "password" || str_eq name "passwd" then "password" else type in
      let b = if ends_with "File" name then "file" else a in
      let c = if str_eq b "boolean" then "checkbox" else b in
      if str_eq c "string" then "text" else c

  abbrev pub choice : Value → Choice Value
  choice v = record { value = v; name = v }

  -- The types by an enumeration come last, so that they hold against the name.
  unfoldable pub normalize_property :
      Schema Value → String × Property Value → String × Property Value
  unfolding plain_type
  normalize_property schema (name, p) =
      let by_enum = is_nonempty p.enum in
      let by_extended_enum = is_nonempty p.extended_enum in
      (
        name,
        record p {
          type = if by_enum || by_extended_enum then "select" else plain_type name p.type;
          options =
              if by_extended_enum
              then p.extended_enum
              else if by_enum
              then map choice p.enum
              else p.options;
          required = member name schema.required;
          extra = member name schema.extra_options;
        },
      )

  abbrev pub or_empty : Option (List String) → List String
  or_empty none = []
  or_empty (some names) = names

  unfoldable pub normalize_schema : Schema Value → Schema Value
  unfolding normalize_property
  normalize_schema schema = record schema {
    properties = map (normalize_property schema) schema.properties;
    order = some (or_empty schema.order);
  }

  abbrev pub first_value : List Value → Value
  first_value [] = values.undefined
  first_value (v ∷ vs) = v

  abbrev pub includes : List Value → Value → Bool
  includes vs v = any (λ w. values.equal w v) vs

  -- The value of a select that has none.
  unfoldable pub default_choice : Property Value → Value
  default_choice p =
      let option_values = map (λ o. o.value) p.options in
      if includes option_values p.default then p.default else first_value option_values

  unfoldable pub set_default :
      String × Property Value → List (String × Value) → List (String × Value)
  unfolding default_choice
  set_default (key, p) options =
      let checked =
        if not (values.is_undefined p.default) && str_eq p.type "checkbox"
        then set_value key p.default options
        else options in
      if str_eq p.type "select" then set_value key (default_choice p) checked else checked

  -- `setDefaultValueToFields`
  unfoldable pub set_defaults :
      List (String × Property Value) → List (String × Value) → List (String × Value)
  unfolding set_default
  set_defaults [] options = options
  set_defaults (f ∷ fs) options = set_defaults fs (set_default f options)

  unfoldable pub input_of : List (String × Value) → String → Property Value → Input Value
  input_of target_options key p =
      let is_select = str_eq p.type "select" in
      record {
        name = key;
        title = p.title;
        type = p.type;
        placeholder =
            if is_select
            then some "选择一个选项"
            else if values.is_nil p.default
            then none
            else some (values.to_string p.default);
        required = p.required;
        extra = p.extra;
        initial_value = value_at values.undefined key target_options;
        options = if is_select then some p.options else none;
      }

  abbrev pub place :
      Option ℕ → Input Value → List (Option (Input Value)) → List (Option (Input Value))
  place none input inputs = inputs ++ some input ∷ []
  place (some position) input inputs = set_at position (some input) inputs

  -- The loop of `orderedInputs`. An element of the array that is never set is `none`.
  unfoldable pub place_all :
      List String
      → List (String × Value)
      → List (String × Property Value)
      → List (Option (Input Value))
      → List (Option (Input Value))
  place_all order target_options [] inputs = inputs
  place_all order target_options ((key, p) ∷ fs) inputs =
      place_all order target_options fs
        (place (index_of key order) (input_of target_options key p) inputs)

  unfoldable pub ordered_inputs :
      List (String × Property Value)
      → List String
      → List (String × Value)
      → List (Option (Input Value))
  unfolding place_all
  ordered_inputs properties order target_options =
      place_all order target_options properties (map (λ name. none) order)

  -- `getFields`, with the target's options, which it may set.
  unfoldable pub get_fields :
      String
      → Schema Value
      → Target Value
      → NameField Value × List (Option (Input Value)) × List (String × Value)
  unfolding normalize_schema set_defaults ordered_inputs
  get_fields type_name schema target =
      let normal = normalize_schema schema in
      let options =
        if is_nonempty target.options
        then target.options
        else set_defaults normal.properties target.options in
      (
        record {
          initial_value = target.name;
          placeholder = String.◌++◌ "My " type_name;
          auto_focus = not target.has_id;
        },
        ordered_inputs normal.properties (or_empty normal.order) options,
        options,
      )

  unfoldable pub set_options : List (String × Value) → List (String × Value) → List (String × Value)
  set_options [] options = options
  set_options ((key, v) ∷ vs) options =
      let rest = set_options vs options in
      let set_rest = set_options vs (set_value key v options) in
      if str_eq key "name" then rest else set_rest

  unfoldable pub update_target_with_values : Target Value → List (String × Value) → Target Value
  unfolding set_options
  update_target_with_values target vs = record target {
    name = value_at values.undefined "name" vs;
    options = set_options vs target.options;
  }
