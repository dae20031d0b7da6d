-- ===== src/Query/ParameterList.antt =====
-- query.js: the class `Parameters`. The options have an array of parameters, some of them not made
-- into objects yet; Mustache's parser and `encodeURIComponent` are parameters.
use Prim.Native.String
use mxzz_bi.Prelude.{
  String, Bool, true, false, not, Option, none, some, List, [], ◌∷◌, ◌++◌, map, filter, any, str_eq,
  if◌then◌else◌,
}
use mxzz_bi.Parameters.Normalize.{Value, undefined, null, Env, member}
use mxzz_bi.Parameters.Object.{
  Definition, Parameter, Node, node, no_locals, root, create_parameter, is_empty,
}
use mxzz_bi.Parameters.Pending.{has_pending_value, apply_pending_value}
use mxzz_bi.Parameters.Values.{Calendar, Extra, get_execution_value, join}
use mxzz_bi.Parameters.Url.{Json, to_url_params, from_url_params}
use mxzz_bi.Query.Names.{Parts, uniq, collect_params}

-- What the options hold: what the server saved, or an instance of `Parameter`.
pub data Entry (Num Moment : Type 0) : Type 0 where
  saved : Definition Num Moment → Entry Num Moment
  instance_of : Node Num Moment → Entry Num Moment

pub record Parameters (Num Moment : Type 0) : Type 0 where
  -- `query.query` and `query.options.parameters`
  pub text : Option String
  pub parameters : List (Entry Num Moment)
  -- `undefined` at first
  pub cached_query_text : Option String

abbrev pub same_text : Option String → Option String → Bool
same_text none none = true
same_text (some s) (some t) = str_eq s t
same_text _ _ = false

module _ {Num Moment : Type 0} where
  abbrev pub name_of : Entry Num Moment → String
  name_of (saved d) = d.name
  name_of (instance_of n) = (root n).name

  abbrev pub is_saved : Entry Num Moment → Bool
  is_saved (saved d) = true
  is_saved (instance_of n) = false

  abbrev pub names : List (Entry Num Moment) → List String
  names es = map name_of es

  abbrev pub text_definition : String → Definition Num Moment
  text_definition name = record {
    name = name;
    title = name;
    type = "text";
    value = null;
    global = false;
    enum_options = none;
    multi_values_options = none;
    use_current_date_time = false;
  }

  -- `parse` is Mustache's, `none` if it throws.
  unfoldable pub parse_query : (parse : String → Option Parts) → Parameters Num Moment → List String
  parse_query parse ps = elim ps.text [
    | none ↦ names ps.parameters
    | some s ↦ elim (parse s) [
      | none ↦ names ps.parameters
      | some parts ↦ uniq (collect_params parts)
    ]
  ]

  module _ (env : Env Num Moment) where
    -- `p instanceof Parameter ? p : createParameter(p, …)`
    abbrev pub instantiate : Entry Num Moment → Entry Num Moment
    instantiate (saved d) = instance_of (node (create_parameter env d) no_locals)
    instantiate (instance_of n) = instance_of n

    abbrev pub new_text : String → Entry Num Moment
    new_text name = instance_of (node (create_parameter env (text_definition name)) no_locals)

    abbrev pub instantiate_saved : List (Entry Num Moment) → List (Entry Num Moment)
    instantiate_saved es = if any is_saved es then map instantiate es else es

    -- The parameters that the names want: those there are, then the new ones.
    unfoldable pub wanted : List String → List (Entry Num Moment) → List (Entry Num Moment)
    wanted wanted_names es =
        let added = map new_text (filter (λ x. not (member x (names es))) wanted_names) in
        map instantiate (filter (λ e. member (name_of e) wanted_names) (es ++ added))

    unfoldable pub update_parameters :
        (parse : String → Option Parts) (update : Bool)
        → Parameters Num Moment
        → Parameters Num Moment
    unfolding wanted parse_query
    update_parameters parse update ps =
        if same_text ps.text ps.cached_query_text
        then record ps { parameters = instantiate_saved ps.parameters }
        else record ps {
          cached_query_text = ps.text;
          parameters =
              wanted (if update then parse_query parse ps else names ps.parameters) ps.parameters;
        }

    abbrev pub on_node : (Node Num Moment → Node Num Moment) → Entry Num Moment → Entry Num Moment
    on_node f (saved d) = saved d
    on_node f (instance_of n) = instance_of (f n)

    abbrev pub nodes : List (Entry Num Moment) → List (Parameter Num Moment)
    nodes [] = []
    nodes (saved d ∷ es) = nodes es
    nodes (instance_of n ∷ es) = root n ∷ nodes es

    module _ (parse : String → Option Parts) where
      -- `get`, as the list is after it
      abbrev pub get : Parameters Num Moment → Parameters Num Moment
      get ps = update_parameters parse true ps

      unfoldable pub init_from_query_string :
          Json Num → List (String × String) → Parameters Num Moment → Parameters Num Moment
      init_from_query_string json q ps =
          let got = get ps in
          record got { parameters = map (on_node (from_url_params env json q)) got.parameters }

      -- The constructor, for a query's text and options.
      unfoldable pub new :
          Json Num
          → List (String × String)
          → Option String
          → List (Entry Num Moment)
          → Parameters Num Moment
      unfolding init_from_query_string
      new json q text es = init_from_query_string json q (
          update_parameters parse false
            (record { text = text; parameters = es; cached_query_text = none }))

      unfoldable pub add : Definition Num Moment → Parameters Num Moment → Parameters Num Moment
      add d ps = record ps {
        parameters =
            filter (λ e. not (str_eq (name_of e) d.name)) ps.parameters
            ++ (instance_of (node (create_parameter env d) no_locals) ∷ []);
      }

      -- The titles of what is missing, read off the list of `get`.
      unfoldable pub get_missing : Parameters Num Moment → List String
      get_missing ps = map (λ p. p.title) (filter (λ p. is_empty p) (nodes (get ps).parameters))

      abbrev pub is_empty_list : {A : Type 0} → List A → Bool
      is_empty_list [] = true
      is_empty_list (x ∷ xs) = false

      unfoldable pub is_required : Parameters Num Moment → Bool
      is_required ps = not (is_empty_list (get ps).parameters)

      -- `Object.assign`: a key keeps its place.
      abbrev pub assign_key :
          (String × Value Num Moment)
          → List (String × Value Num Moment)
          → List (String × Value Num Moment)
      assign_key (k, v) [] = (k, v) ∷ []
      assign_key (k, v) ((j, w) ∷ o) =
          if str_eq k j then (j, v) ∷ o else (j, w) ∷ assign_key (k, v) o

      unfoldable pub zip_object :
          List (String × Value Num Moment)
          → List (String × Value Num Moment)
          → List (String × Value Num Moment)
      zip_object [] o = o
      zip_object (e ∷ es) o = zip_object es (assign_key e o)

      -- `zipObject` of the names and the values
      unfoldable pub get_execution_values :
          Calendar Moment
          → Extra
          → (a b : Moment) → Parameters Num Moment
          → List (String × Value Num Moment)
      unfolding zip_object
      get_execution_values cal extra a b ps =
          zip_object
            (map (λ p. (p.name, get_execution_value env cal extra a b p))
              (nodes (get ps).parameters))
            []

      module _ (is_equal : Value Num Moment → Value Num Moment → Bool) where
        unfoldable pub has_pending_values : Parameters Num Moment → Bool
        has_pending_values ps = any (has_pending_value env is_equal) (nodes (get ps).parameters)

        unfoldable pub apply_pending_values : Parameters Num Moment → Parameters Num Moment
        apply_pending_values ps =
            let got = get ps in
            record got {
              parameters = map (on_node (apply_pending_value env is_equal)) got.parameters;
            }

      unfoldable pub url_object :
          Json Num
          → List (Parameter Num Moment)
          → List (String × Value Num Moment)
          → List (String × Value Num Moment)
      url_object json [] o = o
      url_object json (p ∷ ps) o = url_object json ps (assign_key (to_url_params env json p) o)

      abbrev pub is_nil : Value Num Moment → Bool
      is_nil undefined = true
      is_nil null = true
      is_nil _ = false

      abbrev pub pair_text : (encode : String → String) → String × Value Num Moment → String
      pair_text encode (k, v) = String.◌++◌ (encode k) (String.◌++◌ "=" (encode (env.to_string v)))

      unfoldable pub to_query_string :
          Json Num → (encode : String → String) → List (Parameter Num Moment) → String
      unfolding url_object
      to_query_string json encode ps =
          join "&" (map (pair_text encode) (filter (λ e. not (is_nil e.1)) (url_object json ps [])))
