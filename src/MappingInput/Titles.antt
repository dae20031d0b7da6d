-- ===== src/MappingInput/Titles.antt =====
-- ParameterMappingInput.jsx: `synchronizeWidgetTitles`, as its callers call it: the sources are the
-- mappings of a widget that is one of the widgets, so that a source may be given a new title before its
-- turn comes. And `getMappingTitle` of the title editor.
use mxzz_bi.Prelude.{
  ℕ, zero, suc, length, get_elem?, ◌==◌, String, Bool, true, false, not, ◌&&◌, Option, none, some,
  List, [], ◌∷◌, ◌++◌, str_eq, if◌then◌else◌,
}
use mxzz_bi.Widget.Mappings.{dashboard_level, Mapping, Mappings, title_or}
use mxzz_bi.MappingInput.Editable.{EditableMapping, MappingType, dashboard_map_to_existing}

-- A widget of the dashboard, by its id.
pub record Widget (Num Moment : Type 0) : Type 0 where
  pub id : ℕ
  pub parameter_mappings : Mappings Num Moment

-- `isString(title) && title !== ""`
abbrev pub is_text : String → Bool
is_text s = not (str_eq s "")

abbrev pub to_existing : MappingType → Bool
to_existing dashboard_map_to_existing = true
to_existing _ = false

-- The title of a parameter of the dashboard, `none` if there is none of that name.
abbrev pub source_title : String → List (String × String) → Option String
source_title key [] = none
source_title key ((name, title) ∷ ps) = if str_eq name key then some title else source_title key ps

module _ {Num Moment : Type 0} where
  abbrev pub is_dashboard_level : Mapping Num Moment → Bool
  is_dashboard_level m = elim m.type [ dashboard_level ↦ true | _ ↦ false ]

  -- Mapped to the same parameter of the dashboard, under another title.
  abbrev pub is_dirty : (source widget : Mapping Num Moment) → Bool
  is_dirty source m =
      is_dashboard_level m && str_eq m.map_to source.map_to && not (str_eq m.title source.title)

  abbrev pub retitle : (source : Mapping Num Moment) → Mapping Num Moment → Mapping Num Moment
  retitle source m = if is_dirty source m then record m { title = source.title } else m

  -- The mappings of one widget; `affectedWidgets` is pushed to for each that changes.
  unfoldable pub each_mapping :
      (source : Mapping Num Moment)
      → (id : ℕ) → Mappings Num Moment
      → (affected_widgets : List ℕ) → Mappings Num Moment × List ℕ
  each_mapping source id [] affected = ([], affected)
  each_mapping source id ((k, m) ∷ ms) affected =
      let pushed = if is_dirty source m then affected ++ (id ∷ []) else affected in
      let rest = each_mapping source id ms pushed in ((k, retitle source m) ∷ rest.0, rest.1)

  unfoldable pub each_widget :
      (source : Mapping Num Moment)
      → List (Widget Num Moment)
      → (affected_widgets : List ℕ) → List (Widget Num Moment) × List ℕ
  unfolding each_mapping
  each_widget source [] affected = ([], affected)
  each_widget source (w ∷ ws) affected =
      let own = each_mapping source w.id w.parameter_mappings affected in
      let rest = each_widget source ws own.1 in
      (record w { parameter_mappings = own.0 } ∷ rest.0, rest.1)

  abbrev pub each_source :
      (source : Mapping Num Moment)
      → List (Widget Num Moment) × List ℕ
      → List (Widget Num Moment) × List ℕ
  each_source source (ws, affected) =
      let changed = each_widget source ws affected in
      if is_dashboard_level source then changed else (ws, affected)

  -- `widget.options.parameterMappings` of the widget of an id, as it is then.
  abbrev pub mappings_of : ℕ → List (Widget Num Moment) → Mappings Num Moment
  mappings_of id [] = []
  mappings_of id (w ∷ ws) = if id == w.id then w.parameter_mappings else mappings_of id ws

  abbrev pub each_entry :
      Option (String × Mapping Num Moment)
      → List (Widget Num Moment) × List ℕ
      → List (Widget Num Moment) × List ℕ
  each_entry none st = st
  each_entry (some e) st = each_source e.1 st

  -- The sources that are left, from an index on, each read when its turn comes. The widgets as they are
  -- left, and `affectedWidgets`.
  unfoldable pub synchronize :
      (source_widget : ℕ)
      → (index left : ℕ) → List (Widget Num Moment) × List ℕ
      → List (Widget Num Moment) × List ℕ
  unfolding each_widget
  synchronize id i zero st = st
  synchronize id i (suc n) st =
      synchronize id (suc i) n (each_entry (get_elem? (mappings_of id st.0) i) st)

  unfoldable pub synchronize_widget_titles :
      (source_widget : ℕ) → List (Widget Num Moment) → List (Widget Num Moment) × List ℕ
  unfolding synchronize
  synchronize_widget_titles id ws = synchronize id 0 (length (mappings_of id ws)) (ws, [])

  -- `existing_params` by their names and titles. `none` is an exception: a source with no title has
  -- no `param` either.
  unfoldable pub get_mapping_title :
      (existing_params : List (String × String))
      → (param_title : String) → EditableMapping Num Moment
      → Option String
  get_mapping_title existing_params param_title m =
      if is_text m.title
      then some m.title
      else elim (if to_existing m.type then source_title m.map_to existing_params else none) [
        | none ↦ some (title_or m.title param_title)
        | some t ↦ if is_text t then some t else none
      ]
