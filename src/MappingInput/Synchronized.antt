-- ===== src/MappingInput/Synchronized.antt =====
-- ParameterMappingInput.jsx: the titles that `synchronizeWidgetTitles` leaves.
use mxzz_bi.Prelude.{
  ℕ, suc, length, get_elem?, length-append, append-nil, append_assoc, arith, ◌==◌, Bool-cases, inl,
  inr, Option, none, some, String, ◌≡◌, refl, sym, ap, ap₂, ◌∙◌, Bool, true, false, not, ◌&&◌, List,
  [], ◌∷◌, ◌++◌, map, map_same, str_eq, eq_iff, if◌then◌else◌,
}
use mxzz_bi.Widget.Mappings.{Mapping, Mappings}
use mxzz_bi.MappingInput.Titles.{
  Widget, is_dashboard_level, is_dirty, retitle, each_mapping, each_widget, each_source, each_entry,
  mappings_of, synchronize, synchronize_widget_titles,
}

abbrev pub title_by : (is_dashboard : Bool) → Option String → String → String
title_by true (some t) own = t
title_by true none own = own
title_by false o own = own

abbrev first_of_both : Option String → Option String → Option String
first_of_both none o = o
first_of_both (some t) o = some t

-- By the tests: on the levels of both, and on the key.
titles :
    (a b c : Bool) (m s : Option String) (own source : String)
    → (c ≡ true → m ≡ s)
    → (if a && (b && c) then title_by b s source else title_by a m own)
      ≡ title_by a (first_of_both m (if b && c then some source else none)) own
titles true true true none s own source h = ap (λ o. title_by true o source) (sym (h refl))
titles true true true (some t) s own source h = ap (λ o. title_by true o source) (sym (h refl))
titles true true false none s own source h = refl
titles true true false (some t) s own source h = refl
titles true false c none s own source h = refl
titles true false c (some t) s own source h = refl
titles false b c m s own source h = refl

module _ {Num Moment : Type 0} where
  -- The title of the first source that is mapped to the dashboard's parameter `key`, if there is one.
  abbrev pub first_title : (key : String) → (sources : Mappings Num Moment) → Option String
  first_title key [] = none
  first_title key ((k, s) ∷ ss) =
      if is_dashboard_level s && str_eq key s.map_to then some s.title else first_title key ss

  abbrev pub retitled : (sources : Mappings Num Moment) → Mapping Num Moment → Mapping Num Moment
  retitled sources m = record m {
    title = title_by (is_dashboard_level m) (first_title m.map_to sources) m.title;
  }

  abbrev pub on_entries :
      (Mapping Num Moment → Mapping Num Moment) → Mappings Num Moment → Mappings Num Moment
  on_entries f [] = []
  on_entries f ((k, m) ∷ ms) = (k, f m) ∷ on_entries f ms

  abbrev pub on_mappings :
      (Mapping Num Moment → Mapping Num Moment) → Widget Num Moment → Widget Num Moment
  on_mappings f w = record w { parameter_mappings = on_entries f w.parameter_mappings }

  titles-each_mapping :
      (s : Mapping Num Moment) (id : ℕ) (ms : Mappings Num Moment) (affected : List ℕ)
      → (each_mapping s id ms affected).0 ≡ on_entries (retitle s) ms
  unfolding each_mapping
  titles-each_mapping s id [] affected = refl
  titles-each_mapping s id ((k, m) ∷ ms) affected =
      ap ((k, retitle s m) ∷◌)
        (titles-each_mapping s id ms (if is_dirty s m then affected ++ (id ∷ []) else affected))

  titles-each_widget :
      (s : Mapping Num Moment) (ws : List (Widget Num Moment)) (affected : List ℕ)
      → (each_widget s ws affected).0 ≡ map (on_mappings (retitle s)) ws
  unfolding each_widget
  titles-each_widget s [] affected = refl
  titles-each_widget s (w ∷ ws) affected =
      ap₂ (λ ms rest. record w { parameter_mappings = ms } ∷ rest)
        (titles-each_mapping s w.id w.parameter_mappings affected)
        (titles-each_widget s ws (each_mapping s w.id w.parameter_mappings affected).1)

  abbrev once : Mapping Num Moment → Mapping Num Moment → Mapping Num Moment
  once s m = if is_dashboard_level s then retitle s m else m

  -- By the tests: on the two levels, on the key, and on the titles.
  title_chosen :
      (m : Mapping Num Moment) (t : String) (a b c d : Bool)
      → (d ≡ true → m.title ≡ t)
      → (if b then (if a && c && not d then record m { title = t } else m) else m)
        ≡ record m { title = if a && (b && c) then t else m.title }
  title_chosen m t true true true true h = ap (λ t. record m { title = t }) (h refl)
  title_chosen m t true true true false h = refl
  title_chosen m t true true false d h = refl
  title_chosen m t true false c d h = refl
  title_chosen m t false true c d h = refl
  title_chosen m t false false c d h = refl

  first_title_last :
      (key : String) (pre : Mappings Num Moment) (k : String) (s : Mapping Num Moment)
      → first_title key (pre ++ ((k, s) ∷ []))
        ≡ first_of_both
            (first_title key pre)
            (if is_dashboard_level s && str_eq key s.map_to then some s.title else none)
  first_title_last key [] k s = refl
  first_title_last key ((l, p) ∷ pre) k s =
      elim (Bool-cases (is_dashboard_level p && str_eq key p.map_to)) [
        | inl e ↦ rw e refl
        | inr e ↦ rw e (first_title_last key pre k s)
      ]

  -- A source that has its title from those before it, put on a mapping that has its own from them.
  once-retitled :
      (pre : Mappings Num Moment) (k : String) (s m : Mapping Num Moment)
      → once (retitled pre s) (retitled pre m) ≡ retitled (pre ++ ((k, s) ∷ [])) m
  once-retitled pre k s m =
      let s' = retitled pre s in
      let m' = retitled pre m in
      title_chosen m' s'.title (is_dashboard_level m) (is_dashboard_level s)
        (str_eq m.map_to s.map_to) (str_eq m'.title s'.title) (λ h. (eq_iff m'.title s'.title).0 h)
      ∙ ap (λ t. record m { title = t })
          (titles (is_dashboard_level m) (is_dashboard_level s) (str_eq m.map_to s.map_to)
              (first_title m.map_to pre) (first_title s.map_to pre) m.title s.title
              (λ h. ap (λ key. first_title key pre) ((eq_iff m.map_to s.map_to).0 h))
            ∙ ap (λ o. title_by (is_dashboard_level m) o m.title)
                (sym (first_title_last m.map_to pre k s)))

  on_entries_same :
      (f : Mapping Num Moment → Mapping Num Moment)
      → ((m : Mapping Num Moment) → f m ≡ m)
      → (ms : Mappings Num Moment) → on_entries f ms ≡ ms
  on_entries_same f same [] = refl
  on_entries_same f same ((k, m) ∷ ms) =
      ap₂ (λ n rest. (k, n) ∷ rest) (same m) (on_entries_same f same ms)

  on_mappings_same :
      (f : Mapping Num Moment → Mapping Num Moment)
      → ((m : Mapping Num Moment) → f m ≡ m)
      → (ws : List (Widget Num Moment)) → map (on_mappings f) ws ≡ ws
  on_mappings_same f same ws =
      map_same (on_mappings f)
        (λ w.
          ap (λ ms. record w { parameter_mappings = ms })
            (on_entries_same f same w.parameter_mappings))
        ws

  title_kept :
      (m : Mapping Num Moment) (a : Bool) → record m { title = title_by a none m.title } ≡ m
  title_kept m true = refl
  title_kept m false = refl

  titles_if :
      (s : Mapping Num Moment) (ws : List (Widget Num Moment)) (affected : List ℕ) (b : Bool)
      → (if b then each_widget s ws affected else (ws, affected)).0
        ≡ map (on_mappings (λ m. if b then retitle s m else m)) ws
  titles_if s ws affected true = titles-each_widget s ws affected
  titles_if s ws affected false = sym (on_mappings_same (λ m. m) (λ m. refl) ws)

  on_mappings_then :
      (f g h : Mapping Num Moment → Mapping Num Moment)
      (e : (m : Mapping Num Moment) → f (g m) ≡ h m) (ws : List (Widget Num Moment))
      → map (on_mappings f) (map (on_mappings g) ws) ≡ map (on_mappings h) ws
  on_mappings_then f g h e [] = refl
  on_mappings_then f g h e (w ∷ ws) =
      ap₂ (λ ms rest. record w { parameter_mappings = ms } ∷ rest) (go w.parameter_mappings)
        (on_mappings_then f g h e ws)
    where
      go : (ms : Mappings Num Moment) → on_entries f (on_entries g ms) ≡ on_entries h ms
      go [] = refl
      go ((k, m) ∷ ms) = ap₂ (λ n rest. (k, n) ∷ rest) (e m) (go ms)

  mappings_of-map :
      (f : Mapping Num Moment → Mapping Num Moment) (id : ℕ) (ws : List (Widget Num Moment))
      → mappings_of id (map (on_mappings f) ws) ≡ on_entries f (mappings_of id ws)
  mappings_of-map f id [] = refl
  mappings_of-map f id (w ∷ ws) = elim (Bool-cases (id == w.id)) [
    | inl e ↦ rw e refl
    | inr e ↦ rw e (mappings_of-map f id ws)
  ]

  get_elem?-on_entries :
      (f : Mapping Num Moment → Mapping Num Moment) (pre : Mappings Num Moment) (k : String)
      (s : Mapping Num Moment) (post : Mappings Num Moment)
      → get_elem? (on_entries f (pre ++ ((k, s) ∷ post))) (length pre) ≡ some (k, f s)
  get_elem?-on_entries f [] k s post = refl
  get_elem?-on_entries f ((l, p) ∷ pre) k s post = get_elem?-on_entries f pre k s post

  -- With the sources before the index done, those from it on are still to come.
  titles-synchronize :
      (id : ℕ) (ws : List (Widget Num Moment)) (pre post : Mappings Num Moment)
      (vs : List (Widget Num Moment)) (affected : List ℕ)
      → mappings_of id ws ≡ pre ++ post
      → vs ≡ map (on_mappings (retitled pre)) ws
      → (synchronize id (length pre) (length post) (vs, affected)).0
        ≡ map (on_mappings (retitled (pre ++ post))) ws
  unfolding synchronize
  titles-synchronize id ws pre [] vs affected e v =
      v ∙ ap (λ ss. map (on_mappings (retitled ss)) ws) (sym (append-nil pre))
  titles-synchronize id ws pre ((k, s) ∷ post) vs affected e v =
      let s' = retitled pre s in
      let here : get_elem? (mappings_of id vs) (length pre) ≡ some (k, s') =
        ap (λ us. get_elem? (mappings_of id us) (length pre)) v
        ∙ ap (λ ms. get_elem? ms (length pre)) (mappings_of-map (retitled pre) id ws)
        ∙ ap (λ ms. get_elem? (on_entries (retitled pre) ms) (length pre)) e
        ∙ get_elem?-on_entries (retitled pre) pre k s post in
      let st = each_source s' (vs, affected) in
      let next : st.0 ≡ map (on_mappings (retitled (pre ++ ((k, s) ∷ [])))) ws =
        titles_if s' vs affected (is_dashboard_level s')
        ∙ ap (map (on_mappings (once s'))) v
        ∙ on_mappings_then (once s') (retitled pre) (retitled (pre ++ ((k, s) ∷ [])))
            (once-retitled pre k s) ws in
      let n : suc (length pre) ≡ length (pre ++ ((k, s) ∷ [])) =
        omega (arith, length-append pre ((k, s) ∷ [])) in
      let split = append_assoc pre ((k, s) ∷ []) post in
      ap (λ o. (synchronize id (suc (length pre)) (length post) (each_entry o (vs, affected))).0)
        here
      ∙ ap (λ i. (synchronize id i (length post) st).0) n
      ∙ titles-synchronize id ws (pre ++ ((k, s) ∷ [])) post st.0 st.1 (e ∙ sym split) next
      ∙ ap (λ ss. map (on_mappings (retitled ss)) ws) split

  -- Every mapping of a widget keeps all but its title, and a mapping to a parameter of the dashboard
  -- takes the title that the first of the sources that are mapped to the same parameter had, if there
  -- is one; the sources are the mappings of one of the widgets, and are retitled with the others.
  pub titles-synchronize_widget_titles :
      (source_widget : ℕ) (ws : List (Widget Num Moment))
      → (synchronize_widget_titles source_widget ws).0
        ≡ map (on_mappings (retitled (mappings_of source_widget ws))) ws
  unfolding synchronize_widget_titles
  titles-synchronize_widget_titles id ws =
      titles-synchronize id ws [] (mappings_of id ws) ws [] refl
        (sym (on_mappings_same (retitled []) (λ m. title_kept m (is_dashboard_level m)) ws))
