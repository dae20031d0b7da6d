-- ===== src/Dashboard/Filtered.antt =====
-- dashboard.js: which values a filter of the dashboard offers.
use mxzz_bi.Prelude.{
  String, ◌≡◌, refl, sym, ap, ◌∙◌, Bool, true, false, Option, none, some, List, [], ◌∷◌, ◌++◌,
  str_eq, eq_iff, if◌then◌else◌, Bool-cases, inl, inr,
}
use mxzz_bi.Dashboard.Filters.{
  Filter, lookup, add_filter, linked, add_some, collect_filters, each_result,
  collect_dashboard_filters,
}

module _ {Cell : Type 0} (union : List Cell → List Cell → List Cell) where
  -- The values of the filter of a name, `none` if there is no such filter.
  abbrev pub values_at : String → List (Filter Cell) → Option (List Cell)
  values_at key [] = none
  values_at key (g ∷ gs) = if str_eq key g.name then some g.values else values_at key gs

  abbrev pub merged : Option (List Cell) → List Cell → Option (List Cell)
  merged none vs = some vs
  merged (some us) vs = some (union us vs)

  -- Over the filters of a name: all of them if filters are linked or the URL has a value for the name.
  abbrev pub merge_named : String → List (Filter Cell) → Option (List Cell) → Option (List Cell)
  merge_named key [] o = o
  merge_named key (f ∷ fs) o =
      merge_named key fs (if str_eq key f.name then merged o f.values else o)

  abbrev pub is_linked : (enabled : Bool) → Option Cell → Bool
  is_linked true o = true
  is_linked false none = false
  is_linked false (some v) = true

  values_at-add_filter :
      (key : String) (f : Filter Cell) (gs : List (Filter Cell))
      → values_at key (add_filter union f gs)
        ≡ (if str_eq key f.name then merged (values_at key gs) f.values else values_at key gs)
  unfolding add_filter
  values_at-add_filter key f [] = refl
  values_at-add_filter key f (g ∷ gs) = elim (Bool-cases (str_eq f.name g.name)) [
    | inl e ↦
        let q = (eq_iff f.name g.name).0 e in
        elim (Bool-cases (str_eq key g.name)) [
          | inl h ↦
              let k : str_eq key f.name ≡ true = ap (str_eq key) q ∙ h in
              rw (add_filter, e, h, k) refl
          | inr h ↦
              let k : str_eq key f.name ≡ false = ap (str_eq key) q ∙ h in
              rw (add_filter, e, h, k) refl
        ]
    | inr e ↦ elim (Bool-cases (str_eq key g.name)) [
      | inl h ↦ elim (Bool-cases (str_eq key f.name)) [
        | inl k ↦
            let c : str_eq f.name g.name ≡ true =
              sym (ap (λ x. str_eq x g.name) ((eq_iff key f.name).0 k)) ∙ h in
            cc
        | inr k ↦ rw (add_filter, e, h, k) refl
      ]
      | inr h ↦ rw (add_filter, e, h) (values_at-add_filter key f gs)
    ]
  ]

  values_at-add_some :
      (key : String) (enabled : Bool) (o : Option Cell) (f : Filter Cell) (gs : List (Filter Cell))
      → is_linked enabled o ≡ true
      → values_at key (add_some union (linked union enabled o f) gs)
        ≡ (if str_eq key f.name then merged (values_at key gs) f.values else values_at key gs)
  values_at-add_some key enabled (some v) f gs h =
      values_at-add_filter key (record f { current = some v }) gs
  values_at-add_some key true none f gs h = values_at-add_filter key f gs
  values_at-add_some key false none f gs h = cc

  values_at-add_unlinked :
      (key : String) (enabled : Bool) (o : Option Cell) (f : Filter Cell) (gs : List (Filter Cell))
      → str_eq key f.name ≡ false
      → values_at key (add_some union (linked union enabled o f) gs) ≡ values_at key gs
  values_at-add_unlinked key enabled (some v) f gs h =
      values_at-add_filter key (record f { current = some v }) gs ∙ rw h refl
  values_at-add_unlinked key true none f gs h = values_at-add_filter key f gs ∙ rw h refl
  values_at-add_unlinked key false none f gs h = refl

  module _ (enabled : Bool) (url : List (String × Cell)) (key : String)
      (link : is_linked enabled (lookup key url) ≡ true) where
    one_more :
        (f : Filter Cell) (gs : List (Filter Cell))
        → values_at key (add_some union (linked union enabled (lookup f.name url) f) gs)
          ≡ (if str_eq key f.name then merged (values_at key gs) f.values else values_at key gs)
    one_more f gs = elim (Bool-cases (str_eq key f.name)) [
      | inl e ↦
          let q = (eq_iff key f.name).0 e in
          values_at-add_some key enabled (lookup f.name url) f gs
            (ap (λ x. is_linked enabled (lookup x url)) (sym q) ∙ link)
      | inr e ↦ values_at-add_unlinked key enabled (lookup f.name url) f gs e ∙ rw e refl
    ]

    values_at-collect_filters :
        (fs gs : List (Filter Cell))
        → values_at key (collect_filters union enabled url fs gs)
          ≡ merge_named key fs (values_at key gs)
    unfolding collect_filters
    values_at-collect_filters [] gs = refl
    values_at-collect_filters (f ∷ fs) gs =
        values_at-collect_filters fs _ ∙ ap (merge_named key fs) (one_more f gs)

    abbrev pub all_filters : List (List (Filter Cell)) → List (Filter Cell)
    all_filters [] = []
    all_filters (fs ∷ rest) = fs ++ all_filters rest

    merge_named-append :
        (fs rest : List (Filter Cell)) (o : Option (List Cell))
        → merge_named key rest (merge_named key fs o) ≡ merge_named key (fs ++ rest) o
    merge_named-append [] rest o = refl
    merge_named-append (f ∷ fs) rest o =
        merge_named-append fs rest (if str_eq key f.name then merged o f.values else o)

    values_at-each_result :
        (results : List (List (Filter Cell))) (gs : List (Filter Cell))
        → values_at key (each_result union enabled url results gs)
          ≡ merge_named key (all_filters results) (values_at key gs)
    values_at-each_result [] gs = refl
    values_at-each_result (fs ∷ rest) gs =
        values_at-each_result rest (collect_filters union enabled url fs gs)
        ∙ ap (merge_named key (all_filters rest)) (values_at-collect_filters fs gs)
        ∙ merge_named-append fs (all_filters rest) (values_at key gs)

    -- When the dashboard links its filters, or the URL has a value for the name, the dashboard's filter
    -- of a name offers the union of the values of all filters of that name, in the order of the query
    -- results.
    pub values_at-collect_dashboard_filters :
        (results : List (List (Filter Cell)))
        → values_at key (collect_dashboard_filters union enabled results url)
          ≡ merge_named key (all_filters results) none
    unfolding collect_dashboard_filters
    values_at-collect_dashboard_filters results = values_at-each_result results []
