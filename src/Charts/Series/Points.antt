-- ===== src/Charts/Series/Points.antt =====
-- getChartData.js: which points a series has.
use mxzz_bi.Prelude.{
  ◌≡◌, refl, sym, ap, ◌∙◌, Bool, true, false, ◌&&◌, Option, none, List, [], ◌∷◌, ◌++◌, append_assoc,
  append-nil, ◌==◌, if◌then◌else◌, Bool-cases, neither, inl, inr,
}
use mxzz_bi.QueryResult.ColumnName.{eq_codes, colon, has_double, split_double}
use mxzz_bi.QueryResult.ColumnName.Laws.{eq_codes→eq}
use mxzz_bi.Charts.Series.{
  Name, Row, other, Point, Series, column_use, row_points, add_point_to_series, add_points,
  add_rows,
}

apart : (key n m : Name) → eq_codes n m ≡ false → eq_codes key m ≡ true → eq_codes key n ≡ false
apart key n m e f = elim (Bool-cases (eq_codes key n)) [
  | inl h ↦
      let k : eq_codes n m ≡ true = sym (ap (λ x. eq_codes x m) (eq_codes→eq key n h)) ∙ f in cc
  | inr h ↦ h
]

module _ {Cell : Type 0} where
  -- The points of the series of a name, none if there is no such series.
  abbrev pub points_in : Name → List (Series Cell) → List (Point Cell)
  points_in key [] = []
  points_in key (s ∷ ss) = if eq_codes key s.name then s.data_points else points_in key ss

  abbrev pub named : Name → List (Name × Point Cell) → List (Point Cell)
  named key [] = []
  named key ((n, p) ∷ ps) = if eq_codes key n then p ∷ named key ps else named key ps

  points_in-add_point :
      (key n : Name) (p : Point Cell) (ss : List (Series Cell))
      → points_in key (add_point_to_series n p ss)
        ≡ points_in key ss ++ (if eq_codes key n then p ∷ [] else [])
  unfolding add_point_to_series
  points_in-add_point key n p [] = refl
  points_in-add_point key n p (s ∷ ss) = elim (Bool-cases (eq_codes n s.name)) [
    | inl e ↦
        let q = eq_codes→eq n s.name e in
        elim (Bool-cases (eq_codes key s.name)) [
          | inl f ↦ let g : eq_codes key n ≡ true = rw q f in rw (add_point_to_series, e, f, g) refl
          | inr f ↦
              let g : eq_codes key n ≡ false = rw q f in
              rw (add_point_to_series, e, f, g) (sym (append-nil (points_in key ss)))
        ]
    | inr e ↦ elim (Bool-cases (eq_codes key s.name)) [
      | inl f ↦
          let g : eq_codes key n ≡ false = apart key n s.name e f in
          rw (add_point_to_series, e, f, g) (sym (append-nil s.data_points))
      | inr f ↦ rw (add_point_to_series, e, f) (points_in-add_point key n p ss)
    ]
  ]

  named-cons :
      (key n : Name) (p : Point Cell) (ps : List (Name × Point Cell))
      → named key ((n, p) ∷ ps) ≡ (if eq_codes key n then p ∷ [] else []) ++ named key ps
  named-cons key n p ps = elim (Bool-cases (eq_codes key n)) [
    | inl e ↦ rw e refl
    | inr e ↦ rw e refl
  ]

  points_in-add_points :
      (key : Name) (ps : List (Name × Point Cell)) (ss : List (Series Cell))
      → points_in key (add_points ps ss) ≡ points_in key ss ++ named key ps
  unfolding add_points
  points_in-add_points key [] ss = sym (append-nil (points_in key ss))
  points_in-add_points key ((n, p) ∷ ps) ss =
      points_in-add_points key ps (add_point_to_series n p ss)
      ∙ ap (◌++ named key ps) (points_in-add_point key n p ss)
      ∙ append_assoc (points_in key ss) (if eq_codes key n then p ∷ [] else []) (named key ps)
      ∙ ap (points_in key ss ++◌) (sym (named-cons key n p ps))

  module _ (zero : Cell) (is_null : Cell → Bool) (to_text : Cell → Name)
      (mappings : Option (List (Name × Name))) where
    -- The points that the rows give to the series of a name.
    abbrev pub points_for : Name → List (Row Cell) → List (Point Cell)
    points_for key [] = []
    points_for key (row ∷ rows) =
        named key (row_points zero is_null to_text mappings row) ++ points_for key rows

    points_in-add_rows :
        (key : Name) (rows : List (Row Cell)) (ss : List (Series Cell))
        → points_in key (add_rows zero is_null to_text mappings rows ss)
          ≡ points_in key ss ++ points_for key rows
    unfolding add_rows
    points_in-add_rows key [] ss = sym (append-nil (points_in key ss))
    points_in-add_rows key (row ∷ rows) ss =
        let ps = row_points zero is_null to_text mappings row in
        points_in-add_rows key rows (add_points ps ss)
        ∙ ap (◌++ points_for key rows) (points_in-add_points key ps ss)
        ∙ append_assoc (points_in key ss) (named key ps) (points_for key rows)

    -- The series of a name has the points that the rows give to that name, all of them, in the order of
    -- the rows, and no others.
    pub points_in-add_rows_all :
        (key : Name) (rows : List (Row Cell))
        → points_in key (add_rows zero is_null to_text mappings rows []) ≡ points_for key rows
    points_in-add_rows_all key rows = points_in-add_rows key rows []

whole_part :
    (xs cur : Name) → has_double colon xs ≡ false → split_double colon cur xs ≡ (cur ++ xs) ∷ []
unfolding has_double split_double
whole_part [] cur h = ap (◌∷ []) (sym (append-nil cur))
whole_part (x ∷ []) cur h = refl
whole_part (x ∷ y ∷ xs) cur h =
    let (p, q) = neither (x == colon && y == colon) (has_double colon (y ∷ xs)) h in
    rw (split_double, p)
      (whole_part (y ∷ xs) (cur ++ (x ∷ [])) q ∙ ap (◌∷ []) (append_assoc cur (x ∷ []) (y ∷ xs)))

-- Where no columns are mapped, a column with no double colon in its name, such as one whose type
-- stands behind two underscores, is used for nothing.
column_use_single :
    (definition : Name) → has_double colon definition ≡ false → column_use none definition ≡ other
unfolding column_use
column_use_single definition h = rw (whole_part definition [] h) refl
