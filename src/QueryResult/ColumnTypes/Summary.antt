-- ===== src/QueryResult/ColumnTypes/Summary.antt =====
-- What the loops compute: the type that all the cells of a column agree on, or "string".
use mxzz_bi.Prelude.{
  all, String, ◌≡◌, refl, ◌∙◌, ◌↔◌, inl, inr, true, Option, none, some, List, [], ◌∷◌, ◌++◌, arith,
  str_eq, eq_iff, if◌then◌else◌, Bool-cases,
}
use mxzz_bi.QueryResult.ColumnTypes.{
  ColumnType, float, datetime, date, string, other, same_type, Row, Types, lookup, insert, merge,
  type_of, add_cell, add_row, add_rows, column_types,
}

same_type_iff : (s t : ColumnType) → (same_type s t ≡ true) ↔ (s ≡ t)
same_type_iff float t = ground arith
same_type_iff datetime t = ground arith
same_type_iff date t = ground arith
same_type_iff string t = ground arith
same_type_iff (other s) (other t) = ground (arith, eq_iff s t)
same_type_iff (other s) float = ground arith
same_type_iff (other s) datetime = ground arith
same_type_iff (other s) date = ground arith
same_type_iff (other s) string = ground arith

lookup-insert :
    (k j : String) (t : ColumnType) (ts : Types)
    → lookup j (insert k t ts) ≡ (if str_eq k j then some t else lookup j ts)
unfolding lookup insert
lookup-insert k j t [] = refl
lookup-insert k j t ((i, u) ∷ ts) =
    ground (arith, eq_iff k j, eq_iff i k, eq_iff i j, lookup-insert k j t ts)

-- The types of the cells of column `k`, in the order of the rows; objects have none.
abbrev cons_type : Option ColumnType → List ColumnType → List ColumnType
cons_type none ts = ts
cons_type (some t) ts = t ∷ ts

module _ {Num Obj Moment : Type 0} where
  abbrev pub types_in_row : String → Row Num Obj Moment → List ColumnType
  types_in_row k [] = []
  types_in_row k ((j, v) ∷ row) =
      if str_eq j k then cons_type (type_of v) (types_in_row k row) else types_in_row k row

  abbrev pub types_in : String → List (Row Num Obj Moment) → List ColumnType
  types_in k [] = []
  types_in k (row ∷ rows) = types_in_row k row ++ types_in k rows

abbrev merges : Option ColumnType → List ColumnType → Option ColumnType
merges o [] = o
merges o (t ∷ ts) = merges (some (merge o t)) ts

merges-append :
    (o : Option ColumnType) (ss ts : List ColumnType)
    → merges o (ss ++ ts) ≡ merges (merges o ss) ts
merges-append o [] ts = refl
merges-append o (s ∷ ss) ts = merges-append (some (merge o s)) ss ts

lookup-add_cell :
    (k j : String) (o : Option ColumnType) (ts : Types)
    → lookup j (add_cell k o ts)
      ≡ (if str_eq k j then merges (lookup j ts) (cons_type o []) else lookup j ts)
unfolding add_cell
lookup-add_cell k j none ts = ground arith
lookup-add_cell k j (some t) ts =
    rw (lookup-insert k j (merge (lookup k ts) t) ts) (ground (arith, eq_iff k j))

merges-cons_type :
    (o : Option ColumnType) (t : Option ColumnType) (ts : List ColumnType)
    → merges (merges o (cons_type t [])) ts ≡ merges o (cons_type t ts)
merges-cons_type o none ts = refl
merges-cons_type o (some t) ts = refl

-- The type that all agree on, "string" if they do not.
abbrev pub agreed : List ColumnType → Option ColumnType
agreed [] = none
agreed (t ∷ ts) = some (if all (same_type t) ts then t else string)

merges-string : (ts : List ColumnType) → merges (some string) ts ≡ some string
unfolding merge
merges-string [] = refl
merges-string (t ∷ ts) = elim (Bool-cases (same_type string t)) [
  | inl e ↦ rw (e, ← (same_type_iff string t).0 e) (merges-string ts)
  | inr e ↦ rw e (merges-string ts)
]

merges-some :
    (t : ColumnType) (ts : List ColumnType)
    → merges (some t) ts ≡ some (if all (same_type t) ts then t else string)
unfolding merge
merges-some t [] = refl
merges-some t (u ∷ ts) = elim (Bool-cases (same_type t u)) [
  | inl e ↦ rw (e, ← (same_type_iff t u).0 e) (merges-some t ts)
  | inr e ↦ rw e (merges-string ts)
]

merges-agreed : (ts : List ColumnType) → merges none ts ≡ agreed ts
unfolding merge
merges-agreed [] = refl
merges-agreed (t ∷ ts) = merges-some t ts

module _ {Num Obj Moment : Type 0} where
  lookup-add_row :
      (k : String) (row : Row Num Obj Moment) (ts : Types)
      → lookup k (add_row row ts) ≡ merges (lookup k ts) (types_in_row k row)
  unfolding add_row
  lookup-add_row k [] ts = refl
  lookup-add_row k ((j, v) ∷ row) ts = elim (Bool-cases (str_eq j k)) [
    | inl e ↦
        rw (lookup-add_row k row (add_cell j (type_of v) ts), lookup-add_cell j k (type_of v) ts, e)
          (merges-cons_type (lookup k ts) (type_of v) (types_in_row k row))
    | inr e ↦
        rw (lookup-add_row k row (add_cell j (type_of v) ts), lookup-add_cell j k (type_of v) ts, e)
  ]

  lookup-add_rows :
      (k : String) (rows : List (Row Num Obj Moment)) (ts : Types)
      → lookup k (add_rows rows ts) ≡ merges (lookup k ts) (types_in k rows)
  unfolding add_rows
  lookup-add_rows k [] ts = refl
  lookup-add_rows k (row ∷ rows) ts = rw (
    lookup-add_rows k rows (add_row row ts),
    lookup-add_row k row ts,
    merges-append (lookup k ts) (types_in_row k row) (types_in k rows),
  )

  -- The loops give a column the type that all its cells agree on, objects left aside; "string" if two
  -- cells differ; none if it has no cell but objects.
  pub lookup-column_types :
      (k : String) (rows : List (Row Num Obj Moment))
      → lookup k (column_types rows) ≡ agreed (types_in k rows)
  unfolding column_types lookup
  lookup-column_types k rows = lookup-add_rows k rows [] ∙ merges-agreed (types_in k rows)
