-- ===== src/Location/Updated.antt =====
-- location.js: what `update` keeps and what it replaces.
use mxzz_bi.Prelude.{
  String, ◌≡◌, refl, sym, ap, ◌∙◌, true, false, not, Option, none, some, List, [], ◌∷◌, filter,
  str_eq, eq_iff, if◌then◌else◌, Bool-cases, inl, inr,
}
use mxzz_bi.Location.{
  SearchValue, Search, Qs, Location, entries, value_at, set_entry, merge_search, search_text,
  update, set_search,
}

-- The value that is set last for a key, or else the one there was.
abbrev pub overridden :
    String → List (String × Option SearchValue) → Option SearchValue → Option SearchValue
overridden key [] old = old
overridden key ((k, v) ∷ es) old = overridden key es (if str_eq key k then v else old)

str_eq_sym : (a b : String) → str_eq a b ≡ true → str_eq b a ≡ true
str_eq_sym a b h = (eq_iff b a).1 (sym ((eq_iff a b).0 h))

value_at_removed :
    (key k : String) (s : Search)
    → value_at key (filter (λ e. not (str_eq e.0 k)) s)
      ≡ (if str_eq key k then none else value_at key s)
value_at_removed key k [] = elim (Bool-cases (str_eq key k)) [ inl e ↦ rw e | inr e ↦ rw e ]
value_at_removed key k ((j, v) ∷ s) = elim (Bool-cases (str_eq j k)) [
  | inl e ↦ elim (Bool-cases (str_eq key k)) [
    | inl f ↦ rw e (value_at_removed key k s ∙ rw f)
    | inr f ↦
        let g : str_eq key j ≡ false = rw ((eq_iff j k).0 e) f in
        rw e (value_at_removed key k s ∙ rw (f, g))
  ]
  | inr e ↦ elim (Bool-cases (str_eq key j)) [
    | inl f ↦ let g : str_eq key k ≡ false = rw ((eq_iff key j).0 f) e in rw (e, f, g)
    | inr f ↦ rw (e, f) (value_at_removed key k s)
  ]
]

value_at-set_entry :
    (key k : String) (v : Option SearchValue) (s : Search)
    → value_at key (set_entry k v s) ≡ (if str_eq key k then v else value_at key s)
unfolding set_entry
value_at-set_entry key k none s = value_at_removed key k s
value_at-set_entry key k (some v) [] = refl
value_at-set_entry key k (some v) ((j, w) ∷ s) = elim (Bool-cases (str_eq k j)) [
  | inl e ↦
      let q = (eq_iff k j).0 e in
      elim (Bool-cases (str_eq key j)) [
        | inl f ↦ let g : str_eq key k ≡ true = rw q f in rw (e, f, g)
        | inr f ↦ let g : str_eq key k ≡ false = rw q f in rw (e, f, g)
      ]
  | inr e ↦ elim (Bool-cases (str_eq key j)) [
    | inl f ↦ elim (Bool-cases (str_eq key k)) [
      | inl g ↦ let x : str_eq k j ≡ true = rw (sym ((eq_iff key k).0 g)) f in cc
      | inr g ↦ rw (e, f, g)
    ]
    | inr f ↦ rw (e, f) (value_at-set_entry key k (some v) s)
  ]
]

pub value_at-merge_search :
    (key : String) (es : List (String × Option SearchValue)) (s : Search)
    → value_at key (merge_search es s) ≡ overridden key es (value_at key s)
unfolding merge_search
value_at-merge_search key [] s = refl
value_at-merge_search key ((k, v) ∷ es) s =
    value_at-merge_search key es (set_entry k v s)
    ∙ ap (overridden key es) (value_at-set_entry key k v s)

-- When query-string reads back what it writes of the new search: setting a search keeps the path, and
-- of the search every key that is not set; a key that is set to nil is gone, and any other one has
-- the value that it is set to.
value_at-set_search :
    (qs : Qs) (es : List (String × Option SearchValue)) (l : Location) (key : String)
    → qs.parse (qs.stringify (merge_search es l.search)) ≡ merge_search es l.search
    → ((set_search qs (entries es) l).path ≡ l.path)
      × (value_at key (set_search qs (entries es) l).search
          ≡ overridden key es (value_at key l.search))
unfolding update search_text
value_at-set_search qs es l key h = (refl, rw h (value_at-merge_search key es l.search))
