-- ===== src/Charts/Cohort/Placed.antt =====
-- viz-lib/src/visualizations/cohort/prepareData.js: the places of a cohort's rows, and their lengths.
use mxzz_bi.Prelude.{
  ℕ, zero, suc, ◌+◌, ◌-◌, ◌≤◌, ◌<◌, String, ◌≡◌, refl, sym, ap, ◌∙◌, Option, none, some, List, [],
  ◌∷◌, ◌++◌, map, get_elem?, arith, ℤ, pos, neg,
}
use mxzz_bi.Charts.Cohort.Stages.{
  size_neg, count-lower_by, span-plus, lower-lower_by, lower_by_add, get_elem?-repeat,
}
use mxzz_bi.Charts.Cohort.{
  Cells, Calendar, Item, Group, Shown, number, Options, moment_interval, min_of, max_of, plus,
  count, or_none, values_from, lower, lower_by, group_data, distance, simple_row, stage_values,
  simple_rows, prepare_simple_data, diagonal_row, missing_rows, diagonal_rows, last_date,
  prepare_diagonal_data, diagonal_of,
}

get_elem?-missing_rows :
    {Row Cell Number Moment : Type 0} (cells : Cells Row Cell Number) (cal : Calendar Cell Moment)
    (n k : ℕ) (first last : Option ℤ) (g : Group Moment) (rs : List (List Shown))
    → get_elem? (missing_rows cells cal n first last g ++ rs) (n + k) ≡ get_elem? rs k
unfolding missing_rows
get_elem?-missing_rows cells cal zero k first last g rs =
    let e : zero + k ≡ k = omega arith in rw e refl
get_elem?-missing_rows cells cal (suc n) k first last g rs =
    let e : suc n + k ≡ suc (n + k) = omega arith in
    rw e (get_elem?-missing_rows cells cal n k first (lower last) g rs)

-- In a unit, moments are as far apart as their numbers.
pub record CountsUnit {Cell Moment : Type 0} (cal : Calendar Cell Moment) (unit : Option String)
    (number_of : Moment → ℕ) : Type 0 where
  pub later :
      (a b : Moment)
      → number_of a ≤ number_of b
      → cal.diff unit b a ≡ some (pos (number_of b - number_of a))
  pub earlier :
      (a b : Moment)
      → number_of a ≤ number_of b
      → cal.diff unit a b ≡ some (neg (number_of b - number_of a))

module _ {Row Cell Number Moment : Type 0} (cells : Cells Row Cell Number)
    (cal : Calendar Cell Moment) (number_of : Moment → ℕ) where
  abbrev pub Above : ℕ → List (Group Moment) → Type 0
  Above n [] = Unit {0}
  Above n (g ∷ gs) = (n < number_of g.date) × Above (number_of g.date) gs

  -- Each group is later than the one before it.
  abbrev pub Ascending : List (Group Moment) → Type 0
  Ascending [] = Unit {0}
  Ascending (g ∷ gs) = Above (number_of g.date) gs

  -- How many intervals a group is later than the first one.
  abbrev pub since_first : List (Group Moment) → Group Moment → ℕ
  since_first [] g = 0
  since_first (h ∷ hs) g = number_of g.date - number_of h.date

  below-Above :
      (n : ℕ) (pre : List (Group Moment)) (g : Group Moment) (post : List (Group Moment))
      → Above n (pre ++ g ∷ post)
      → n < number_of g.date
  below-Above n [] g post h = h.0
  below-Above n (p ∷ pre) g post h =
      let k = below-Above (number_of p.date) pre g post h.1 in omega (arith, h.0)

  module _ (unit : Option String) (counts : CountsUnit cal unit number_of) (first : Option ℤ) where
    distance_counted :
        (p : Moment) (g : Group Moment)
        → number_of p < number_of g.date
        → distance cells cal unit (some p) g ≡ number_of g.date - number_of p
    distance_counted p g h =
        let e = counts.earlier p g.date (omega (arith, h)) in
        rw e (size_neg (number_of g.date - number_of p))

    simple_after :
        (last : Option ℤ) (p : Moment) (pre : List (Group Moment)) (g : Group Moment)
        (post : List (Group Moment))
        → Above (number_of p) (pre ++ g ∷ post)
        → get_elem?
            (simple_rows cells cal unit first last (some p) (pre ++ g ∷ post))
            (number_of g.date - suc (number_of p))
          ≡ some (simple_row cells cal first last g)
    unfolding simple_rows
    simple_after last p [] g post h =
        let d = distance_counted p g h.0 in
        let e : number_of g.date - suc (number_of p) ≡ (number_of g.date - number_of p - 1) + 0 =
          omega arith in
        rw (d, e)
          (get_elem?-repeat (number_of g.date - number_of p - 1) 0 (number (pos 0) ∷ []) (
            simple_row cells cal first last g
            ∷ simple_rows cells cal unit first last (some g.date) post))
    simple_after last p (q ∷ pre) g post h =
        let d = distance_counted p q h.0 in
        let b = below-Above (number_of q.date) pre g post h.1 in
        let e : number_of g.date - suc (number_of p)
            ≡ (number_of q.date - number_of p - 1)
              + suc (number_of g.date - suc (number_of q.date)) =
          omega (arith, h.0, b) in
        rw (d, e)
          (get_elem?-repeat (number_of q.date - number_of p - 1)
              (suc (number_of g.date - suc (number_of q.date))) (number (pos 0) ∷ [])
              (simple_row cells cal first last q
                ∷ simple_rows cells cal unit first last (some q.date) (pre ++ g ∷ post))
            ∙ simple_after last q.date pre g post h.1)

    diagonal_after :
        (last : Option ℤ) (p : Moment) (pre : List (Group Moment)) (g : Group Moment)
        (post : List (Group Moment))
        → Above (number_of p) (pre ++ g ∷ post)
        → get_elem?
            (diagonal_rows cells cal unit first last (some p) (pre ++ g ∷ post))
            (number_of g.date - suc (number_of p))
          ≡ some (
              diagonal_row cells cal g.total first
                (lower_by (number_of g.date - suc (number_of p)) last)
                g)
    unfolding diagonal_rows
    diagonal_after last p [] g post h =
        let n = number_of g.date - suc (number_of p) in
        let d : distance cells cal unit (some p) g - 1 ≡ n =
          omega (arith, distance_counted p g h.0) in
        let e : n ≡ n + 0 = omega arith in
        let row = diagonal_row cells cal g.total first (lower_by n last) g in
        let rest =
          diagonal_rows cells cal unit first (lower (lower_by n last)) (some g.date) post in
        rw d (
          ap (λ i. get_elem? (missing_rows cells cal n first last g ++ row ∷ rest) i) e
          ∙ get_elem?-missing_rows cells cal n 0 first last g (row ∷ rest))
    diagonal_after last p (q ∷ pre) g post h =
        let n = number_of q.date - suc (number_of p) in
        let k = number_of g.date - suc (number_of q.date) in
        let d : distance cells cal unit (some p) q - 1 ≡ n =
          omega (arith, distance_counted p q h.0) in
        let b = below-Above (number_of q.date) pre g post h.1 in
        let e : number_of g.date - suc (number_of p) ≡ n + suc k = omega (arith, h.0, b) in
        let below = lower (lower_by n last) in
        let row = diagonal_row cells cal q.total first (lower_by n last) q in
        let rest = diagonal_rows cells cal unit first below (some q.date) (pre ++ g ∷ post) in
        let l : lower_by k below ≡ lower_by (n + suc k) last =
          ap (lower_by k) (lower-lower_by n last)
          ∙ lower_by_add n k (lower last)
          ∙ (let m : n + suc k ≡ suc (n + k) = omega arith in rw m refl) in
        rw d (
          ap (λ i. get_elem? (missing_rows cells cal n first last q ++ row ∷ rest) i) e
          ∙ get_elem?-missing_rows cells cal n (suc k) first last q (row ∷ rest)
          ∙ diagonal_after below q.date pre g post h.1
          ∙ ap (λ x. some (diagonal_row cells cal g.total first x g))
              (l ∙ ap (λ i. lower_by i last) (sym e)))

    simple_at :
        (last : Option ℤ) (pre : List (Group Moment)) (g : Group Moment)
        (post : List (Group Moment))
        → Ascending (pre ++ g ∷ post)
        → get_elem?
            (simple_rows cells cal unit first last none (pre ++ g ∷ post))
            (since_first (pre ++ g ∷ post) g)
          ≡ some (simple_row cells cal first last g)
    unfolding simple_rows
    simple_at last [] g post h =
        let e : number_of g.date - number_of g.date ≡ 0 = omega arith in rw e refl
    simple_at last (q ∷ pre) g post h =
        let b = below-Above (number_of q.date) pre g post h in
        let e : number_of g.date - number_of q.date
            ≡ suc (number_of g.date - suc (number_of q.date)) =
          omega (arith, b) in
        rw e (simple_after last q.date pre g post h)

    diagonal_at :
        (last : Option ℤ) (pre : List (Group Moment)) (g : Group Moment)
        (post : List (Group Moment))
        → Ascending (pre ++ g ∷ post)
        → get_elem?
            (diagonal_rows cells cal unit first last none (pre ++ g ∷ post))
            (since_first (pre ++ g ∷ post) g)
          ≡ some (
              diagonal_row cells cal g.total first
                (lower_by (since_first (pre ++ g ∷ post) g) last)
                g)
    unfolding diagonal_rows missing_rows
    diagonal_at last [] g post h =
        let e : number_of g.date - number_of g.date ≡ 0 = omega arith in rw e refl
    diagonal_at last (q ∷ pre) g post h =
        let b = below-Above (number_of q.date) pre g post h in
        let e : number_of g.date - number_of q.date
            ≡ suc (number_of g.date - suc (number_of q.date)) =
          omega (arith, b) in
        rw e (diagonal_after (lower last) q.date pre g post h)

    up_to_last :
        (d : Moment) (gs : List (Group Moment))
        → Above (number_of d) gs
        → number_of d ≤ number_of (last_date cells cal d gs)
    up_to_last d [] h = omega arith
    up_to_last d (g ∷ gs) h = let k = up_to_last g.date gs h.1 in omega (arith, h.0, k)

  -- How many intervals the last group is later than the first one.
  abbrev pub intervals : List (Group Moment) → ℕ
  intervals [] = 0
  intervals (g ∷ gs) = number_of (last_date cells cal g.date gs) - number_of g.date

  -- In the simple mode, when the dates of the groups are in order and the calendar counts in the unit,
  -- the row of a date, with its total and a value for each stage, stands as many places below the
  -- first row as the date is intervals later than the first one.
  pub prepare_simple_data_placed :
      (options : Options) (items : List (Item Cell Number)) (pre : List (Group Moment))
      (g : Group Moment) (post : List (Group Moment))
      → CountsUnit cal (moment_interval options.time_interval) number_of
      → group_data cells cal items ≡ pre ++ g ∷ post
      → Ascending (pre ++ g ∷ post)
      → get_elem? (prepare_simple_data cells cal items options) (since_first (pre ++ g ∷ post) g)
        ≡ some (
            number g.total
            ∷ stage_values
                (λ v. v)
                g.values
                (min_of (map (λ i. i.stage) items))
                (max_of (map (λ i. i.stage) items)))
  unfolding prepare_simple_data
  prepare_simple_data_placed options items pre g post counts e h = rw e (
      simple_at (moment_interval options.time_interval) counts (min_of (map (λ i. i.stage) items))
        (max_of (map (λ i. i.stage) items)) pre g post h)

  diagonal_of-rows :
      (unit : Option String)
      → CountsUnit cal unit number_of
      → (f : ℤ) (gs : List (Group Moment)) → Ascending gs
      → diagonal_of cells cal unit (some f) gs
        ≡ diagonal_rows cells cal unit (some f) (some (plus f (pos (intervals gs)))) none gs
  unfolding diagonal_rows
  diagonal_of-rows unit counts f [] h = refl
  diagonal_of-rows unit counts f (g ∷ gs) h =
      let l = up_to_last unit counts (some f) g.date gs h in
      rw (counts.later g.date (last_date cells cal g.date gs) l) refl

  -- In the diagonal mode, under the same conditions and when some stage is a number, the row stands at the same place, and it has one
  -- value less for each interval: the number of intervals and one in the first row, one in the last.
  pub prepare_diagonal_data_placed :
      (options : Options) (items : List (Item Cell Number)) (f : ℤ) (pre : List (Group Moment))
      (g : Group Moment) (post : List (Group Moment))
      → CountsUnit cal (moment_interval options.time_interval) number_of
      → min_of (map (λ i. i.stage) items) ≡ some f
      → group_data cells cal items ≡ pre ++ g ∷ post
      → Ascending (pre ++ g ∷ post)
      → get_elem? (prepare_diagonal_data cells cal items options) (since_first (pre ++ g ∷ post) g)
        ≡ some (
            number g.total
            ∷ values_from or_none g.values f
                (suc (intervals (pre ++ g ∷ post)) - since_first (pre ++ g ∷ post) g))
  unfolding prepare_diagonal_data
  prepare_diagonal_data_placed options items f pre g post counts m e h =
      let unit = moment_interval options.time_interval in
      let gs = pre ++ g ∷ post in
      let last = plus f (pos (intervals gs)) in
      let k = since_first gs g in
      let c : count (some f) (lower_by k (some last)) ≡ suc (intervals gs) - k =
        count-lower_by f last k ∙ ap (λ n. n - k) (span-plus f (intervals gs)) in
      rw (m, e)
        (ap (λ rows. get_elem? rows k) (diagonal_of-rows unit counts f gs h)
          ∙ diagonal_at unit counts (some f) (some last) pre g post h
          ∙ ap (λ n. some (number g.total ∷ values_from or_none g.values f n)) c)
