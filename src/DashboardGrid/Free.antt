-- ===== src/DashboardGrid/Free.antt =====
-- dashboard.js: a new widget's place is free.
use mathlib.Core.List.{Mem, mem-cons, not-mem-nil}
use mathlib.Core.Logic.Or
use native.Mathlib.Bridge.{le_prop}
use mxzz_bi.Prelude.{
  ℕ, zero, suc, ◌+◌, ◌-◌, ◌≤◌, ◌<◌, max, ◌≡◌, refl, sym, ap, Bool, true, false, ◌&&◌, Option, none,
  some, List, [], ◌∷◌, length, take, drop, ltb, leb, if◌then◌else◌, Bool-cases, inl, inr, arith,
}
use mxzz_bi.Widget.Position.{columns}
use mxzz_bi.DashboardGrid.{
  Box, raise, bottom_line, zeros, max_of, row_at, range, better, top_most,
  calculate_new_widget_position,
}

abbrev pub nth : ℕ → List ℕ → ℕ
nth k [] = 0
nth zero (x ∷ xs) = x
nth (suc k) (x ∷ xs) = nth k xs

if_max-ge : (t : Bool) (x b : ℕ) → x ≤ (if t then max x b else x)
if_max-ge true x b = omega arith
if_max-ge false x b = omega arith

raise-ge : (k i : ℕ) (b : Box) (xs : List ℕ) → nth k xs ≤ nth k (raise i b xs)
unfolding raise
raise-ge k i b [] = omega arith
raise-ge zero i b (x ∷ xs) = if_max-ge (leb b.left i && ltb i b.right) x b.bottom
raise-ge (suc k) i b (x ∷ xs) = raise-ge k (suc i) b xs

inside : (l i r : ℕ) → l ≤ i → i < r → (leb l i && ltb i r) ≡ true
inside l i r h k = ground arith

raise_covers :
    (k i : ℕ) (b : Box) (xs : List ℕ)
    → k < length xs
    → b.left ≤ i + k
    → i + k < b.right
    → b.bottom ≤ nth k (raise i b xs)
unfolding raise
raise_covers k i b [] h l r = absurd (omega arith)
raise_covers zero i b (x ∷ xs) h l r =
    rw (inside b.left i b.right (omega arith) (omega arith)) (omega arith)
raise_covers (suc k) i b (x ∷ xs) h l r =
    raise_covers k (suc i) b xs (omega arith) (omega arith) (omega arith)

length-raise : (i : ℕ) (b : Box) (xs : List ℕ) → length (raise i b xs) ≡ length xs
unfolding raise
length-raise i b [] = refl
length-raise i b (x ∷ xs) = ap suc (length-raise (suc i) b xs)

bottom_line-ge : (k : ℕ) (bs : List Box) (line : List ℕ) → nth k line ≤ nth k (bottom_line bs line)
unfolding bottom_line
bottom_line-ge k [] line = omega arith
bottom_line-ge k (b ∷ bs) line =
    omega (arith, raise-ge k 0 b line, bottom_line-ge k bs (raise 0 b line))

bottom_line_covers :
    (k : ℕ) (bs : List Box) (line : List ℕ) (b : Box)
    → Mem b bs
    → k < length line
    → b.left ≤ k
    → k < b.right
    → b.bottom ≤ nth k (bottom_line bs line)
unfolding bottom_line
bottom_line_covers k [] line b m h l r = absurd (not-mem-nil m)
bottom_line_covers k (c ∷ bs) line b m h l r =
    Or.elim le_prop (mem-cons.0 m)
      (λ e. rw (sym e) (
        omega (
          arith,
          raise_covers k 0 b line h (omega arith) (omega arith),
          bottom_line-ge k bs (raise 0 b line),
        )))
      (λ n. bottom_line_covers k bs (raise 0 c line) b n (rw (length-raise 0 c line) h) l r)

nth-drop : (c k : ℕ) (xs : List ℕ) → nth k (drop c xs) ≡ nth (c + k) xs
nth-drop zero k xs = let e : zero + k ≡ k = omega arith in rw e
nth-drop (suc c) k [] = refl
nth-drop (suc c) k (x ∷ xs) =
    let e : suc c + k ≡ suc (c + k) = omega arith in rw e (nth-drop c k xs)

nth-max_of : (k w : ℕ) (xs : List ℕ) → k < w → nth k xs ≤ max_of (take w xs)
nth-max_of k w [] h = omega arith
nth-max_of k zero (x ∷ xs) h = absurd (omega arith)
nth-max_of zero (suc w) (x ∷ xs) h = omega arith
nth-max_of (suc k) (suc w) (x ∷ xs) h = omega (arith, nth-max_of k w xs (omega arith))

nth-row_at : (i w c : ℕ) (line : List ℕ) → c ≤ i → i < c + w → nth i line ≤ row_at w line c
nth-row_at i w c line h k =
    let e : c + w - c ≡ w = omega arith in
    let f : c + (i - c) ≡ i = omega arith in
    let g = nth-max_of (i - c) w (drop c line) (omega arith) in
    rw (e, sym f, sym (nth-drop c (i - c) line)) g

-- The row that comes with the column is that column's row.
abbrev IsRowOf : (row : ℕ → ℕ) → Option (ℕ × ℕ) → Type 0
IsRowOf row none = Unit {0}
IsRowOf row (some (c, r)) = r ≡ row c

if-IsRowOf :
    (row : ℕ → ℕ) (t : Bool) (a b : ℕ × ℕ)
    → IsRowOf row (some a)
    → IsRowOf row (some b)
    → IsRowOf row (if t then some a else some b)
if-IsRowOf row true a b h k = h
if-IsRowOf row false a b h k = k

better-IsRowOf :
    (row : ℕ → ℕ) (c : ℕ) (o : Option (ℕ × ℕ)) → IsRowOf row o → IsRowOf row (better row c o)
better-IsRowOf row c none h = refl
better-IsRowOf row c (some (d, r)) h = if-IsRowOf row (leb (row c) r) (c, row c) (d, r) refl h

top_most-IsRowOf : (row : ℕ → ℕ) (cs : List ℕ) → IsRowOf row (top_most row cs)
unfolding top_most
top_most-IsRowOf row [] = tt
top_most-IsRowOf row (c ∷ cs) = better-IsRowOf row c (top_most row cs) (top_most-IsRowOf row cs)

row_of-IsRowOf :
    (row : ℕ → ℕ) (o : Option (ℕ × ℕ)) (c r : ℕ) → IsRowOf row o → o ≡ some (c, r) → r ≡ row c
row_of-IsRowOf row o c r h e = coe 0 1 (k. IsRowOf row (e k)) h

-- No widget that is there reaches, in a column of the grid that the new widget takes, below the row
-- where the new widget starts.
pub calculate_new_widget_position_free :
    (items : List Box) (width col row : ℕ) (b : Box) (i : ℕ)
    → calculate_new_widget_position items width ≡ some (col, row)
    → Mem b items
    → i < columns
    → col ≤ i
    → i < col + width
    → b.left ≤ i
    → i < b.right
    → b.bottom ≤ row
unfolding calculate_new_widget_position
calculate_new_widget_position_free items width col row b i h m k c d l r =
    let line = bottom_line items (zeros columns) in
    let place = row_at width line in
    let tried = range 0 (columns - width + 1) in
    let e = row_of-IsRowOf place (top_most place tried) col row (top_most-IsRowOf place tried) h in
    rw e (
      omega (
        arith,
        bottom_line_covers i items (zeros columns) b m k l r,
        nth-row_at i width col line c d,
      ))

better_found : (row : ℕ → ℕ) (c : ℕ) (o : Option (ℕ × ℕ)) → (p : ℕ × ℕ) × (better row c o ≡ some p)
better_found row c none = ((c, row c), refl)
better_found row c (some (d, r)) = elim (Bool-cases (leb (row c) r)) [
  | inl e ↦ ((c, row c), rw e)
  | inr e ↦ ((d, r), rw e)
]

-- A widget that is no wider than the grid is given a place.
calculate_new_widget_position_found :
    (items : List Box) (width : ℕ)
    → width ≤ columns
    → (p : ℕ × ℕ) × (calculate_new_widget_position items width ≡ some p)
unfolding calculate_new_widget_position
calculate_new_widget_position_found items width h =
    let e : columns - width + 1 ≡ suc (columns - width) = omega arith in
    let place = row_at width (bottom_line items (zeros columns)) in
    rw e (unfold top_most in better_found place 0 (top_most place (range 1 (columns - width))))
