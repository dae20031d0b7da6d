-- ===== src/DashboardGrid/Apart.antt =====
-- dashboard.js: the rows of a loaded dashboard do not overlap.
use mathlib.Core.List.{Mem, mem-cons, not-mem-nil}
use mathlib.Core.Logic.Or
use native.Mathlib.Bridge.{le_prop}
use mxzz_bi.Prelude.{
  ℕ, ◌+◌, ◌≤◌, ◌<◌, max, ◌≡◌, refl, ap, ◌⊎◌, inl, inr, Bool, true, false, Option, none, some, List,
  [], ◌∷◌, map, if◌then◌else◌, Bool-cases, arith,
}
use mxzz_bi.DashboardGrid.{max_of}
use mxzz_bi.DashboardGrid.Layout.{
  Placed, default_widget_size_y, height_of, move_to, in_group, next, place,
  prepare_widgets_for_dashboard,
}

-- What a widget may take: the default height when it grows by itself.
abbrev pub extent : (default_size : ℕ) → Placed → ℕ
extent d w = if w.auto_height then max d w.size_y else w.size_y

-- A widget with a height, or one that grows by itself.
abbrev pub HasHeight : Placed → Type 0
HasHeight w = w.auto_height ≡ false → 1 ≤ w.size_y

extent-move_to :
    (d row : ℕ) (w : Placed)
    → w.size_y ≤ d
    → HasHeight w
    → extent d (move_to d row w) ≤ height_of d w
extent-move_to d row w h tall = elim (Bool-cases w.auto_height) [
  | inl a ↦ ground arith
  | inr a ↦ let k = tall a in ground arith
]

-- A group goes on in its row, or starts below it.
Goes : (row h row' h' : ℕ) → Type 0
Goes row h row' h' = ((row' ≡ row) × (h ≤ h')) ⊎ ((row + h ≤ row') × (1 ≤ h'))

next-Goes :
    (d row : ℕ) (g : Option ℕ) (h : ℕ) (w : Placed)
    → Goes row h (next d row g h w).0 (next d row g h w).1
unfolding Goes
next-Goes d row g h w = go (in_group g w.row)
  where
    x : ℕ
    x = height_of d w

    go :
        (b : Bool)
        → (let p : ℕ × ℕ = if b then (row, max h x) else (row + h, max 1 x) in Goes row h p.0 p.1)
    go true = inl (refl, omega arith)
    go false = inr (omega arith, omega arith)

height-next : (d row : ℕ) (g : Option ℕ) (h : ℕ) (w : Placed) → height_of d w ≤ (next d row g h w).1
height-next d row g h w = go (in_group g w.row)
  where
    x : ℕ
    x = height_of d w

    go : (b : Bool) → (let p : ℕ × ℕ = if b then (row, max h x) else (row + h, max 1 x) in x ≤ p.1)
    go true = omega arith
    go false = omega arith

Goes-ge : (row h row' h' r : ℕ) → Goes row h row' h' → row' ≤ r → row ≤ r
unfolding Goes
Goes-ge row h row' h' r (inl (e, k)) l = omega arith
Goes-ge row h row' h' r (inr (e, k)) l = omega arith

below-Goes :
    (row h row' h' r : ℕ)
    → Goes row h row' h'
    → row' ≤ r
    → (row' < r → row' + h' ≤ r)
    → row < r
    → row + h ≤ r
unfolding Goes
below-Goes row h row' h' r (inl (e, k)) l f m = let n = f (omega arith) in omega arith
below-Goes row h row' h' r (inr (e, k)) l f m = omega arith

-- Of the widgets that follow, each is in the row of the group begun or below the group.
place-ge :
    (d row : ℕ) (g : Option ℕ) (h : ℕ) (ws : List Placed) (v : Placed)
    → Mem v (place d row g h ws)
    → row ≤ v.row
unfolding place
place-ge d row g h [] v m = absurd (not-mem-nil m)
place-ge d row g h (w ∷ ws) v m =
    let p = next d row g h w in
    Goes-ge row h p.0 p.1 v.row (next-Goes d row g h w) (
      Or.elim le_prop (mem-cons.0 m) (λ e. rw (ap (λ u. u.row) e) (omega arith))
        (λ n. place-ge d p.0 (some w.row) p.1 ws v n))

place_below :
    (d row : ℕ) (g : Option ℕ) (h : ℕ) (ws : List Placed) (v : Placed)
    → Mem v (place d row g h ws)
    → row < v.row
    → row + h ≤ v.row
unfolding place
place_below d row g h [] v m l = absurd (not-mem-nil m)
place_below d row g h (w ∷ ws) v m l =
    let p = next d row g h w in
    let go = next-Goes d row g h w in
    Or.elim le_prop (mem-cons.0 m)
      (λ e.
        let q : v.row ≡ p.0 = ap (λ u. u.row) e in
        below-Goes row h p.0 p.1 v.row go (omega arith) (λ k. absurd (omega arith)) l)
      (λ n.
        below-Goes row h p.0 p.1 v.row go (place-ge d p.0 (some w.row) p.1 ws v n)
          (place_below d p.0 (some w.row) p.1 ws v n) l)

-- No widget is higher than the default, and each has a height.
abbrev Fits : ℕ → List Placed → Type 0
Fits d [] = Unit {0}
Fits d (w ∷ ws) = (w.size_y ≤ d) × HasHeight w × Fits d ws

place_apart :
    (d row : ℕ) (g : Option ℕ) (h : ℕ) (ws : List Placed) (u v : Placed)
    → Fits d ws
    → Mem u (place d row g h ws)
    → Mem v (place d row g h ws)
    → u.row < v.row
    → u.row + extent d u ≤ v.row
unfolding place
place_apart d row g h [] u v f m n l = absurd (not-mem-nil m)
place_apart d row g h (w ∷ ws) u v (s, t, f) m n l =
    let p = next d row g h w in
    let x : Placed = move_to d p.0 w in
    let tall : extent d x ≤ p.1 =
      omega (arith, extent-move_to d p.0 w s t, height-next d row g h w) in
    Or.elim le_prop (mem-cons.0 m)
      (λ e.
        let q : u.row ≡ p.0 = ap (λ u. u.row) e in
        let y : extent d u ≡ extent d x = ap (extent d) e in
        Or.elim le_prop (mem-cons.0 n)
          (λ e'. let q' : v.row ≡ p.0 = ap (λ u. u.row) e' in absurd (omega arith))
          (λ n'. omega (arith, place_below d p.0 (some w.row) p.1 ws v n' (omega arith))))
      (λ m'.
        let k = place-ge d p.0 (some w.row) p.1 ws u m' in
        Or.elim le_prop (mem-cons.0 n)
          (λ e'. let q' : v.row ≡ p.0 = ap (λ u. u.row) e' in absurd (omega arith))
          (λ n'. place_apart d p.0 (some w.row) p.1 ws u v f m' n' l))

max_of-ge : (ws : List Placed) (w : Placed) → Mem w ws → w.size_y ≤ max_of (map (λ v. v.size_y) ws)
max_of-ge [] w m = absurd (not-mem-nil m)
max_of-ge (v ∷ ws) w m =
    Or.elim le_prop (mem-cons.0 m)
      (λ e. let q : w.size_y ≡ v.size_y = ap (λ u. u.size_y) e in omega arith)
      (λ n. omega (arith, max_of-ge ws w n))

all_Fits :
    (d : ℕ) (ws : List Placed)
    → ((w : Placed) → Mem w ws → (w.size_y ≤ d) × HasHeight w)
    → Fits d ws
all_Fits d [] f = tt
all_Fits d (w ∷ ws) f =
    let (s, t) = f w (mem-cons.1 (Or.inl refl)) in
    (s, t, all_Fits d ws (λ v m. f v (mem-cons.1 (Or.inr m))))

-- `sortBy` only moves the widgets of a list.
pub record KeepsItems (sort_by : (Placed → ℕ) → List Placed → List Placed) : Type 0 where
  pub keeps : (f : Placed → ℕ) (ws : List Placed) (v : Placed) → Mem v (sort_by f ws) → Mem v ws

-- When each widget has a height or grows by itself, a widget of the prepared dashboard ends, even when
-- it grows to the default height, above each widget that starts in a lower row.
pub prepare_widgets_apart :
    (sort_by : (Placed → ℕ) → List Placed → List Placed) (law : KeepsItems sort_by)
    (ws : List Placed) (u v : Placed)
    → ((w : Placed) → Mem w ws → HasHeight w)
    → Mem u (prepare_widgets_for_dashboard sort_by ws)
    → Mem v (prepare_widgets_for_dashboard sort_by ws)
    → u.row < v.row
    → u.row + extent (default_widget_size_y ws) u ≤ v.row
unfolding prepare_widgets_for_dashboard
prepare_widgets_apart sort_by law ws u v tall m n l =
    let d = default_widget_size_y ws in
    let sorted = sort_by (λ w. w.row) ws in
    let placed = place d 0 none 0 sorted in
    let back : (x : Placed) → Mem x (prepare_widgets_for_dashboard sort_by ws) → Mem x placed =
      λ x k. law.keeps (λ w. w.col) placed x (law.keeps (λ w. w.row) _ x k) in
    let fits : Fits d sorted = all_Fits d sorted (λ w k.
      let o = law.keeps (λ w. w.row) ws w k in (omega (arith, max_of-ge ws w o), tall w o)) in
    place_apart d 0 none 0 sorted u v fits (back u m) (back v n) l
