-- ===== src/DashboardGrid/SortTests.antt =====
-- The theorem of a dashboard's rows at a concrete dashboard, sorted by insertion.
use mathlib.Core.List.{Mem, Mem-prop, mem-cons, mem-cons_of_mem, mem-cons_self, not-mem-nil}
use mathlib.Core.Logic.Or
use native.Mathlib.Bridge.{le_prop}
use mxzz_bi.Prelude.{
  ℕ, ◌+◌, ◌≤◌, ◌≡◌, refl, ap, Bool, true, false, List, [], ◌∷◌, leb, if◌then◌else◌, arith,
}
use mxzz_bi.DashboardGrid.Layout.{Placed, place, prepare_widgets_for_dashboard}
use mxzz_bi.DashboardGrid.Apart.{extent, HasHeight, KeepsItems, prepare_widgets_apart}

insert : (Placed → ℕ) → Placed → List Placed → List Placed
insert f w [] = w ∷ []
insert f w (v ∷ ws) = let rest = insert f w ws in if leb (f w) (f v) then w ∷ v ∷ ws else v ∷ rest

insert_sort : (Placed → ℕ) → List Placed → List Placed
unfolding insert
insert_sort f [] = []
insert_sort f (w ∷ ws) = insert f w (insert_sort f ws)

skip : (w x v : Placed) (ws : List Placed) → Mem v (w ∷ ws) → Mem v (w ∷ x ∷ ws)
skip w x v ws m =
    Or.elim Mem-prop (mem-cons.0 m) (λ e. mem-cons.1 (Or.inl e))
      (λ n. mem-cons_of_mem w (mem-cons_of_mem x n))

insert_if :
    (w x v : Placed) (ws rest : List Placed) (b : Bool)
    → (Mem v rest → Mem v (w ∷ ws))
    → Mem v (if b then w ∷ x ∷ ws else x ∷ rest)
    → Mem v (w ∷ x ∷ ws)
insert_if w x v ws rest true f m = m
insert_if w x v ws rest false f m =
    Or.elim Mem-prop (mem-cons.0 m) (λ e. mem-cons_of_mem w (mem-cons.1 (Or.inl e)))
      (λ n. skip w x v ws (f n))

Mem-insert :
    (f : Placed → ℕ) (w : Placed) (ws : List Placed) (v : Placed)
    → Mem v (insert f w ws)
    → Mem v (w ∷ ws)
unfolding insert
Mem-insert f w [] v m = m
Mem-insert f w (x ∷ ws) v m =
    insert_if w x v ws (insert f w ws) (leb (f w) (f x)) (Mem-insert f w ws v) m

Mem-insert_sort :
    (f : Placed → ℕ) (ws : List Placed) (v : Placed) → Mem v (insert_sort f ws) → Mem v ws
unfolding insert_sort
Mem-insert_sort f [] v m = m
Mem-insert_sort f (w ∷ ws) v m =
    Or.elim Mem-prop (mem-cons.0 (Mem-insert f w (insert_sort f ws) v m))
      (λ e. mem-cons.1 (Or.inl e)) (λ n. mem-cons_of_mem w (Mem-insert_sort f ws v n))

insert_sort-KeepsItems : KeepsItems insert_sort
insert_sort-KeepsItems = record { keeps = Mem-insert_sort }

abbrev placed : (id row size_y : ℕ) → Bool → Placed
placed id row size_y auto = record {
  id = id;
  col = 0;
  row = row;
  size_y = size_y;
  auto_height = auto;
}

-- One that grows by itself, above one of three rows.
abbrev two : List Placed
two = placed 2 4 3 false ∷ placed 1 0 2 true ∷ []

two-HasHeight : (w : Placed) → Mem w two → HasHeight w
two-HasHeight w m a =
    Or.elim le_prop (mem-cons.0 m) (λ e. let q : w.size_y ≡ 3 = ap (λ u. u.size_y) e in omega arith)
      (λ n.
        Or.elim le_prop (mem-cons.0 n)
          (λ e. let q : w.size_y ≡ 2 = ap (λ u. u.size_y) e in omega arith)
          (λ o. absurd (not-mem-nil o)))

prepare_widgets_apart_example : 0 + extent 25 (placed 1 0 2 true) ≤ 25
unfolding prepare_widgets_for_dashboard place insert insert_sort
prepare_widgets_apart_example =
    prepare_widgets_apart insert_sort insert_sort-KeepsItems two (placed 1 0 2 true)
      (placed 2 25 3 false) two-HasHeight mem-cons_self (mem-cons_of_mem _ mem-cons_self)
      (omega arith)

-- A row of height 0 is taken to be 1 high, and then becomes 25 high, over the row below it.
flat_row_overlaps :
    prepare_widgets_for_dashboard insert_sort (placed 1 0 0 false ∷ placed 2 1 3 false ∷ [])
    ≡ placed 1 0 25 false ∷ placed 2 1 3 false ∷ []
unfolding prepare_widgets_for_dashboard place insert insert_sort
flat_row_overlaps = refl
