-- ===== src/Parameters/Pending.antt =====
-- Parameter.js: the pending value and the values that reach the locals.
-- `is_equal` is lodash's `isEqual`.
use mxzz_bi.Prelude.{◌≡◌, refl, ap, ap₂, Bool, not, ◌&&◌, List, [], ◌∷◌, ◌++◌, if◌then◌else◌}
use mxzz_bi.Parameters.Normalize.{Value, undefined, Env, normalize}
use mxzz_bi.Parameters.Object.{
  Parameter, Node, node, Locals, no_locals, with_local, assign, set_value, update_locals,
  is_undefined,
}

module _ {Num Moment : Type 0} (env : Env Num Moment) where
  abbrev pub set_pending_value : Value Num Moment → Node Num Moment → Node Num Moment
  set_pending_value v (node p ls) = node (record p { pending_value = normalize env p.kind v }) ls

  abbrev pub clear_pending_value : Node Num Moment → Node Num Moment
  clear_pending_value (node p ls) = node (record p { pending_value = undefined }) ls

  module _ (is_equal : Value Num Moment → Value Num Moment → Bool) where
    unfoldable pub has_pending_value : Parameter Num Moment → Bool
    has_pending_value p =
        not (is_undefined p.pending_value) && not (is_equal p.pending_value p.normalized_value)

    unfoldable pub apply_pending_value : Node Num Moment → Node Num Moment
    apply_pending_value (node p ls) =
        if has_pending_value p then set_value env p.pending_value (node p ls) else node p ls

  abbrev mutual
    pub values_of : Node Num Moment → List (Value Num Moment)
    values_of (node p ls) = p.value ∷ values_of_locals ls

    pub values_of_locals : Locals Num Moment → List (Value Num Moment)
    values_of_locals no_locals = []
    values_of_locals (with_local n ls) = values_of n ++ values_of_locals ls

  -- What is set over a value that was set is all that counts, here and in the locals.
  mutual
    unfolding set_value

    values_of-set_value :
        (v w : Value Num Moment) (n : Node Num Moment)
        → values_of (set_value env v (set_value env w n)) ≡ values_of (set_value env v n)
    values_of-set_value v w (node p ls) =
        ap ((assign env v p).value ∷◌)
          (values_of_locals-update_locals (assign env v p).value (assign env w p).value ls)

    pub values_of_locals-update_locals :
        (v w : Value Num Moment) (ls : Locals Num Moment)
        → values_of_locals (update_locals env v (update_locals env w ls))
          ≡ values_of_locals (update_locals env v ls)
    values_of_locals-update_locals v w no_locals = refl
    values_of_locals-update_locals v w (with_local n ls) =
        ap₂ (◌++◌) (values_of-set_value v w n) (values_of_locals-update_locals v w ls)
