-- ===== src/SchemaLoading/Latest.antt =====
-- client/app/pages/queries/hooks/useDataSourceSchema.js: the latest reload decides.
use mxzz_bi.Prelude.{
  ℕ, ◌≡◌, refl, sym, ap, ◌∙◌, Bool-cases, Option-cases, inl, inr, true, false, Option, none, some,
  List, [], ◌∷◌, ◌==◌, arith, if◌then◌else◌,
}
use mxzz_bi.SchemaLoading.{
  Table, Schema, Answer, Progress, asking, Event, reload, answer, unmount, Hook, prepare_schema,
  advance, outcome, land, set_progress, move, step, run, polling, sleeping, gave_up, done,
}

-- No reload and no unmounting.
abbrev pub IsQuiet : List Event → Type 0
IsQuiet [] = Unit {0}
IsQuiet (answer n a ∷ es) = IsQuiet es
IsQuiet (reload n b ∷ es) = false ≡ true
IsQuiet (unmount ∷ es) = false ≡ true

-- The answers that belong to one reload.
abbrev pub answers_of : ℕ → List Event → List Answer
answers_of n [] = []
answers_of n (answer m a ∷ es) = if m == n then a ∷ answers_of n es else answers_of n es
answers_of n (e ∷ es) = answers_of n es

-- A reload by itself.
abbrev pub alone : Progress → List Answer → Progress
alone p [] = p
alone p (a ∷ answers) = alone (advance p a) answers

abbrev pub shown : Schema → Option (List Table) → Schema
shown old none = old
shown old (some ts) = prepare_schema ts

eq_refl_ℕ : (n : ℕ) → (n == n) ≡ true
eq_refl_ℕ n = ground arith

ended : (p : Progress) (a : Answer) (ts : List Table) → outcome p ≡ some ts → advance p a ≡ p
unfolding advance
ended asking a ts h = cc
ended polling a ts h = cc
ended sleeping a ts h = cc
ended gave_up a ts h = refl
ended (done us) a ts h = refl

alone_ended :
    (p : Progress) (answers : List Answer) (ts : List Table)
    → outcome p ≡ some ts
    → alone p answers ≡ p
alone_ended p [] ts h = refl
alone_ended p (a ∷ answers) ts h =
    ap (λ q. alone q answers) (ended p a ts h) ∙ alone_ended p answers ts h

-- What a reload has shown so far.
abbrev Agrees : ℕ → Schema → Hook → Type 0
Agrees n old h = (h.token ≡ some n) × (h.schema ≡ shown old (outcome (h.progress n)))

land-Agrees :
    (n : ℕ) (old : Schema) (o : Option (List Table)) (h : Hook)
    → h.token ≡ some n
    → h.schema ≡ old
    → ((land n o h).token ≡ some n)
      × ((land n o h).schema ≡ shown old o)
      × ((land n o h).progress n ≡ h.progress n)
unfolding land
land-Agrees n old none h t s = (t, s, refl)
land-Agrees n old (some ts) h t s = let e = eq_refl_ℕ n in rw (t, e) (refl, refl, refl)

land_other :
    (n m : ℕ) (o : Option (List Table)) (h : Hook)
    → h.token ≡ some n
    → (n == m) ≡ false
    → land m o h ≡ h
unfolding land
land_other n m none h t e = refl
land_other n m (some ts) h t e = rw (t, e) refl

set_progress_own : (n : ℕ) (p : Progress) (f : ℕ → Progress) → set_progress n p f n ≡ p
set_progress_own n p f = rw (eq_refl_ℕ n) refl

own-Agrees :
    (n : ℕ) (old : Schema) (a : Answer) (h : Hook)
    → Agrees n old h
    → Agrees n old (step (answer n a) h)
      × ((step (answer n a) h).progress n ≡ advance (h.progress n) a)
unfolding step
own-Agrees n old a h (t, s) = elim (Option-cases (outcome (h.progress n))) [
  | inl e ↦
      let p = advance (h.progress n) a in
      let (u, v, w) = land-Agrees n old (outcome p) (move n p h) t (s ∙ ap (shown old) e) in
      let q = w ∙ set_progress_own n p h.progress in
      rw (step, e) ((u, v ∙ ap (λ x. shown old (outcome x)) (sym q)), q)
  | inr (ts, e) ↦ rw (step, e) ((t, s), sym (ended (h.progress n) a ts e))
]

other-Agrees :
    (n : ℕ) (old : Schema) (m : ℕ) (a : Answer) (h : Hook)
    → (m == n) ≡ false
    → Agrees n old h
    → Agrees n old (step (answer m a) h) × ((step (answer m a) h).progress n ≡ h.progress n)
unfolding step
other-Agrees n old m a h d (t, s) = elim (Option-cases (outcome (h.progress m))) [
  | inl e ↦
      let p = advance (h.progress m) a in
      let d' : (n == m) ≡ false = ground (arith, d) in
      let l = land_other n m (outcome p) (move m p h) t d' in rw (step, e, l, d) ((t, s), refl)
  | inr (ts, e) ↦ rw (step, e) ((t, s), refl)
]

run-Agrees :
    (n : ℕ) (old : Schema) (es : List Event) (h : Hook)
    → IsQuiet es
    → Agrees n old h
    → (run es h).schema ≡ shown old (outcome (alone (h.progress n) (answers_of n es)))
unfolding run
run-Agrees n old [] h q (t, s) = s
run-Agrees n old (reload m b ∷ es) h q g = cc
run-Agrees n old (unmount ∷ es) h q g = cc
run-Agrees n old (answer m a ∷ es) h q g = elim (Bool-cases (m == n)) [
  | inl e ↦
      let k : m ≡ n = ground (arith, e) in
      let (g', p) = own-Agrees n old a h g in
      rw e (
        ap (λ x. (run es (step (answer x a) h)).schema) k
        ∙ run-Agrees n old es (step (answer n a) h) q g'
        ∙ ap (λ x. shown old (outcome (alone x (answers_of n es)))) p)
  | inr e ↦
      let (g', p) = other-Agrees n old m a h e g in
      rw e (
        run-Agrees n old es (step (answer m a) h) q g'
        ∙ ap (λ x. shown old (outcome (alone x (answers_of n es)))) p)
]

-- After the latest reload, of a data source, the schema is what that reload loads by itself from its own answers, once it
-- has come to an end, and until then what it was, whatever answers to older reloads come between.
pub run-reload :
    (n : ℕ) (es : List Event) (h : Hook)
    → IsQuiet es
    → (run (reload n true ∷ es) h).schema
      ≡ shown h.schema (outcome (alone asking (answers_of n es)))
unfolding run step
run-reload n es h q =
    let e = set_progress_own n asking h.progress in
    run-Agrees n h.schema es (record (move n asking h) { token = some n }) q
      (refl, ap (λ x. shown h.schema (outcome x)) (sym e))
    ∙ ap (λ x. shown h.schema (outcome (alone x (answers_of n es)))) e
