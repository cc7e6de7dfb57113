-- ===== src/Plan/Enough.antt =====
-- pkg/cwlexec/plan.go: the search for cycles ends. Each step that it enters is marked, so that it
-- goes no deeper than there are steps.
use mathlib.Core.Option.{some-injective}
use cwl_go.Prelude.{
  ℕ, zero, suc, ◌+◌, ◌<◌, ◌≤◌, String, ◌≡◌, ◌≢◌, refl, sym, ap, ◌∙◌, inl, inr, Option, none, some,
  List, [], ◌∷◌, arith, str_eq, eq_iff, Bool-cases, Among, length,
}
use cwl_go.Run.Types.{PlannedStep, update}
use cwl_go.Run.Resumed.{by_id}
use cwl_go.Plan.Cycles.{
  Mark, unmarked, opened, shut, Marks, Visit, visited, cyclic, panics, out_of_fuel, then_visit,
  visit_deps, close, on_mark, visit, visit_steps, check_acyclic,
}

abbrev weight : Mark → ℕ
weight unmarked = 1
weight _ = 0

-- How many steps of the list are unmarked.
fresh : Marks → List PlannedStep → ℕ
fresh m [] = 0
fresh m (step ∷ steps) = weight (m step.id) + fresh m steps

module _ (m : Marks) (id : String) (v : Mark) (marked : weight v ≡ 0) where
  weight_le : (u : String) → weight (update m id v u) ≤ weight (m u)
  weight_le u = elim (Bool-cases (str_eq id u)) [
    | inl same ↦ rw same (omega (arith, marked))
    | inr other ↦ rw other (omega arith)
  ]

  fresh_le : (steps : List PlannedStep) → fresh (update m id v) steps ≤ fresh m steps
  unfolding fresh
  fresh_le [] = omega arith
  fresh_le (step ∷ steps) = omega (arith, weight_le step.id, fresh_le steps)

  weight_lt : (u : String) → u ≡ id → m id ≡ unmarked → weight (update m id v u) < weight (m u)
  weight_lt u same new =
      let named = (eq_iff id u).1 (sym same) in
      let before = ap weight (ap m same ∙ new) in rw named (omega (arith, marked, before))

  fresh_lt :
      (steps : List PlannedStep) (step : PlannedStep)
      → Among step steps
      → step.id ≡ id
      → m id ≡ unmarked
      → fresh (update m id v) steps < fresh m steps
  unfolding fresh
  fresh_lt [] step among same new = absurd among
  fresh_lt (s ∷ steps) step (inl one) same new =
      omega (arith, weight_lt s.id (ap (λ t. t.id) one ∙ same) new, fresh_le steps)
  fresh_lt (s ∷ steps) step (inr later) same new =
      omega (arith, weight_le s.id, fresh_lt steps step later same new)

module _ (steps : List PlannedStep) where
  -- The search has fuel left, and has marked at least as many steps.
  abbrev Bounded : ℕ → Visit → Type 0
  Bounded c (visited n) = fresh n steps ≤ c
  Bounded c cyclic = Unit
  Bounded c panics = Unit
  Bounded c out_of_fuel = ⊥

  Bounded-by : (c d : ℕ) (v : Visit) → c ≤ d → Bounded c v → Bounded d v
  Bounded-by c d (visited n) h b = omega arith
  Bounded-by c d cyclic h b = tt
  Bounded-by c d panics h b = tt
  Bounded-by c d out_of_fuel h b = b

  then-Bounded :
      (c : ℕ) (v : Visit) (f : Marks → Visit)
      → Bounded c v
      → ((n : Marks) → fresh n steps ≤ c → Bounded c (f n))
      → Bounded c (then_visit v f)
  then-Bounded c (visited n) f b each = each n b
  then-Bounded c cyclic f b each = tt
  then-Bounded c panics f b each = tt
  then-Bounded c out_of_fuel f b each = b

  close-Bounded : (c : ℕ) (id : String) (v : Visit) → Bounded c v → Bounded c (close id v)
  close-Bounded c id v b =
      then-Bounded c v _ b (λ n less. omega (arith, fresh_le n id shut refl steps))

  -- What the search finds stands in the plan.
  abbrev pub IsListing : (String → Option PlannedStep) → Type 0
  IsListing find = (u : String) (s : PlannedStep) → find u ≡ some s → Among s steps

  module _ (find : String → Option PlannedStep) (listing : IsListing find) where
    by_found :
        (enter : Marks → PlannedStep → Visit) (c : ℕ) (dep : String) (deps : List String)
        (m : Marks) (found : Option PlannedStep)
        → find dep ≡ found
        → ((s : PlannedStep) → Among s steps → Bounded c (enter m s))
        → ((n : Marks) → fresh n steps ≤ c → Bounded c (visit_deps enter find deps n))
        → Bounded c (elim found [
          | none ↦ panics
          | some step ↦ then_visit (enter m step) (visit_deps enter find deps)
        ])
    by_found enter c dep deps m none e first rest = tt
    by_found enter c dep deps m (some s) e first rest =
        then-Bounded c (enter m s) (visit_deps enter find deps) (first s (listing dep s e)) rest

    visit_deps-Bounded :
        (enter : Marks → PlannedStep → Visit) (c : ℕ) (deps : List String) (m : Marks)
        → ((n : Marks) (s : PlannedStep)
            → Among s steps
            → fresh n steps ≤ c
            → Bounded c (enter n s))
        → fresh m steps ≤ c
        → Bounded c (visit_deps enter find deps m)
    unfolding visit_deps
    visit_deps-Bounded enter c [] m enters h = h
    visit_deps-Bounded enter c (dep ∷ deps) m enters h =
        by_found enter c dep deps m (find dep) refl (λ s among. enters m s among h)
          (λ n less. visit_deps-Bounded enter c deps n enters less)

    mark-Bounded :
        (k : Mark) (m : Marks) (v : Visit)
        → (k ≡ unmarked → Bounded (fresh m steps) v)
        → Bounded (fresh m steps) (on_mark k m v)
    mark-Bounded unmarked m v rest = rest refl
    mark-Bounded opened m v rest = tt
    mark-Bounded shut m v rest = omega arith

    visit-Bounded :
        (fuel : ℕ) (m : Marks) (step : PlannedStep)
        → Among step steps
        → fresh m steps < fuel
        → Bounded (fresh m steps) (visit fuel find m step)
    unfolding visit
    visit-Bounded zero m step among enough = absurd (omega arith)
    visit-Bounded (suc fuel) m step among enough = mark-Bounded (m step.id) m _ (λ new.
        let next = update m step.id opened in
        let less = fresh_lt m step.id opened refl steps step among refl new in
        Bounded-by (fresh next steps) (fresh m steps) _ (omega arith) (
          close-Bounded (fresh next steps) step.id _ (
            visit_deps-Bounded (λ n s. visit fuel find n s) (fresh next steps) step.deps next
              (λ n s listed fewer.
                Bounded-by (fresh n steps) (fresh next steps) (visit fuel find n s) fewer
                  (visit-Bounded fuel n s listed (omega arith)))
              (omega arith))))

    visit_steps-Bounded :
        (fuel : ℕ) (rest : List PlannedStep) (m : Marks)
        → ((s : PlannedStep) → Among s rest → Among s steps)
        → fresh m steps < fuel
        → Bounded (fresh m steps) (visit_steps fuel find rest m)
    unfolding visit_steps
    visit_steps-Bounded fuel [] m listed enough = omega arith
    visit_steps-Bounded fuel (step ∷ rest) m listed enough =
        then-Bounded (fresh m steps) (visit fuel find m step) (visit_steps fuel find rest)
          (visit-Bounded fuel m step (listed step (inl refl)) enough)
          (λ n fewer.
            Bounded-by (fresh n steps) (fresh m steps) _ fewer
              (visit_steps-Bounded fuel rest n (λ s later. listed s (inr later)) (omega arith)))

fresh-le-length : (m : Marks) (steps : List PlannedStep) → fresh m steps ≤ length steps
unfolding fresh
fresh-le-length m [] = omega arith
fresh-le-length m (step ∷ steps) = one (m step.id) (fresh-le-length m steps)
  where
    one : (k : Mark) → fresh m steps ≤ length steps → weight k + fresh m steps ≤ suc (length steps)
    one unmarked h = omega arith
    one opened h = omega arith
    one shut h = omega arith

pub by_id-IsListing : (steps : List PlannedStep) → IsListing steps (by_id steps)
unfolding by_id
by_id-IsListing [] u s e = cc
by_id-IsListing (step ∷ steps) u s e = elim (Bool-cases (str_eq step.id u)) [
  | inl same ↦ inl (some-injective _ _ (sym (rw same refl) ∙ e))
  | inr other ↦ inr (by_id-IsListing steps u s (sym (rw other refl) ∙ e))
]

has_fuel : (steps : List PlannedStep) (c : ℕ) (v : Visit) → Bounded steps c v → v ≢ out_of_fuel
has_fuel steps c (visited n) b = λ e. cc
has_fuel steps c cyclic b = λ e. cc
has_fuel steps c panics b = λ e. cc
has_fuel steps c out_of_fuel b = absurd b

-- Whatever the steps, cyclic ones included, checkAcyclic goes no deeper than there are steps, so
-- that it does not run out of a depth that exceeds their number.
pub check_acyclic_ends :
    (steps : List PlannedStep) (fuel : ℕ)
    → length steps < fuel
    → check_acyclic fuel steps ≢ out_of_fuel
unfolding check_acyclic
check_acyclic_ends steps fuel enough =
    let start : Marks = λ id. unmarked in
    has_fuel steps (fresh start steps) _ (
      visit_steps-Bounded steps (by_id steps) (by_id-IsListing steps) fuel steps start (λ s h. h)
        (omega (arith, fresh-le-length start steps)))
