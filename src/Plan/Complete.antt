-- ===== src/Plan/Complete.antt =====
-- pkg/cwlexec/plan.go: the search for cycles passes every plan that has none.
use mathlib.Core.Path.{subst}
use cwl_go.Prelude.{
  ℕ, zero, suc, ◌<◌, String, ◌≡◌, ◌≢◌, refl, sym, ◌∙◌, inl, inr, Option, none, some, List, [], ◌∷◌,
  arith, str_eq, eq_iff, Bool-cases, Among, length,
}
use cwl_go.Run.Types.{PlannedStep, update}
use cwl_go.Run.Resumed.{by_id}
use cwl_go.Plan.Cycles.{
  Mark, unmarked, opened, shut, Marks, Visit, visited, cyclic, panics, out_of_fuel, then_visit,
  visit_deps, close, on_mark, visit, visit_steps, check_acyclic,
}
use cwl_go.Plan.Ranked.{update_same, update_other}
use cwl_go.Plan.Acyclic.{IsAcyclic, by_id-IsNaming}
use cwl_go.Plan.Enough.{by_id-IsListing, check_acyclic_ends}

-- Each dependency of each step is a step of the plan.
abbrev pub AreKnown : List PlannedStep → Type 0
AreKnown steps =
    (step : PlannedStep)
    → Among step steps
    → (d : String) → Among d step.deps
    → (s : PlannedStep) × (by_id steps d ≡ some s)

-- What is open after the search was open before it, and the search found no fault.
abbrev Fine : Marks → Visit → Type 0
Fine m (visited n) = (u : String) → n u ≡ opened → m u ≡ opened
Fine m cyclic = ⊥
Fine m panics = ⊥
Fine m out_of_fuel = Unit

then-Fine :
    (m : Marks) (v : Visit) (f : Marks → Visit)
    → Fine m v
    → ((n : Marks) → ((u : String) → n u ≡ opened → m u ≡ opened) → Fine m (f n))
    → Fine m (then_visit v f)
then-Fine m (visited n) f h each = each n h
then-Fine m cyclic f h each = h
then-Fine m panics f h each = h
then-Fine m out_of_fuel f h each = tt

Fine-trans :
    (m n : Marks) (v : Visit) → ((u : String) → n u ≡ opened → m u ≡ opened) → Fine n v → Fine m v
Fine-trans m n (visited o) h f = λ u e. h u (f u e)
Fine-trans m n cyclic h f = f
Fine-trans m n panics h f = f
Fine-trans m n out_of_fuel h f = tt

close-Fine :
    (m : Marks) (id : String) (v : Visit) → Fine (update m id opened) v → Fine m (close id v)
close-Fine m id (visited n) h = λ u e. elim (Bool-cases (str_eq id u)) [
  | inl same ↦ let clash : shut ≡ opened = sym (update_same n id u shut same) ∙ e in cc
  | inr other ↦
      sym (update_other m id u opened other) ∙ h u (sym (update_other n id u shut other) ∙ e)
]
close-Fine m id cyclic h = h
close-Fine m id panics h = h
close-Fine m id out_of_fuel h = tt

module _ (steps : List PlannedStep) (a : IsAcyclic steps) (known : AreKnown steps) where
  -- Every open step has a greater rank.
  abbrev Above : Marks → String → Type 0
  Above m id = (u : String) → m u ≡ opened → a.rank id < a.rank u

  Above-deps :
      (m : Marks) (step : PlannedStep) (d : String)
      → Among step steps
      → Among d step.deps
      → Above m step.id
      → Above (update m step.id opened) d
  Above-deps m step d among dep above u e = elim (Bool-cases (str_eq step.id u)) [
    | inl same ↦
        subst (λ t. a.rank d < a.rank t) ((eq_iff step.id u).0 same) (a.ordered step among d dep)
    | inr other ↦
        let less = a.ordered step among d dep in
        let more = above u (sym (update_other m step.id u opened other) ∙ e) in omega arith
  ]

  mark-Fine :
      (k : Mark) (m : Marks) (id : String) (v : Visit)
      → m id ≡ k
      → Above m id
      → (k ≡ unmarked → Fine m v)
      → Fine m (on_mark k m v)
  mark-Fine unmarked m id v e above rest = rest refl
  mark-Fine opened m id v e above rest = absurd (let less = above id e in omega arith)
  mark-Fine shut m id v e above rest = λ u h. h

  found_dep :
      (enter : Marks → PlannedStep → Visit) (dep : String) (deps : List String) (m : Marks)
      (found : Option PlannedStep)
      → ((s : PlannedStep) × (found ≡ some s))
      → ((s : PlannedStep) → found ≡ some s → Fine m (enter m s))
      → ((n : Marks)
          → ((u : String) → n u ≡ opened → m u ≡ opened)
          → Fine m (visit_deps enter (by_id steps) deps n))
      → Fine m (elim found [
        | none ↦ panics
        | some step ↦ then_visit (enter m step) (visit_deps enter (by_id steps) deps)
      ])
  found_dep enter dep deps m none (s, e) first rest = cc
  found_dep enter dep deps m (some step) (s, e) first rest =
      then-Fine m (enter m step) (visit_deps enter (by_id steps) deps) (first step refl) rest

  visit_deps-Fine :
      (enter : Marks → PlannedStep → Visit)
      → ((n : Marks) (s : PlannedStep) → Among s steps → Above n s.id → Fine n (enter n s))
      → (deps : List String) (m : Marks)
      → ((d : String) → Among d deps → (s : PlannedStep) × (by_id steps d ≡ some s))
      → ((d : String) → Among d deps → Above m d)
      → Fine m (visit_deps enter (by_id steps) deps m)
  unfolding visit_deps
  visit_deps-Fine enter enters [] m listed above = λ u h. h
  visit_deps-Fine enter enters (dep ∷ deps) m listed above =
      found_dep enter dep deps m (by_id steps dep) (listed dep (inl refl))
        (λ s e.
          enters m s (by_id-IsListing steps dep s e)
            (subst (Above m) (sym (by_id-IsNaming steps dep s e)) (above dep (inl refl))))
        (λ n before. Fine-trans m n _ before (
          visit_deps-Fine enter enters deps n (λ d later. listed d (inr later))
            (λ d later u e. above d (inr later) u (before u e))))

  visit-Fine :
      (fuel : ℕ) (m : Marks) (step : PlannedStep)
      → Among step steps
      → Above m step.id
      → Fine m (visit fuel (by_id steps) m step)
  unfolding visit
  visit-Fine zero m step among above = tt
  visit-Fine (suc fuel) m step among above = mark-Fine (m step.id) m step.id _ refl above (λ new.
      close-Fine m step.id _ (
        visit_deps-Fine (λ n s. visit fuel (by_id steps) n s)
          (λ n s listed over. visit-Fine fuel n s listed over) step.deps (update m step.id opened)
          (known step among) (λ d dep. Above-deps m step d among dep above)))

  visit_steps-Fine :
      (fuel : ℕ) (rest : List PlannedStep) (m : Marks)
      → ((s : PlannedStep) → Among s rest → Among s steps)
      → ((u : String) → m u ≡ opened → ⊥)
      → Fine m (visit_steps fuel (by_id steps) rest m)
  unfolding visit_steps
  visit_steps-Fine fuel [] m listed closed = λ u h. h
  visit_steps-Fine fuel (step ∷ rest) m listed closed =
      then-Fine m (visit fuel (by_id steps) m step) (visit_steps fuel (by_id steps) rest)
        (visit-Fine fuel m step (listed step (inl refl)) (λ u e. absurd (closed u e)))
        (λ n before. Fine-trans m n _ before (
          visit_steps-Fine fuel rest n (λ s later. listed s (inr later))
            (λ u e. closed u (before u e))))

-- The search passes the plan.
pub record Passes (fuel : ℕ) (steps : List PlannedStep) : Type 0 where
  pub marks : Marks
  pub success : check_acyclic fuel steps ≡ visited marks

Fine-marks : (m : Marks) (v : Visit) → Fine m v → v ≢ out_of_fuel → (n : Marks) × (v ≡ visited n)
Fine-marks m (visited n) h fuel = (n, refl)
Fine-marks m cyclic h fuel = absurd h
Fine-marks m panics h fuel = absurd h
Fine-marks m out_of_fuel h fuel = absurd (fuel refl)

-- Where the steps can be numbered so that every dependency has a smaller number than its step,
-- every dependency is a planned step, and the depth allowed exceeds the number of steps,
-- checkAcyclic returns without an error.
pub check_acyclic_complete :
    (steps : List PlannedStep) (fuel : ℕ)
    → IsAcyclic steps
    → AreKnown steps
    → length steps < fuel
    → Passes fuel steps
check_acyclic_complete steps fuel a known enough =
    let start : Marks = λ id. unmarked in
    let search : Fine start (check_acyclic fuel steps) =
      unfold check_acyclic in
      visit_steps-Fine steps a known fuel steps start (λ s h. h) (λ u e. cc) in
    let (m, e) =
      Fine-marks start (check_acyclic fuel steps) search (check_acyclic_ends steps fuel enough) in
    record { marks = m; success = e }
