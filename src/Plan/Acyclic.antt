-- ===== src/Plan/Acyclic.antt =====
-- pkg/cwlexec/plan.go: where the search finds no cycle, there is none.
use mathlib.Core.Path.{subst}
use mathlib.Core.Option.{some-injective}
use cwl_go.Prelude.{
  ℕ, ◌<◌, String, ◌≡◌, refl, sym, ap, ◌∙◌, inl, inr, Option, some, List, [], ◌∷◌, str_eq, eq_iff,
  Bool-cases, Among,
}
use cwl_go.Run.Types.{PlannedStep}
use cwl_go.Run.Resumed.{by_id}
use cwl_go.Plan.Cycles.{
  unmarked, shut, Marks, Visit, visited, cyclic, panics, out_of_fuel, then_visit, visit,
  visit_steps, check_acyclic,
}
use cwl_go.Plan.Ranked.{Ranked, Keeps, Keeps-refl, Keeps-trans}
use cwl_go.Plan.Searched.{OnVisited, Done, IsNaming, visit-Enters}

-- Each dependency of each step has a smaller number than the step, so that no chain of
-- dependencies comes back to its start.
pub record IsAcyclic (steps : List PlannedStep) : Type 0 where
  pub rank : String → ℕ
  pub ordered :
      (step : PlannedStep)
      → Among step steps
      → (d : String) → Among d step.deps
      → rank d < rank step.id

-- Each step of the plan is the one that its identifier names.
abbrev pub AreNamed : List PlannedStep → Type 0
AreNamed steps = (step : PlannedStep) → Among step steps → by_id steps step.id ≡ some step

pub by_id-IsNaming : (steps : List PlannedStep) → IsNaming (by_id steps)
unfolding by_id
by_id-IsNaming [] u s e = cc
by_id-IsNaming (step ∷ steps) u s e = elim (Bool-cases (str_eq step.id u)) [
  | inl same ↦
      let one : some step ≡ some s = sym (rw same refl) ∙ e in
      ap (λ t. t.id) (sym (some-injective _ _ one)) ∙ (eq_iff step.id u).0 same
  | inr other ↦ by_id-IsNaming steps u s (sym (rw other refl) ∙ e)
]

-- What the outer loop leaves.
record Shuts (find : String → Option PlannedStep) (from m : Marks) (steps : List PlannedStep)
    : Type 0 where
  ranked : Ranked find m
  keeps : Keeps from m
  all_shut : (s : PlannedStep) → Among s steps → m s.id ≡ shut

module _ (find : String → Option PlannedStep) (naming : IsNaming find) (fuel : ℕ) where
  prepend-Shuts :
      (from m : Marks) (step : PlannedStep) (steps : List PlannedStep) (v : Visit)
      → Keeps from m
      → m step.id ≡ shut
      → OnVisited (λ n. Shuts find m n steps) v
      → OnVisited (λ n. Shuts find from n (step ∷ steps)) v
  prepend-Shuts from m step steps (visited n) k e h = record {
    ranked = h.ranked;
    keeps = Keeps-trans from m n k h.keeps;
    all_shut = λ s among. elim among [
      | inl same ↦ subst (λ t. n t.id ≡ shut) same (h.keeps.shuts step.id e)
      | inr later ↦ h.all_shut s later
    ];
  }
  prepend-Shuts from m step steps cyclic k e h = tt
  prepend-Shuts from m step steps panics k e h = tt
  prepend-Shuts from m step steps out_of_fuel k e h = tt

  one_step :
      (from : Marks) (step : PlannedStep) (steps : List PlannedStep) (v : Visit)
      → OnVisited (λ n. Done find from n (step.id ∷ [])) v
      → ((n : Marks)
          → Ranked find n
          → OnVisited (λ o. Shuts find n o steps) (visit_steps fuel find steps n))
      → OnVisited
          (λ o. Shuts find from o (step ∷ steps))
          (then_visit v (visit_steps fuel find steps))
  one_step from step steps (visited n) h rest =
      prepend-Shuts from n step steps (visit_steps fuel find steps n) h.keeps
        (h.all_shut step.id (inl refl)) (rest n h.ranked)
  one_step from step steps cyclic h rest = tt
  one_step from step steps panics h rest = tt
  one_step from step steps out_of_fuel h rest = tt

  visit_steps-Shuts :
      (steps : List PlannedStep) (from : Marks)
      → ((s : PlannedStep) → Among s steps → find s.id ≡ some s)
      → Ranked find from
      → OnVisited (λ o. Shuts find from o steps) (visit_steps fuel find steps from)
  unfolding visit_steps
  visit_steps-Shuts [] from named h = record {
    ranked = h;
    keeps = Keeps-refl from;
    all_shut = λ s n. absurd n;
  }
  visit_steps-Shuts (step ∷ steps) from named h =
      one_step from step steps (visit fuel find from step)
        (visit-Enters find naming fuel from step (named step (inl refl)) h)
        (λ n i. visit_steps-Shuts steps n (λ s later. named s (inr later)) i)

Shuts-IsAcyclic :
    (steps : List PlannedStep) (m : Marks)
    → AreNamed steps
    → Shuts (by_id steps) (λ id. unmarked) m steps
    → IsAcyclic steps
Shuts-IsAcyclic steps m named h = record {
  rank = h.ranked.rank;
  ordered = λ step among d dep.
      (h.ranked.ordered step.id step (named step among) (h.all_shut step among) d dep).1;
}

-- Where every planned step is the one that its identifier names, and checkAcyclic returns without
-- an error, the steps can be numbered so that every dependency has a smaller number than its step:
-- there is no cycle.
pub check_acyclic-IsAcyclic :
    (fuel : ℕ) (steps : List PlannedStep) (m : Marks)
    → AreNamed steps
    → check_acyclic fuel steps ≡ visited m
    → IsAcyclic steps
unfolding check_acyclic
check_acyclic-IsAcyclic fuel steps m named e = Shuts-IsAcyclic steps m named (
    subst (OnVisited (λ o. Shuts (by_id steps) (λ id. unmarked) o steps)) e (
      visit_steps-Shuts (by_id steps) (by_id-IsNaming steps) fuel steps (λ id. unmarked) named
        record { rank = λ u. 0; bound = 0; below = λ u e. cc; ordered = λ u step f e. cc }))
