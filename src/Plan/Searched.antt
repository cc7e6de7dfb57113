-- ===== src/Plan/Searched.antt =====
-- pkg/cwlexec/plan.go: a search that finds no cycle shuts its step, and ranks the shut steps.
use mathlib.Core.Path.{subst}
use cwl_go.Prelude.{
  ℕ, zero, suc, String, ◌≡◌, ◌≢◌, refl, ap, ◌∙◌, inl, inr, false, Option, none, some, List, [], ◌∷◌,
  str_eq, eq_iff, Among,
}
use cwl_go.Run.Types.{PlannedStep, update}
use cwl_go.Plan.Cycles.{
  Mark, unmarked, opened, shut, Marks, Visit, visited, cyclic, panics, out_of_fuel, then_visit,
  visit_deps, close, on_mark, visit,
}
use cwl_go.Plan.Ranked.{
  update_same, update_other, other_mark, Ranked, Keeps, Keeps-refl, Keeps-trans, Ranked-open, stays,
  Ranked-shut,
}

-- What a search returns that is no error.
abbrev pub OnVisited : (Marks → Type 0) → Visit → Type 0
OnVisited P (visited m) = P m
OnVisited P _ = Unit

pub record Done (find : String → Option PlannedStep) (from m : Marks) (ids : List String)
    : Type 0 where
  pub ranked : Ranked find m
  pub keeps : Keeps from m
  pub all_shut : (d : String) → Among d ids → m d ≡ shut

-- Each search of a step ends well.
abbrev pub Enters : (String → Option PlannedStep) → (Marks → PlannedStep → Visit) → Type 0
Enters find enter =
    (m : Marks) (step : PlannedStep)
    → find step.id ≡ some step
    → Ranked find m
    → OnVisited (λ n. Done find m n (step.id ∷ [])) (enter m step)

-- A step that is found is found under its own identifier.
abbrev pub IsNaming : (String → Option PlannedStep) → Type 0
IsNaming find = (u : String) (s : PlannedStep) → find u ≡ some s → s.id ≡ u

module _ (find : String → Option PlannedStep) (naming : IsNaming find) where
  prepend-Done :
      (from m : Marks) (dep : String) (deps : List String) (v : Visit)
      → Keeps from m
      → m dep ≡ shut
      → OnVisited (λ n. Done find m n deps) v
      → OnVisited (λ n. Done find from n (dep ∷ deps)) v
  prepend-Done from m dep deps (visited n) k e h = record {
    ranked = h.ranked;
    keeps = Keeps-trans from m n k h.keeps;
    all_shut = λ d among. elim among [
      | inl same ↦ subst (λ t. n t ≡ shut) same (h.keeps.shuts dep e)
      | inr later ↦ h.all_shut d later
    ];
  }
  prepend-Done from m dep deps cyclic k e h = tt
  prepend-Done from m dep deps panics k e h = tt
  prepend-Done from m dep deps out_of_fuel k e h = tt

  module _ (enter : Marks → PlannedStep → Visit) (enters : Enters find enter) where
    one_dep :
        (from : Marks) (dep : String) (deps : List String) (step : PlannedStep) (v : Visit)
        → step.id ≡ dep
        → OnVisited (λ n. Done find from n (step.id ∷ [])) v
        → ((n : Marks)
            → Ranked find n
            → OnVisited (λ o. Done find n o deps) (visit_deps enter find deps n))
        → OnVisited (λ o. Done find from o (dep ∷ deps)) (then_visit v (visit_deps enter find deps))
    one_dep from dep deps step (visited n) same h rest =
        prepend-Done from n dep deps (visit_deps enter find deps n) h.keeps
          (subst (λ t. n t ≡ shut) same (h.all_shut step.id (inl refl))) (rest n h.ranked)
    one_dep from dep deps step cyclic same h rest = tt
    one_dep from dep deps step panics same h rest = tt
    one_dep from dep deps step out_of_fuel same h rest = tt

    by_find :
        (from : Marks) (dep : String) (deps : List String) (found : Option PlannedStep)
        → find dep ≡ found
        → Ranked find from
        → ((n : Marks)
            → Ranked find n
            → OnVisited (λ o. Done find n o deps) (visit_deps enter find deps n))
        → OnVisited
            (λ o. Done find from o (dep ∷ deps))
            (elim found [
              | none ↦ panics
              | some step ↦ then_visit (enter from step) (visit_deps enter find deps)
            ])
    by_find from dep deps none e h rest = tt
    by_find from dep deps (some step) e h rest =
        let same = naming dep step e in
        one_dep from dep deps step (enter from step) same (enters from step (ap find same ∙ e) h)
          rest

    visit_deps-Done :
        (deps : List String) (from : Marks)
        → Ranked find from
        → OnVisited (λ o. Done find from o deps) (visit_deps enter find deps from)
    unfolding visit_deps
    visit_deps-Done [] from h = record {
      ranked = h;
      keeps = Keeps-refl from;
      all_shut = λ d n. absurd n;
    }
    visit_deps-Done (dep ∷ deps) from h =
        by_find from dep deps (find dep) refl h (λ n i. visit_deps-Done deps n i)

  -- Opening a step, and shutting it behind its dependencies.
  close-Done :
      (m : Marks) (step : PlannedStep) (v : Visit)
      → find step.id ≡ some step
      → m step.id ≡ unmarked
      → OnVisited (λ o. Done find (update m step.id opened) o step.deps) v
      → OnVisited (λ o. Done find m o (step.id ∷ [])) (close step.id v)
  close-Done m step (visited n) found new h =
      let own : n step.id ≡ opened =
        h.keeps.opens step.id
          (update_same m step.id step.id opened ((eq_iff step.id step.id).1 refl)) in
      let apart : (u : String) (v : Mark) → m u ≡ v → unmarked ≢ v → str_eq step.id u ≡ false =
        λ u v e f. other_mark m step.id u unmarked v new e f in
      record {
        ranked = Ranked-shut find n step found own h.all_shut h.ranked;
        keeps = record {
          shuts = λ u e.
              stays find n step found own h.all_shut h.ranked u
                (h.keeps.shuts u (update_other m step.id u opened (apart u shut e (λ c. cc)) ∙ e));
          opens = λ u e.
              let other = apart u opened e (λ c. cc) in
              update_other n step.id u shut other
              ∙ h.keeps.opens u (update_other m step.id u opened other ∙ e);
        };
        all_shut = λ d among. elim among [
          | inl same ↦ update_same n step.id d shut ((eq_iff step.id d).1 same)
          | inr later ↦ absurd later
        ];
      }
  close-Done m step cyclic found new h = tt
  close-Done m step panics found new h = tt
  close-Done m step out_of_fuel found new h = tt

  by_mark :
      (k : Mark) (m : Marks) (step : PlannedStep) (v : Visit)
      → m step.id ≡ k
      → Ranked find m
      → (k ≡ unmarked → OnVisited (λ o. Done find m o (step.id ∷ [])) v)
      → OnVisited (λ o. Done find m o (step.id ∷ [])) (on_mark k m v)
  by_mark unmarked m step v e h rest = rest refl
  by_mark opened m step v e h rest = tt
  by_mark shut m step v e h rest = record {
    ranked = h;
    keeps = Keeps-refl m;
    all_shut = λ d among. elim among [
      | inl same ↦ subst (λ t. m t ≡ shut) same e
      | inr later ↦ absurd later
    ];
  }

  pub visit-Enters : (fuel : ℕ) → Enters find (visit fuel find)
  unfolding visit
  visit-Enters zero m step found h = tt
  visit-Enters (suc fuel) m step found h = by_mark (m step.id) m step _ refl h (λ new.
      close-Done m step _ found new (
        visit_deps-Done (λ n s. visit fuel find n s) (λ n s f i. visit-Enters fuel n s f i)
          step.deps (update m step.id opened) (Ranked-open find m step.id new h)))
