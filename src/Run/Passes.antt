-- ===== src/Run/Passes.antt =====
-- The passes that launch, and a whole round.
use mathlib.Core.Path.{subst}
use cwl_go.Prelude.{
  ℕ, zero, suc, ◌+◌, ◌≡◌, refl, sym, ap, ◌∙◌, ◌⊎◌, inl, inr, Bool, true, false, not, ◌&&◌, ◌||◌,
  Option, none, some, List, [], ◌∷◌, arith, if-elim, length, get_elem?, Among,
}
use cwl_go.Run.Types.{RunJob, PlannedStep, Runner, Loop}
use cwl_go.Run.Loop.{is_unset, launch, has_capacity}
use cwl_go.Run.Dispatch.{
  start_ready_steps, is_waiting, launch_if, launch_from, can_launch, launch_steps, launch_pending,
  dispatch_round,
}
use cwl_go.Run.Started.{StartedAt, launch-StartedAt}
use cwl_go.Run.Measure.{IsBelow, IsBelow-trans}
use cwl_go.Run.Decrease.{Passes, Passes-trans, launch-IsBelow, start_ready_steps-Passes}

module _ (r : Runner) where
  abbrev Launches : PlannedStep → Loop × Bool → Loop × Bool → Type 0
  Launches step a b = Passes r a b × StartedAt r step b.0

  launch_if-Passes :
      (step : PlannedStep) (i : ℕ) (o : Option RunJob) (state : Loop × Bool)
      → Among step r.steps
      → StartedAt r step state.0
      → get_elem? (state.0.jobs step.id) i ≡ o
      → Launches step state (launch_if r step i o state)
  launch_if-Passes step i none state m on e = (inl refl, on)
  launch_if-Passes step i (some job) (l, b) m on e =
      if-elim (Launches step (l, b))
        (not job.dispatched && is_waiting (get_elem? (l.steps step.id).jobs i))
        (launch r step i job l, true) (l, b)
        (λ go. (
          inr (refl, launch-IsBelow r step i job l m on e (ground arith)),
          launch-StartedAt r step i job l on,
        ))
        (λ _. (inl refl, on))

  -- A pass of `launch_from`, without its last part.
  abbrev two : Loop × Bool × Bool → Loop × Bool
  two (l, b, go_on) = (l, b)

  launch_from-Passes :
      (step : PlannedStep) (left i : ℕ) (state : Loop × Bool)
      → Among step r.steps
      → StartedAt r step state.0
      → Passes r state (two (launch_from r step left i state))
  unfolding launch_from
  launch_from-Passes step zero i (l, b) m on = inl refl
  launch_from-Passes step (suc left) i (l, b) m on =
      let after = launch_if r step i (get_elem? (l.jobs step.id) i) (l, b) in
      let rest = launch_from r step left (i + 1) after in
      let (first, on') = launch_if-Passes step i (get_elem? (l.jobs step.id) i) (l, b) m on refl in
      if-elim (λ t. Passes r (l, b) (two t)) (has_capacity r l && is_unset (l.steps step.id).status)
        rest (l, b, false)
        (λ _.
          Passes-trans r (l, b) after (two rest) first
            (launch_from-Passes step left (i + 1) after m on'))
        (λ _. inl refl)

  launch_steps-Passes :
      (steps : List PlannedStep) (state : Loop × Bool)
      → ((step : PlannedStep) → Among step steps → Among step r.steps)
      → Passes r state (launch_steps r steps state)
  unfolding launch_steps
  launch_steps-Passes [] state h = inl refl
  launch_steps-Passes (step ∷ steps) (l, b) h =
      let from = launch_from r step (length (l.jobs step.id)) 0 (l, b) in
      let later = λ (s : PlannedStep) (m : Among s steps). h s (inr m) in
      if-elim (Passes r (l, b)) (can_launch l step) _ (launch_steps r steps (l, b))
        (λ can.
          let here =
            launch_from-Passes step (length (l.jobs step.id)) 0 (l, b) (h step (inl refl))
              (ground arith) in
          if-elim (Passes r (l, b)) from.2 (launch_steps r steps (two from)) (two from)
            (λ _.
              Passes-trans r (l, b) (two from) (launch_steps r steps (two from)) here
                (launch_steps-Passes steps (two from) later))
            (λ _. here))
        (λ _. launch_steps-Passes steps (l, b) later)

  launch_pending-Passes : (l : Loop) → Passes r (l, false) (launch_pending r l)
  unfolding launch_pending
  launch_pending-Passes l =
      if-elim (Passes r (l, false)) l.stopped (l, false) (launch_steps r r.steps (l, false))
        (λ _. inl refl) (λ _. launch_steps-Passes r.steps (l, false) (λ s m. m))

  -- A round that reports progress goes below, and one that reports none leaves the state.
  pub round_cases :
      (l : Loop)
      → ((dispatch_round r l).1 ≡ true) × IsBelow r.steps l (dispatch_round r l).0
        ⊎ ((dispatch_round r l).1 ≡ false)
          × ((dispatch_round r l).0 ≡ l)
          × (start_ready_steps r l ≡ (l, false))
  unfolding dispatch_round
  round_cases l =
      both (start_ready_steps r l) (start_ready_steps-Passes r l)
        (launch_pending r (start_ready_steps r l).0)
        (launch_pending-Passes (start_ready_steps r l).0)
    where
      both :
          (a : Loop × Bool)
          → Passes r (l, false) a
          → (b : Loop × Bool) → Passes r (a.0, false) b
          → ((a.1 || b.1) ≡ true) × IsBelow r.steps l b.0
            ⊎ ((a.1 || b.1) ≡ false) × (b.0 ≡ l) × (a ≡ (l, false))
      both a (inl e) b (inl f) = inr (
        rw (ap (λ (t : Loop × Bool). t.1) e, ap (λ (t : Loop × Bool). t.1) f) refl,
        ap (λ (t : Loop × Bool). t.0) f ∙ ap (λ (t : Loop × Bool). t.0) e,
        e,
      )
      both a (inl e) b (inr (on, below)) = inl (
        rw (ap (λ (t : Loop × Bool). t.1) e, on) refl,
        subst (λ t. IsBelow r.steps t b.0) (ap (λ (t : Loop × Bool). t.0) e) below,
      )
      both a (inr (on, below)) b (inl f) = inl (
        rw on refl,
        subst (λ t. IsBelow r.steps l t) (sym (ap (λ (t : Loop × Bool). t.0) f)) below,
      )
      both a (inr (on, below)) b (inr (_, more)) =
          inl (rw on refl, IsBelow-trans r.steps l a.0 b.0 below more)
