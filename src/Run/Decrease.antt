-- ===== src/Run/Decrease.antt =====
-- Each pass over the plan that makes progress lowers the counts of `Measure`, and one that makes
-- none changes nothing.
use mathlib.Core.Path.{subst}
use text.Mathlib.TextPositions.{eq_refl}
use cwl_go.Prelude.{
  ℕ, ◌<◌, ◌≡◌, refl, sym, ap, ◌∙◌, ◌⊎◌, inl, inr, Bool, true, false, Option, none, some, List, [],
  ◌∷◌, arith, if-elim, get_elem?, Among, Error, Result, ok, err, Map,
}
use cwl_go.Prelude.Int.{ℤ}
use cwl_go.Value.{Value}
use cwl_go.Run.Types.{HandlerResult, RunJob, PlannedStep, Runner, Loop}
use cwl_go.Run.Outcomes.{outcome}
use cwl_go.Run.Loop.{
  start_step, start_resolved, start_expanded, start_gated, mark_started, adopt, gate_jobs, launch,
  launch_called, mark_launched, no_result, record_done, write_outcome,
}
use cwl_go.Run.Dispatch.{can_start, start_if, start_steps, start_ready_steps}
use cwl_go.Run.Frames.{start_step-Touches, launch-Touches}
use cwl_go.Run.Settled.{finish_if_complete-own}
use cwl_go.Run.Started.{
  StartedAt, fail_step-StartedAt, finish_if_complete-StartedAt, launch-StartedAt,
}
use cwl_go.Run.Measure.{
  IsBelow, IsBelow-trans, idle-lt, idle-le, pending-lt, unlaunched, unlaunched-dispatch,
  unlaunched-error,
}

module _ (r : Runner) where
  start_gated-StartedAt :
      (step : PlannedStep) (g : Loop × Option Error)
      → StartedAt r step g.0
      → StartedAt r step (start_gated r step g)
  unfolding start_gated
  start_gated-StartedAt step (l, some e) h = fail_step-StartedAt r step e l
  start_gated-StartedAt step (l, none) h = finish_if_complete-StartedAt r step l h

  start_expanded-StartedAt :
      (step : PlannedStep) (x : Result (List RunJob × Option (List ℤ))) (l : Loop)
      → StartedAt r step l
      → StartedAt r step (start_expanded r step x l)
  unfolding start_expanded
  start_expanded-StartedAt step (err e) l h = fail_step-StartedAt r step e l
  start_expanded-StartedAt step (ok (jobs, shape)) l h =
      start_gated-StartedAt step (gate_jobs r step (adopt step jobs shape l))
        (unfold gate_jobs in unfold adopt in rw (eq_refl step.id) h)

  start_resolved-StartedAt :
      (step : PlannedStep) (x : Result (Map Value)) (l : Loop)
      → StartedAt r step l
      → StartedAt r step (start_resolved r step x l)
  unfolding start_resolved
  start_resolved-StartedAt step (err e) l h = fail_step-StartedAt r step e l
  start_resolved-StartedAt step (ok inputs) l h = start_expanded-StartedAt step _ l h

  start_step-StartedAt : (step : PlannedStep) (l : Loop) → StartedAt r step (start_step r step l)
  unfolding start_step
  start_step-StartedAt step l =
      start_resolved-StartedAt step _ (mark_started step l)
        (unfold mark_started in rw (eq_refl step.id) refl)

  start-IsBelow :
      (step : PlannedStep) (l : Loop)
      → Among step r.steps
      → can_start l step ≡ true
      → IsBelow r.steps l (start_step r step l)
  start-IsBelow step l m can = inl (
      idle-lt step.id l (start_step r step l) (start_step-Touches r step l)
        (start_step-StartedAt step l) r.steps step m refl (ground arith))

  -- The jobs of a step whose call fails are marked with the error only.
  record_done-unlaunched :
      (step : PlannedStep) (i : ℕ) (result : HandlerResult) (e : Option Error) (l : Loop)
      → unlaunched ((record_done r step i result e l).jobs step.id) ≡ unlaunched (l.jobs step.id)
  unfolding record_done
  record_done-unlaunched step i result e l =
      ap unlaunched (finish_if_complete-own r step (write_outcome step i (outcome result e) l)).0
      ∙ unfold write_outcome in
        rw (eq_refl step.id) (unlaunched-error (l.jobs step.id) i (outcome result e).1)

  launch_called-unlaunched :
      (step : PlannedStep) (i : ℕ) (c : Result (Unit {0})) (l : Loop)
      → unlaunched ((launch_called r step i c l).jobs step.id) ≡ unlaunched (l.jobs step.id)
  unfolding launch_called
  launch_called-unlaunched step i (err e) l = record_done-unlaunched step i no_result (some e) l
  launch_called-unlaunched step i (ok _) l = refl

  mark_launched-unlaunched :
      (step : PlannedStep) (i : ℕ) (job : RunJob) (l : Loop)
      → get_elem? (l.jobs step.id) i ≡ some job
      → job.dispatched ≡ false
      → unlaunched ((mark_launched step i l).jobs step.id) < unlaunched (l.jobs step.id)
  unfolding mark_launched
  mark_launched-unlaunched step i job l e h =
      rw (eq_refl step.id) (unlaunched-dispatch (l.jobs step.id) i job e h)

  pub launch-IsBelow :
      (step : PlannedStep) (i : ℕ) (job : RunJob) (l : Loop)
      → Among step r.steps
      → (l.steps step.id).started ≡ true
      → get_elem? (l.jobs step.id) i ≡ some job
      → job.dispatched ≡ false
      → IsBelow r.steps l (launch r step i job l)
  launch-IsBelow step i job l m on e h =
      let t = launch-Touches r step i job l in
      let fewer : unlaunched ((launch r step i job l).jobs step.id) < unlaunched (l.jobs step.id) =
        unfold launch in
        rw (launch_called-unlaunched step i _ (mark_launched step i l))
          (mark_launched-unlaunched step i job l e h) in
      inr (
        idle-le step.id l (launch r step i job l) t (launch-StartedAt r step i job l on) r.steps,
        pending-lt step.id l (launch r step i job l) t fewer r.steps step m refl,
      )

  -- What a pass does from a state and a flag: nothing, or it raises the flag and goes below.
  abbrev pub Passes : Loop × Bool → Loop × Bool → Type 0
  Passes a b = (b ≡ a) ⊎ ((b.1 ≡ true) × IsBelow r.steps a.0 b.0)

  pub Passes-trans : (a b c : Loop × Bool) → Passes a b → Passes b c → Passes a c
  Passes-trans a b c (inl same) later = subst (λ t. Passes t c) same later
  Passes-trans a b c (inr below) (inl same) = subst (λ t. Passes a t) (sym same) (inr below)
  Passes-trans a b c (inr (_, first)) (inr (on, second)) =
      inr (on, IsBelow-trans r.steps a.0 b.0 c.0 first second)

  start_if-Passes :
      (step : PlannedStep) (can : Bool) (state : Loop × Bool)
      → Among step r.steps
      → can_start state.0 step ≡ can
      → Passes state (start_if r step can state)
  start_if-Passes step true (l, b) m e = inr (refl, start-IsBelow step l m e)
  start_if-Passes step false state m e = inl refl

  start_steps-Passes :
      (steps : List PlannedStep) (state : Loop × Bool)
      → ((step : PlannedStep) → Among step steps → Among step r.steps)
      → Passes state (start_steps r steps state)
  unfolding start_steps
  start_steps-Passes [] state h = inl refl
  start_steps-Passes (step ∷ steps) (l, b) h =
      let after = start_if r step (can_start l step) (l, b) in
      Passes-trans (l, b) after (start_steps r steps after)
        (start_if-Passes step (can_start l step) (l, b) (h step (inl refl)) refl)
        (start_steps-Passes steps after (λ s m. h s (inr m)))

  pub start_ready_steps-Passes : (l : Loop) → Passes (l, false) (start_ready_steps r l)
  unfolding start_ready_steps
  start_ready_steps-Passes l =
      if-elim (Passes (l, false)) l.stopped (l, false) (start_steps r r.steps (l, false))
        (λ _. inl refl) (λ _. start_steps-Passes r.steps (l, false) (λ s m. m))
