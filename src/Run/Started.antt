-- ===== src/Run/Started.antt =====
-- A step that has started stays started.
use text.Mathlib.TextPositions.{eq_refl}
use cwl_go.Prelude.{
  ℕ, Map, ◌-◌, ◌≡◌, refl, true, Option, none, some, if-elim, Error, Result, ok, err,
}
use cwl_go.Value.{Value}
use cwl_go.Run.Types.{HandlerResult, RunJob, PlannedStep, Runner, Loop}
use cwl_go.Run.Loop.{
  fail_step, fail_step_with, gather_step, finish_gathered, finish_worst, Worst, finish,
  all_terminal, finish_if_complete, write_outcome, record_done, mark_launched, launch_called,
  launch, no_result,
}
use cwl_go.Run.Outcomes.{outcome}
use cwl_go.Run.Dispatch.{deliver}

module _ (r : Runner) (step : PlannedStep) where
  abbrev pub StartedAt : Loop → Type 0
  StartedAt l = (l.steps step.id).started ≡ true

  pub fail_step-StartedAt : (e : Error) (l : Loop) → StartedAt (fail_step r step e l)
  unfolding fail_step fail_step_with
  fail_step-StartedAt e l = rw (eq_refl step.id) refl

  finish_gathered-StartedAt :
      (o : Result (Map Value)) (l : Loop) → StartedAt l → StartedAt (finish_gathered r step o l)
  unfolding finish_gathered
  finish_gathered-StartedAt (err e) l h = fail_step-StartedAt e l
  finish_gathered-StartedAt (ok outputs) l h = rw (eq_refl step.id) h

  finish_worst-StartedAt :
      (w : Worst) (l : Loop) → StartedAt l → StartedAt (finish_worst r step w l)
  unfolding finish_worst fail_step_with
  finish_worst-StartedAt (some (status, e)) l h = rw (eq_refl step.id) refl
  finish_worst-StartedAt none l h =
      finish_gathered-StartedAt (gather_step step (l.steps step.id)) l h

  pub finish_if_complete-StartedAt :
      (l : Loop) → StartedAt l → StartedAt (finish_if_complete r step l)
  unfolding finish_if_complete finish
  finish_if_complete-StartedAt l h =
      if-elim StartedAt (all_terminal (l.steps step.id).jobs) _ l
        (λ _. finish_worst-StartedAt _ l h) (λ _. h)

  record_done-StartedAt :
      (i : ℕ) (result : HandlerResult) (e : Option Error) (l : Loop)
      → StartedAt l
      → StartedAt (record_done r step i result e l)
  unfolding record_done write_outcome
  record_done-StartedAt i result e l h =
      finish_if_complete-StartedAt (write_outcome step i (outcome result e) l)
        (rw (eq_refl step.id) h)

  launch_called-StartedAt :
      (i : ℕ) (c : Result (Unit {0})) (l : Loop)
      → StartedAt l
      → StartedAt (launch_called r step i c l)
  unfolding launch_called
  launch_called-StartedAt i (err e) l h = record_done-StartedAt i no_result (some e) l h
  launch_called-StartedAt i (ok _) l h = h

  pub launch-StartedAt :
      (i : ℕ) (job : RunJob) (l : Loop) → StartedAt l → StartedAt (launch r step i job l)
  unfolding launch mark_launched
  launch-StartedAt i job l h = launch_called-StartedAt i _ (mark_launched step i l) h

  pub deliver-StartedAt :
      (i : ℕ) (result : HandlerResult) (e : Option Error) (l : Loop)
      → StartedAt l
      → StartedAt (deliver r step i result e l)
  unfolding deliver
  deliver-StartedAt i result e l h =
      record_done-StartedAt i result e (record l { running = l.running - 1 }) h
