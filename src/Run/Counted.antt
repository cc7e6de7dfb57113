-- ===== src/Run/Counted.antt =====
-- Starting a step and recording an invocation leave the count of running handlers.
use cwl_go.Prelude.{
  ℕ, ◌≡◌, refl, ◌∙◌, Option, none, some, List, if-elim, Error, Result, ok, err, Map,
}
use cwl_go.Prelude.Int.{ℤ}
use cwl_go.Value.{Value}
use cwl_go.Run.Types.{HandlerResult, RunJob, PlannedStep, Runner, Loop}
use cwl_go.Run.Loop.{
  fail_step, fail_step_with, gather_step, finish_gathered, finish_worst, Worst, finish,
  all_terminal, finish_if_complete, start_gated, gate_jobs, adopt, start_expanded, start_resolved,
  start_step, mark_started, write_outcome, record_done,
}
use cwl_go.Run.Outcomes.{outcome}

module _ (r : Runner) (step : PlannedStep) where
  fail_step-running : (e : Error) (l : Loop) → (fail_step r step e l).running ≡ l.running
  unfolding fail_step fail_step_with
  fail_step-running e l = refl

  finish_gathered-running :
      (o : Result (Map Value)) (l : Loop) → (finish_gathered r step o l).running ≡ l.running
  unfolding finish_gathered
  finish_gathered-running (err e) l = fail_step-running e l
  finish_gathered-running (ok outputs) l = refl

  finish_worst-running : (w : Worst) (l : Loop) → (finish_worst r step w l).running ≡ l.running
  unfolding finish_worst fail_step_with
  finish_worst-running (some (status, e)) l = refl
  finish_worst-running none l = finish_gathered-running (gather_step step (l.steps step.id)) l

  finish_if_complete-running : (l : Loop) → (finish_if_complete r step l).running ≡ l.running
  unfolding finish_if_complete finish
  finish_if_complete-running l =
      if-elim (λ (t : Loop). t.running ≡ l.running) (all_terminal (l.steps step.id).jobs) _ l
        (λ _. finish_worst-running _ l) (λ _. refl)

  start_gated-running : (g : Loop × Option Error) → (start_gated r step g).running ≡ (g.0).running
  unfolding start_gated
  start_gated-running (l, some e) = fail_step-running e l
  start_gated-running (l, none) = finish_if_complete-running l

  start_expanded-running :
      (x : Result (List RunJob × Option (List ℤ))) (l : Loop)
      → (start_expanded r step x l).running ≡ l.running
  unfolding start_expanded
  start_expanded-running (err e) l = fail_step-running e l
  start_expanded-running (ok (jobs, shape)) l =
      start_gated-running (gate_jobs r step (adopt step jobs shape l))
      ∙ unfold gate_jobs in unfold adopt in refl

  start_resolved-running :
      (x : Result (Map Value)) (l : Loop) → (start_resolved r step x l).running ≡ l.running
  unfolding start_resolved
  start_resolved-running (err e) l = fail_step-running e l
  start_resolved-running (ok inputs) l = start_expanded-running _ l

  pub start_step-running : (l : Loop) → (start_step r step l).running ≡ l.running
  unfolding start_step
  start_step-running l =
      start_resolved-running _ (mark_started step l) ∙ unfold mark_started in refl

  pub record_done-running :
      (i : ℕ) (result : HandlerResult) (e : Option Error) (l : Loop)
      → (record_done r step i result e l).running ≡ l.running
  unfolding record_done
  record_done-running i result e l =
      finish_if_complete-running (write_outcome step i (outcome result e) l)
      ∙ unfold write_outcome in refl
