-- ===== src/Run/Effects.antt =====
-- What each operation does to the count of running handlers, to the stop flag and to failures.
use mathlib.Core.Bool.{false≢true}
use text.Mathlib.TextPositions.{eq_refl}
use cwl_go.Prelude.{
  ℕ, Map, String, ◌+◌, ◌-◌, ◌≤◌, ◌≡◌, ◌⊎◌, inl, inr, refl, sym, ◌∙◌, true, false, Option, none,
  some, List, if-elim, arith, Error, Result, ok, err,
}
use cwl_go.Prelude.Int.{ℤ}
use cwl_go.Value.{Value}
use cwl_go.Run.Types.{Status, HandlerResult, StepState, RunJob, PlannedStep, Runner, Loop, update}
use cwl_go.Run.Loop.{
  fail_step, fail_step_with, finish_gathered, finish_worst, Worst, finish, all_terminal,
  finish_if_complete, start_gated, gate_jobs, adopt, start_expanded, start_resolved, start_step,
  mark_started, write_outcome, record_done, mark_launched, launch_called, launch, no_result,
  fine_status,
}
use cwl_go.Run.Outcomes.{outcome, is_failure}
use cwl_go.Run.Dispatch.{deliver}

-- The count does not grow, the stop flag stays, and where the policy is to stop a new failure of
-- the step raises it.
pub record Effect (r : Runner) (step : PlannedStep) (l u : Loop) : Type 0 where
  pub running : u.running ≤ l.running
  pub stopped : l.stopped ≡ true → u.stopped ≡ true
  pub fails :
      r.on_error_continue ≡ false
      → is_failure (u.steps step.id).status ≡ true
      → (is_failure (l.steps step.id).status ≡ true) ⊎ (u.stopped ≡ true)

module _ (r : Runner) (step : PlannedStep) where
  Effect-trans : (l m u : Loop) → Effect r step l m → Effect r step m u → Effect r step l u
  Effect-trans l m u a b = record {
    running = omega (arith, a.running, b.running);
    stopped = λ h. b.stopped (a.stopped h);
    fails = λ policy failed. elim (b.fails policy failed) [
      | inl old ↦ elim (a.fails policy old) [
        | inl older ↦ inl older
        | inr halted ↦ inr (b.stopped halted)
      ]
      | inr halted ↦ inr halted
    ];
  }

  Effect-refl : (l : Loop) → Effect r step l l
  Effect-refl l = record {
    running = omega arith;
    stopped = λ h. h;
    fails = λ policy failed. inl failed;
  }

  fail_step_with-Effect :
      (status : Status) (e : Error) (l : Loop) → Effect r step l (fail_step_with r step status e l)
  unfolding fail_step_with
  fail_step_with-Effect status e l = record {
    running = omega arith;
    stopped = λ h. ground arith;
    fails = λ policy failed. inr (ground arith);
  }

  fail_step-Effect : (e : Error) (l : Loop) → Effect r step l (fail_step r step e l)
  unfolding fail_step
  fail_step-Effect e l = fail_step_with-Effect _ e l

  fine_status-fine : (s : StepState) → is_failure (fine_status s) ≡ false
  fine_status-fine s = ground arith

  finish_gathered-Effect :
      (o : Result (Map Value)) (l : Loop) → Effect r step l (finish_gathered r step o l)
  unfolding finish_gathered
  finish_gathered-Effect (err e) l = fail_step-Effect e l
  finish_gathered-Effect (ok outputs) l = record {
    running = omega arith;
    stopped = λ h. h;
    fails = λ policy.
        rw (eq_refl step.id)
          (λ failed. absurd (false≢true (sym (fine_status-fine (l.steps step.id)) ∙ failed)));
  }

  finish_worst-Effect : (w : Worst) (l : Loop) → Effect r step l (finish_worst r step w l)
  unfolding finish_worst
  finish_worst-Effect (some (status, e)) l = fail_step_with-Effect status e l
  finish_worst-Effect none l = finish_gathered-Effect _ l

  finish_if_complete-Effect : (l : Loop) → Effect r step l (finish_if_complete r step l)
  unfolding finish_if_complete finish
  finish_if_complete-Effect l =
      if-elim (Effect r step l) (all_terminal (l.steps step.id).jobs) _ l
        (λ _. finish_worst-Effect _ l) (λ _. Effect-refl l)

  -- A write to the records of jobs and to the jobs of the step changes none of the three.
  quiet_write :
      (l : Loop) (jobs : String → List RunJob) (s : StepState)
      → s.status ≡ (l.steps step.id).status
      → Effect r step l (record l { jobs = jobs; steps = update l.steps step.id s })
  quiet_write l jobs s same = record {
    running = omega arith;
    stopped = λ h. h;
    fails = λ policy. rw (eq_refl step.id, same) (λ failed. inl failed);
  }

  start_gated-Effect : (g : Loop × Option Error) → Effect r step g.0 (start_gated r step g)
  unfolding start_gated
  start_gated-Effect (l, some e) = fail_step-Effect e l
  start_gated-Effect (l, none) = finish_if_complete-Effect l

  start_expanded-Effect :
      (x : Result (List RunJob × Option (List ℤ))) (l : Loop)
      → Effect r step l (start_expanded r step x l)
  unfolding start_expanded
  start_expanded-Effect (err e) l = fail_step-Effect e l
  start_expanded-Effect (ok (jobs, shape)) l =
      let adopted = adopt step jobs shape l in
      let gated = gate_jobs r step adopted in
      Effect-trans l adopted _ (unfold adopt in quiet_write l _ _ refl) (
        Effect-trans adopted gated.0 _ (unfold gate_jobs in quiet_write adopted _ _ refl)
          (start_gated-Effect gated))

  start_resolved-Effect :
      (x : Result (Map Value)) (l : Loop) → Effect r step l (start_resolved r step x l)
  unfolding start_resolved
  start_resolved-Effect (err e) l = fail_step-Effect e l
  start_resolved-Effect (ok inputs) l = start_expanded-Effect _ l

  mark_started-Effect : (l : Loop) → Effect r step l (mark_started step l)
  unfolding mark_started
  mark_started-Effect l = quiet_write l l.jobs _ refl

  pub start_step-Effect : (l : Loop) → Effect r step l (start_step r step l)
  unfolding start_step
  start_step-Effect l =
      Effect-trans l (mark_started step l) _ (mark_started-Effect l) (start_resolved-Effect _ _)

  pub record_done-Effect :
      (i : ℕ) (result : HandlerResult) (e : Option Error) (l : Loop)
      → Effect r step l (record_done r step i result e l)
  unfolding record_done write_outcome
  record_done-Effect i result e l =
      Effect-trans l (write_outcome step i (outcome result e) l) _ (quiet_write l _ _ refl)
        (finish_if_complete-Effect _)

  mark_launched-Effect : (i : ℕ) (l : Loop) → Effect r step l (mark_launched step i l)
  unfolding mark_launched
  mark_launched-Effect i l = record {
    running = omega arith;
    stopped = λ h. h;
    fails = λ policy failed. inl failed;
  }

  -- A launch is the same but for one more handler, and only where its call was built.
  pub record Launched (l u : Loop) : Type 0 where
    pub more : ℕ
    pub at_most_one : more ≤ 1
    pub base : Loop
    pub effect : Effect r step l base
    pub raised : u ≡ record base { running = base.running + more }

  launch_called-Launched :
      (i : ℕ) (c : Result (Unit {0})) (l m : Loop)
      → Effect r step l m
      → Launched l (launch_called r step i c m)
  unfolding launch_called
  launch_called-Launched i (err e) l m h = record {
    more = 0;
    at_most_one = omega arith;
    base = record_done r step i no_result (some e) m;
    effect = Effect-trans l m _ h (record_done-Effect i no_result (some e) m);
    raised = ground arith;
  }
  launch_called-Launched i (ok _) l m h = record {
    more = 1;
    at_most_one = omega arith;
    base = m;
    effect = h;
    raised = refl;
  }

  pub launch-Launched : (i : ℕ) (job : RunJob) (l : Loop) → Launched l (launch r step i job l)
  unfolding launch
  launch-Launched i job l =
      launch_called-Launched i _ l (mark_launched step i l) (mark_launched-Effect i l)

  pub deliver-Effect :
      (i : ℕ) (result : HandlerResult) (e : Option Error) (l : Loop)
      → Effect r step l (deliver r step i result e l)
  unfolding deliver
  deliver-Effect i result e l =
      Effect-trans l (record l { running = l.running - 1 }) _
        (record { running = omega arith; stopped = λ h. h; fails = λ policy failed. inl failed })
        (record_done-Effect i result e _)
