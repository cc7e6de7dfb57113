-- ===== src/Run/Frames.antt =====
-- Each operation of the loop touches one step: the records and the jobs of the others stay.
use cwl_go.Prelude.{
  ℕ, Map, inl, inr, ◌-◌, String, ◌≡◌, refl, ◌∙◌, false, Option, none, some, List, str_eq,
  Bool-cases, Error, Result, ok, err,
}
use cwl_go.Prelude.Int.{ℤ}
use cwl_go.Value.{Value}
use cwl_go.Run.Types.{HandlerResult, StepState, RunJob, PlannedStep, Runner, Loop}
use cwl_go.Run.Loop.{
  fail_step_with, fail_step, adopt, gate_jobs, Worst, gather_step, all_terminal, finish,
  finish_worst, finish_gathered, start_resolved, mark_started, mark_launched, launch_called,
  finish_if_complete, start_gated, start_expanded, start_step, set_step, write_outcome, record_done,
  no_result, launch,
}
use cwl_go.Run.Outcomes.{outcome}
use cwl_go.Run.Dispatch.{deliver}

-- `u` has the records and the jobs that `l` has, but perhaps for the step named `id`.
pub record Touches (id : String) (l u : Loop) : Type 0 where
  pub steps : (j : String) → str_eq id j ≡ false → u.steps j ≡ l.steps j
  pub jobs : (j : String) → str_eq id j ≡ false → u.jobs j ≡ l.jobs j

Touches-refl : (id : String) (l : Loop) → Touches id l l
Touches-refl id l = record { steps = λ j h. refl; jobs = λ j h. refl }

Touches-trans : {id : String} {l m u : Loop} → Touches id l m → Touches id m u → Touches id l u
Touches-trans a b = record {
  steps = λ j h. b.steps j h ∙ a.steps j h;
  jobs = λ j h. b.jobs j h ∙ a.jobs j h;
}

module _ (r : Runner) (step : PlannedStep) where
  set_step-Touches : (s : StepState) (l : Loop) → Touches step.id l (set_step step.id s l)
  set_step-Touches s l = record { steps = λ j h. rw h; jobs = λ j h. refl }

  fail_step-Touches : (e : Error) (l : Loop) → Touches step.id l (fail_step r step e l)
  unfolding fail_step fail_step_with
  fail_step-Touches e l = record { steps = λ j h. rw h; jobs = λ j h. refl }

  finish-Touches : (w : Worst) (l : Loop) → Touches step.id l (finish_worst r step w l)
  unfolding finish_worst fail_step_with
  finish-Touches (some (status, e)) l = record { steps = λ j h. rw h; jobs = λ j h. refl }
  finish-Touches none l = gathered (gather_step step (l.steps step.id)) l
    where
      gathered :
          (o : Result (Map Value)) (l : Loop) → Touches step.id l (finish_gathered r step o l)
      gathered (err e) l = fail_step-Touches e l
      gathered (ok outputs) l = set_step-Touches _ l

  finish_if_complete-Touches : (l : Loop) → Touches step.id l (finish_if_complete r step l)
  unfolding finish_if_complete finish
  finish_if_complete-Touches l = elim (Bool-cases (all_terminal (l.steps step.id).jobs)) [
    | inl done ↦ rw done (finish-Touches _ l)
    | inr more ↦ rw more (Touches-refl step.id l)
  ]

  adopt-Touches :
      (jobs : List RunJob) (shape : Option (List ℤ)) (l : Loop)
      → Touches step.id l (adopt step jobs shape l)
  unfolding adopt
  adopt-Touches jobs shape l = record { steps = λ j h. rw h; jobs = λ j h. rw h }

  gate_jobs-Touches : (l : Loop) → Touches step.id l (gate_jobs r step l).0
  unfolding gate_jobs
  gate_jobs-Touches l = record { steps = λ j h. rw h; jobs = λ j h. rw h }

  start_gated-Touches :
      (l : Loop) (g : Loop × Option Error)
      → Touches step.id l g.0
      → Touches step.id l (start_gated r step g)
  unfolding start_gated
  start_gated-Touches l (m, some e) t = Touches-trans t (fail_step-Touches e m)
  start_gated-Touches l (m, none) t = Touches-trans t (finish_if_complete-Touches m)

  start_expanded-Touches :
      (x : Result (List RunJob × Option (List ℤ))) (l : Loop)
      → Touches step.id l (start_expanded r step x l)
  unfolding start_expanded
  start_expanded-Touches (err e) l = fail_step-Touches e l
  start_expanded-Touches (ok (jobs, shape)) l =
      let adopted = adopt step jobs shape l in
      start_gated-Touches l (gate_jobs r step adopted)
        (Touches-trans (adopt-Touches jobs shape l) (gate_jobs-Touches adopted))

  start_resolved-Touches :
      (x : Result (Map Value)) (l : Loop) → Touches step.id l (start_resolved r step x l)
  unfolding start_resolved
  start_resolved-Touches (err e) l = fail_step-Touches e l
  start_resolved-Touches (ok inputs) l = start_expanded-Touches _ l

  pub start_step-Touches : (l : Loop) → Touches step.id l (start_step r step l)
  unfolding start_step mark_started
  start_step-Touches l = Touches-trans (set_step-Touches _ l) (start_resolved-Touches _ _)

  write_outcome-Touches :
      (i : ℕ) (o : HandlerResult × Option Error) (l : Loop)
      → Touches step.id l (write_outcome step i o l)
  unfolding write_outcome
  write_outcome-Touches i o l = record { steps = λ j h. rw h; jobs = λ j h. rw h }

  record_done-Touches :
      (i : ℕ) (result : HandlerResult) (e : Option Error) (l : Loop)
      → Touches step.id l (record_done r step i result e l)
  unfolding record_done
  record_done-Touches i result e l =
      Touches-trans (write_outcome-Touches i (outcome result e) l) (finish_if_complete-Touches _)

  launch_called-Touches :
      (i : ℕ) (c : Result (Unit {0})) (l : Loop) → Touches step.id l (launch_called r step i c l)
  unfolding launch_called
  launch_called-Touches i (err e) l = record_done-Touches i no_result (some e) l
  launch_called-Touches i (ok _) l = record { steps = λ j h. refl; jobs = λ j h. refl }

  mark_launched-Touches : (i : ℕ) (l : Loop) → Touches step.id l (mark_launched step i l)
  unfolding mark_launched
  mark_launched-Touches i l = record { steps = λ j h. refl; jobs = λ j h. rw h }

  pub launch-Touches : (i : ℕ) (job : RunJob) (l : Loop) → Touches step.id l (launch r step i job l)
  unfolding launch
  launch-Touches i job l = Touches-trans (mark_launched-Touches i l) (launch_called-Touches i _ _)

  pub deliver-Touches :
      (i : ℕ) (result : HandlerResult) (e : Option Error) (l : Loop)
      → Touches step.id l (deliver r step i result e l)
  unfolding deliver
  deliver-Touches i result e l =
      Touches-trans {m = record l { running = l.running - 1 }}
        (record { steps = λ j h. refl; jobs = λ j h. refl }) (record_done-Touches i result e _)
