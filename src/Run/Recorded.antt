-- ===== src/Run/Recorded.antt =====
-- Launching and recording keep a step settled.
use text.Mathlib.TextPositions.{eq_refl}
use mathlib.Core.Bool.{false≢true}
use cwl_go.Prelude.{
  ℕ, inl, inr, ◌-◌, ◌≡◌, refl, sym, ap, ◌∙◌, false, Option, none, some, List, modify,
  get_elem?-modify, Error, Result, ok, err,
}
use cwl_go.Run.Types.{HandlerResult, JobState, StepState, RunJob, PlannedStep, Runner, Loop}
use cwl_go.Run.Loop.{
  is_unset, write_outcome, record_done, record_job, mark_error, mark_launched, launch_called,
  launch, no_result,
}
use cwl_go.Run.Outcomes.{outcome}
use cwl_go.Run.Dispatch.{deliver}
use cwl_go.Run.Settled.{InFlight, IsOpen, IsSettled, outcome-set, finish_if_complete-IsSettled}

mark_error-dispatched :
    (e : Option Error) (job : RunJob) → (mark_error e job).dispatched ≡ job.dispatched
mark_error-dispatched none job = refl
mark_error-dispatched (some e) job = refl

record_job-status :
    (step : PlannedStep) (o : HandlerResult × Option Error) (js : JobState)
    → (record_job step o js).status ≡ (o.0).status
unfolding record_job
record_job-status step o js = refl

module _ (step : PlannedStep) (s : StepState) (jobs : List RunJob) (i : ℕ)
    (o : HandlerResult × Option Error) (set : is_unset (o.0).status ≡ false) where
  abbrev written : StepState
  written = record s { jobs = modify s.jobs i (record_job step o) }

  -- The recorded invocation is in flight no more, and every other one is as before.
  InFlight-written :
      (k : ℕ) → InFlight written (modify jobs i (mark_error o.1)) k → InFlight s jobs k
  InFlight-written k f =
      let (job, has_job, which_job) = get_elem?-modify jobs i (mark_error o.1) k f.has_job in
      let (state, has_state, which_state) =
        get_elem?-modify s.jobs i (record_job step o) k f.has_state in
      record {
        job = job;
        state = state;
        has_job = has_job;
        has_state = has_state;
        dispatched = elim which_job [
          | inl (_, e) ↦
              sym (mark_error-dispatched o.1 job)
              ∙ ap (λ (t : RunJob). t.dispatched) e
              ∙ f.dispatched
          | inr e ↦ ap (λ (t : RunJob). t.dispatched) e ∙ f.dispatched
        ];
        open_state = elim which_state [
          | inl (_, e) ↦ absurd (
              false≢true (
                sym set
                ∙ ap is_unset (sym (record_job-status step o state))
                ∙ ap (λ (t : JobState). is_unset t.status) e
                ∙ f.open_state))
          | inr e ↦ ap (λ (t : JobState). is_unset t.status) e ∙ f.open_state
        ];
      }

  written-IsSettled : IsSettled s jobs → IsSettled written (modify jobs i (mark_error o.1))
  written-IsSettled h = record { at = λ k f. h.at k (InFlight-written k f) }

module _ (r : Runner) (step : PlannedStep) where
  abbrev pub SettledAt : Loop → Type 0
  SettledAt l = IsSettled (l.steps step.id) (l.jobs step.id)

  pub record_done-SettledAt :
      (i : ℕ) (result : HandlerResult) (e : Option Error) (l : Loop)
      → SettledAt l
      → SettledAt (record_done r step i result e l)
  unfolding record_done write_outcome
  record_done-SettledAt i result e l h =
      finish_if_complete-IsSettled r step (write_outcome step i (outcome result e) l) (
        rw (eq_refl step.id) (
          written-IsSettled step (l.steps step.id) (l.jobs step.id) i (outcome result e)
            (outcome-set result e) h))

  launch_called-SettledAt :
      (i : ℕ) (c : Result (Unit {0})) (l : Loop)
      → SettledAt l
      → SettledAt (launch_called r step i c l)
  unfolding launch_called
  launch_called-SettledAt i (err e) l h = record_done-SettledAt i no_result (some e) l h
  launch_called-SettledAt i (ok _) l h = h

  pub launch-SettledAt :
      (i : ℕ) (job : RunJob) (l : Loop)
      → IsOpen (l.steps step.id)
      → SettledAt (launch r step i job l)
  unfolding launch mark_launched
  launch-SettledAt i job l open_step =
      launch_called-SettledAt i _ (mark_launched step i l) (record { at = λ k f. open_step })

  pub deliver-SettledAt :
      (i : ℕ) (result : HandlerResult) (e : Option Error) (l : Loop)
      → SettledAt l
      → SettledAt (deliver r step i result e l)
  unfolding deliver
  deliver-SettledAt i result e l h =
      record_done-SettledAt i result e (record l { running = l.running - 1 }) h
