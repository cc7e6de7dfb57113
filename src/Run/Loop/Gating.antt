-- ===== src/Run/Loop/Gating.antt =====
-- pkg/cwlexec/loop.go, `gateJobs`: `valueFrom` and `when` of each invocation, before it may run.
use cwl_go.Prelude.{true, false, not, Option, none, some, List, ◌∷◌, if◌then◌else◌, Error, ok, err}
use cwl_go.Run.Types.{skipped, JobState, RunJob, PlannedStep, Runner, Loop, update}
use cwl_go.Run.Gates.{eval_when, skipped_outputs, apply_value_from}
use cwl_go.Run.Loop.Marks.{is_unset}

-- The gates of one invocation: the job and its record after them, and the error that ended them.
abbrev pub Gated : Type 0
Gated = RunJob × JobState × Option Error

unfoldable pub gate_job : Runner → PlannedStep → RunJob → JobState → Gated
unfolding apply_value_from eval_when skipped_outputs
gate_job r step job js = elim (apply_value_from r.engine step job.inputs) [
  | err e ↦ (job, js, some e)
  | ok resolved ↦
      let job' = record job { inputs = resolved } in
      elim (eval_when r.engine step.when resolved) [
        | err e ↦ (job', js, some e)
        | ok true ↦ (job', js, none)
        | ok false ↦
            (job', record js { status = skipped; outputs = skipped_outputs step.out }, none)
      ]
]

abbrev pub cons_gated :
    RunJob
    → JobState
    → List RunJob × List JobState × Option Error
    → List RunJob × List JobState × Option Error
cons_gated job js (jobs, states, e) = (job ∷ jobs, js ∷ states, e)

-- After the gates of one invocation: the untouched jobs behind an error, or the gated rest.
abbrev pub gate_next :
    List RunJob
    → List JobState
    → Gated
    → List RunJob × List JobState × Option Error
    → List RunJob × List JobState × Option Error
gate_next jobs states (job, js, some e) rest = (job ∷ jobs, js ∷ states, some e)
gate_next jobs states (job, js, none) rest = cons_gated job js rest

-- The loop of `gateJobs`: it stops at the first error, and passes over what has a status.
unfoldable pub gate_list :
    Runner → PlannedStep → List RunJob → List JobState → List RunJob × List JobState × Option Error
unfolding gate_job
gate_list r step (job ∷ jobs) (js ∷ states) =
    let rest = gate_list r step jobs states in
    if not (is_unset js.status)
    then cons_gated job js rest
    else gate_next jobs states (gate_job r step job js) rest
gate_list r step jobs states = (jobs, states, none)

unfoldable pub gate_jobs : Runner → PlannedStep → Loop → Loop × Option Error
unfolding gate_list
gate_jobs r step l =
    let (jobs, states, e) = gate_list r step (l.jobs step.id) (l.steps step.id).jobs in
    (
      record l {
        jobs = update l.jobs step.id jobs;
        steps = update l.steps step.id (record (l.steps step.id) { jobs = states });
      },
      e,
    )
