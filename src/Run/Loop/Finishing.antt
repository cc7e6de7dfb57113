-- ===== src/Run/Loop/Finishing.antt =====
-- pkg/cwlexec/loop.go: the outcome of a step whose invocations have all ended.
use cwl_go.Prelude.{
  ℕ, suc, ◌+◌, Bool, true, false, ◌&&◌, Option, none, some, List, [], ◌∷◌, map, if◌then◌else◌,
  get_elem?, Map, Error, Result, ok, err, step_failed,
}
use cwl_go.Prelude.Int.{ℤ, pos}
use cwl_go.Value.{Value}
use cwl_go.Scatter.Jobs.{other, ScatterPlan}
use cwl_go.Scatter.Assembly.{JobOutputs, gather}
use cwl_go.Run.Types.{
  Status, success, permanent_fail, temporary_fail, skipped, JobState, StepState, RunJob,
  PlannedStep, Runner, Loop,
}
use cwl_go.Run.Loop.Marks.{is_terminal, set_step, fail_step_with, fail_step}

-- `jobError`: the live error of an invocation, or the recorded one behind `ErrStepFailed`.
abbrev pub job_error : Option RunJob → Error
job_error none = step_failed
job_error (some job) = elim job.err [ some e ↦ e | none ↦ step_failed ]

abbrev pub Worst : Type 0
Worst = Option (Status × Error)

-- A failure replaces none, and a permanent one replaces a temporary one.
abbrev pub worse : Worst → Status → Error → Worst
worse none permanent_fail e = some (permanent_fail, e)
worse none temporary_fail e = some (temporary_fail, e)
worse (some (temporary_fail, _)) permanent_fail e = some (permanent_fail, e)
worse w _ e = w

unfoldable pub worst_job : List RunJob → ℕ → List JobState → Worst → Worst
worst_job jobs i [] w = w
worst_job jobs i (js ∷ states) w =
    worst_job jobs (i + 1) states (worse w js.status (job_error (get_elem? jobs i)))

abbrev first_skipped : List JobState → Bool
first_skipped [] = false
first_skipped (js ∷ _) = elim js.status [ skipped ↦ true | _ ↦ false ]

-- `jobsOutcome` where no invocation failed.
abbrev pub fine_status : StepState → Status
fine_status s = elim s.shape [
  | some _ ↦ success
  | none ↦ if first_skipped s.jobs then skipped else success
]

abbrev number_outputs : ℕ → List JobState → JobOutputs
number_outputs i [] = []
number_outputs i (js ∷ states) = (pos i, js.outputs) ∷ number_outputs (suc i) states

abbrev gather_plan : List ℤ → List JobState → ScatterPlan
gather_plan dims states = record {
  method = other "";
  keys = [];
  jobs = map (λ (js : JobState). record { inputs = []; index = js.index }) states;
  dims = dims;
}

abbrev first_outputs : List JobState → Map Value
first_outputs [] = []
first_outputs (js ∷ _) = js.outputs

unfoldable pub gather_step : PlannedStep → StepState → Result (Map Value)
unfolding gather
gather_step step s = elim s.shape [
  | none ↦ ok (first_outputs s.jobs)
  | some dims ↦ gather (gather_plan dims s.jobs) (number_outputs 0 s.jobs) step.out
]

unfoldable pub all_terminal : List JobState → Bool
all_terminal [] = true
all_terminal (js ∷ states) = is_terminal js.status && all_terminal states

unfoldable pub finish_gathered : Runner → PlannedStep → Result (Map Value) → Loop → Loop
unfolding fail_step
finish_gathered r step (err e) l = fail_step r step e l
finish_gathered r step (ok outputs) l =
    let s = l.steps step.id in
    set_step step.id (record s { status = fine_status s; outputs = outputs }) l

unfoldable pub finish_worst : Runner → PlannedStep → Worst → Loop → Loop
unfolding finish_gathered gather_step fail_step_with
finish_worst r step (some (status, e)) l = fail_step_with r step status e l
finish_worst r step none l = finish_gathered r step (gather_step step (l.steps step.id)) l

-- `finishIfComplete` once every invocation has a final outcome.
unfoldable pub finish : Runner → PlannedStep → Loop → Loop
unfolding finish_worst worst_job
finish r step l = finish_worst r step (worst_job (l.jobs step.id) 0 (l.steps step.id).jobs none) l

unfoldable pub finish_if_complete : Runner → PlannedStep → Loop → Loop
unfolding all_terminal finish
finish_if_complete r step l = if all_terminal (l.steps step.id).jobs then finish r step l else l
