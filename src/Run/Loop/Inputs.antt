-- ===== src/Run/Loop/Inputs.antt =====
-- pkg/cwlexec/loop.go: the input object of a step that starts, and its invocations.
use cwl_go.Prelude.{
  String, false, Option, none, some, List, [], ◌∷◌, map, str_eq, if◌then◌else◌, Map, lookup, Result,
  ok, ◌>>=◌,
}
use cwl_go.Prelude.Int.{ℤ}
use cwl_go.Value.{Value, at_key}
use cwl_go.Scatter.Jobs.{ScatterMethod, dot, other, ScatterJob, expand_scatter}
use cwl_go.Run.Types.{unset, JobState, RunJob, PlannedStep, Runner, Loop, update}
use cwl_go.Run.Sinks.{resolve_inputs, apply_process_defaults}
use cwl_go.Run.Loop.Marks.{is_produced}

unfoldable pub source_value : Runner → Loop → String → Option Value
unfolding lookup
source_value r l id = elim (r.sources id) [
  | none ↦ none
  | some ref ↦
      if str_eq ref.step ""
      then some (at_key l.inputs ref.port)
      else if is_produced (l.steps ref.step).status
      then some (at_key (l.steps ref.step).outputs ref.port)
      else none
]

unfoldable pub step_inputs : Runner → PlannedStep → Loop → Result (Map Value)
unfolding resolve_inputs source_value apply_process_defaults
step_inputs r step l =
    if step.implicit
    then ok (apply_process_defaults step.defaults l.inputs)
    else resolve_inputs r.engine (source_value r l) step

abbrev pub run_job : ScatterJob → RunJob
run_job job = record { inputs = job.inputs; index = job.index; err = none; dispatched = false }

abbrev pub or_dot : ScatterMethod → ScatterMethod
or_dot (other m) = if str_eq m "" then dot else other m
or_dot m = m

-- The shape is `none` for a step that does not scatter.
unfoldable pub expand_jobs :
    List String → ScatterMethod → Map Value → Result (List RunJob × Option (List ℤ))
unfolding expand_scatter
expand_jobs [] method inputs =
    ok (record { inputs = inputs; index = []; err = none; dispatched = false } ∷ [], none)
expand_jobs (key ∷ keys) method inputs = do
  expanded ← expand_scatter inputs (key ∷ keys) (or_dot method)
  ok (map run_job expanded.jobs, some expanded.dims)

abbrev pub blank_job : RunJob → JobState
blank_job job = record {
  outputs = [];
  suspension = none;
  status = unset;
  error = none;
  index = job.index;
}

unfoldable pub adopt : PlannedStep → List RunJob → Option (List ℤ) → Loop → Loop
adopt step jobs shape l = record l {
  jobs = update l.jobs step.id jobs;
  steps =
      update l.steps step.id
        (record (l.steps step.id) { shape = shape; jobs = map blank_job jobs });
}
