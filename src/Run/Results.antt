-- ===== src/Run/Results.antt =====
-- pkg/cwlexec/result.go: the outcome of a run.
use cwl_go.Prelude.{
  String, Option, none, some, List, [], ◌∷◌, ◌++◌, if◌then◌else◌, Map, insert, Error, Result, ok,
  err, ◌>>=◌, step_failed,
}
use cwl_go.Value.{Value, null}
use cwl_go.Run.Types.{
  Status, success, permanent_fail, suspended, Suspension, JobState, PlannedStep, Sink, Runner, Loop,
}
use cwl_go.Run.Sinks.{is_wired, sink_value}
use cwl_go.Run.Loop.{worse, Worst, source_value}

-- `RunResult`. The snapshot is the state itself.
pub record RunResult : Type 0 where
  pub outputs : Option (Map Value)
  pub status : Status
  pub suspensions : List Suspension
  pub state : Loop

-- `stepError`
abbrev pub step_error : Loop → String → Error
step_error l id = elim (l.errs id) [ some e ↦ e | none ↦ step_failed ]

-- The loop of `failure`.
unfoldable pub failure_from : Loop → List PlannedStep → Worst → Worst
failure_from l [] w = w
failure_from l (step ∷ steps) w =
    failure_from l steps (worse w (l.steps step.id).status (step_error l step.id))

unfoldable pub failure : Runner → Loop → Worst
unfolding failure_from
failure r l = failure_from l r.steps none

abbrev pub waiting_at : Status → Option Suspension → List Suspension
waiting_at suspended (some s) = s ∷ []
waiting_at _ _ = []

unfoldable pub job_suspensions : List JobState → List Suspension
job_suspensions [] = []
job_suspensions (js ∷ states) = waiting_at js.status js.suspension ++ job_suspensions states

unfoldable pub suspensions : Loop → List PlannedStep → List Suspension
unfolding job_suspensions
suspensions l [] = []
suspensions l (step ∷ steps) = job_suspensions (l.steps step.id).jobs ++ suspensions l steps

abbrev pub output_value : Runner → Loop → String → Sink → Result Value
unfolding sink_value source_value
output_value r l name wiring =
    if is_wired wiring.sources then sink_value r.engine (source_value r l) name wiring else ok null

unfoldable pub run_outputs : Runner → Loop → List (String × Sink) → Result (Map Value)
unfolding insert sink_value source_value
run_outputs r l [] = ok []
run_outputs r l ((name, wiring) ∷ rest) = do
  value ← output_value r l name wiring
  outputs ← run_outputs r l rest
  ok (insert name value outputs)

abbrev pub result_success : Loop → Result (Map Value) → RunResult × Option Error
result_success l (ok outputs) =
    (record { outputs = some outputs; status = success; suspensions = []; state = l }, none)
result_success l (err e) =
    (record { outputs = none; status = permanent_fail; suspensions = []; state = l }, some e)

abbrev pub result_waiting : Loop → List Suspension → Result (Map Value) → RunResult × Option Error
result_waiting l (s ∷ waiting) o =
    (record { outputs = none; status = suspended; suspensions = s ∷ waiting; state = l }, none)
result_waiting l [] o = result_success l o

abbrev pub result_by :
    Loop → Worst → List Suspension → Result (Map Value) → RunResult × Option Error
result_by l (some (status, e)) waiting o =
    (record { outputs = none; status = status; suspensions = []; state = l }, some e)
result_by l none waiting o = result_waiting l waiting o

-- `result`: the run's result, and its error.
unfoldable pub result : Runner → Loop → RunResult × Option Error
unfolding failure suspensions run_outputs
result r l = result_by l (failure r l) (suspensions l r.steps) (run_outputs r l r.outputs)
