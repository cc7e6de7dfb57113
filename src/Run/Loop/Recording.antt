-- ===== src/Run/Loop/Recording.antt =====
-- pkg/cwlexec/loop.go: the record of a finished invocation, and the launch of one.
use cwl_go.Prelude.{
  ℕ, zero, ◌+◌, String, Bool, true, false, Option, none, some, List, [], ◌∷◌, ltb, modify, Map,
  lookup, insert, Error, Result, ok, err,
}
use cwl_go.Prelude.Int.{ℤ, pos, negsuc}
use cwl_go.Value.{Value, at_key}
use cwl_go.Run.Types.{
  unset, success, HandlerResult, JobState, RunJob, PlannedStep, Runner, Loop, blank_step, update,
}
use cwl_go.Run.Outcomes.{outcome}
use cwl_go.Run.Loop.Finishing.{finish_if_complete}

-- `projectOutputs`
unfoldable pub project_outputs : List String → Map Value → Map Value
unfolding lookup insert
project_outputs [] outputs = []
project_outputs (port ∷ ports) outputs =
    insert port (at_key outputs port) (project_outputs ports outputs)

abbrev or_empty : Option (Map Value) → Map Value
or_empty none = []
or_empty (some m) = m

-- What `record` writes to the record of the invocation. It keeps the old error where there is none.
unfoldable pub record_job : PlannedStep → HandlerResult × Option Error → JobState → JobState
unfolding project_outputs
record_job step (result, e) js = record js {
  status = result.status;
  suspension = result.suspension;
  error = elim e [ some e ↦ some e | none ↦ js.error ];
  outputs = elim result.status [
    | success ↦ project_outputs step.out (or_empty result.outputs)
    | _ ↦ js.outputs
  ];
}

abbrev pub mark_error : Option Error → RunJob → RunJob
mark_error none job = job
mark_error (some e) job = record job { err = some e }

-- The writes of `record`, before it looks whether the step is complete.
unfoldable pub write_outcome : PlannedStep → ℕ → HandlerResult × Option Error → Loop → Loop
unfolding record_job
write_outcome step i o l = record l {
  jobs = update l.jobs step.id (modify (l.jobs step.id) i (mark_error o.1));
  steps =
      update l.steps step.id
        (record (l.steps step.id) { jobs = modify (l.steps step.id).jobs i (record_job step o) });
}

-- `record`
unfoldable pub record_done : Runner → PlannedStep → ℕ → HandlerResult → Option Error → Loop → Loop
unfolding outcome write_outcome finish_if_complete
record_done r step i result e l =
    finish_if_complete r step (write_outcome step i (outcome result e) l)

-- `MaxParallel` below one means no bound.
abbrev pub below_cap : ℤ → ℕ → Bool
below_cap (pos zero) running = true
below_cap (pos cap) running = ltb running cap
below_cap (negsuc _) running = true

abbrev pub has_capacity : Runner → Loop → Bool
has_capacity r l = below_cap r.max_parallel l.running

abbrev pub no_result : HandlerResult
no_result = record { status = unset; outputs = none; suspension = none }

abbrev pub mark_dispatched : RunJob → RunJob
mark_dispatched job = record job { dispatched = true }

unfoldable pub launch_called : Runner → PlannedStep → ℕ → Result (Unit {0}) → Loop → Loop
unfolding record_done
launch_called r step i (err e) l = record_done r step i no_result (some e) l
launch_called r step i (ok _) l = record l { running = l.running + 1 }

unfoldable pub mark_launched : PlannedStep → ℕ → Loop → Loop
mark_launched step i l = record l {
  jobs = update l.jobs step.id (modify (l.jobs step.id) i mark_dispatched);
}

-- `launch`: the handler runs on its own until its result is delivered, or the call cannot be built.
unfoldable pub launch : Runner → PlannedStep → ℕ → RunJob → Loop → Loop
unfolding launch_called mark_launched
launch r step i job l =
    launch_called r step i (r.engine.new_call step (mark_dispatched job)) (mark_launched step i l)

-- `newRunState` and `newLoop`
abbrev pub new_loop : Map Value → Loop
new_loop inputs = record {
  steps = λ _. blank_step;
  inputs = inputs;
  jobs = λ _. [];
  errs = λ _. none;
  running = 0;
  stopped = false;
}
