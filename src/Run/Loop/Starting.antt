-- ===== src/Run/Loop/Starting.antt =====
-- pkg/cwlexec/loop.go, `startStep`.
use cwl_go.Prelude.{true, Option, none, some, List, Map, Error, Result, ok, err}
use cwl_go.Prelude.Int.{ℤ}
use cwl_go.Value.{Value}
use cwl_go.Run.Types.{RunJob, PlannedStep, Runner, Loop}
use cwl_go.Run.Loop.Marks.{set_step, fail_step}
use cwl_go.Run.Loop.Inputs.{step_inputs, expand_jobs, adopt}
use cwl_go.Run.Loop.Gating.{gate_jobs}
use cwl_go.Run.Loop.Finishing.{finish_if_complete}

unfoldable pub start_gated : Runner → PlannedStep → Loop × Option Error → Loop
unfolding fail_step finish_if_complete
start_gated r step (l, some e) = fail_step r step e l
start_gated r step (l, none) = finish_if_complete r step l

unfoldable pub start_expanded :
    Runner → PlannedStep → Result (List RunJob × Option (List ℤ)) → Loop → Loop
unfolding fail_step adopt gate_jobs start_gated
start_expanded r step (err e) l = fail_step r step e l
start_expanded r step (ok (jobs, shape)) l =
    start_gated r step (gate_jobs r step (adopt step jobs shape l))

unfoldable pub start_resolved : Runner → PlannedStep → Result (Map Value) → Loop → Loop
unfolding fail_step start_expanded expand_jobs
start_resolved r step (err e) l = fail_step r step e l
start_resolved r step (ok inputs) l =
    start_expanded r step (expand_jobs step.scatter step.method inputs) l

unfoldable pub mark_started : PlannedStep → Loop → Loop
mark_started step l = set_step step.id (record (l.steps step.id) { started = true }) l

unfoldable pub start_step : Runner → PlannedStep → Loop → Loop
unfolding start_resolved mark_started step_inputs
start_step r step l =
    let marked = mark_started step l in start_resolved r step (step_inputs r step marked) marked
