-- ===== src/Run/Workflow.antt =====
-- A workflow of two steps, the second behind the first, and states of its run.
use cwl_go.Prelude.{
  ◌≡◌, refl, Bool, true, false, Option, none, some, List, [], ◌∷◌, ok, err, String, lookup, insert,
  foreign, Result,
}
use cwl_go.Prelude.Int.{pos}
use cwl_go.Value.{null, int, bool}
use cwl_go.Scatter.Jobs.{dot}
use cwl_go.Run.Types.{
  success, permanent_fail, suspended, HandlerResult, RunJob, JobState, StepInput, PlannedStep,
  Engine, Runner, Loop, no_merge, no_pick,
}
use cwl_go.Run.Sinks.{
  read_sources, merge, non_null, select_picked, pick, sink_value, resolve_input, resolve_ins,
  fill_process_defaults, resolve_inputs,
}
use cwl_go.Run.Gates.{eval_when, skipped_outputs, value_from_ins, apply_value_from}
use cwl_go.Run.Outcomes.{validate_by, validate, outcome}
use cwl_go.Run.Loop.{
  new_loop, ready, fail_step_with, fail_step, source_value, step_inputs, expand_jobs, adopt,
  gate_job, gate_list, gate_jobs, worst_job, gather_step, all_terminal, finish_gathered,
  finish_worst, finish, finish_if_complete, start_gated, start_expanded, start_resolved,
  mark_started, start_step, project_outputs, record_job, write_outcome, record_done, launch_called,
  mark_launched, launch,
}
use cwl_go.Run.Dispatch.{
  start_steps, start_ready_steps, launch_from, launch_steps, launch_pending, dispatch_round,
  dispatch, deliver,
}
use cwl_go.Run.Resumed.{ResumedStep, inject_one}

abbrev pub engine : Engine
engine = record {
  eval = λ _ _ _. ok (bool true);
  step_default = λ _ _. ok null;
  load = λ _ _ v. ok v;
  normalize = λ object. object;
  check_secondary = λ _ _. ok tt;
  fill_listings = λ v. v;
  check_type = λ _ _. ok tt;
  check_output = λ _ _ _. ok tt;
  new_call = λ _ _. ok tt;
}

abbrev pub step_named : String → List StepInput → List String → PlannedStep
step_named id ins deps = record {
  id = id;
  ins = ins;
  out = "out" ∷ [];
  scatter = [];
  method = dot;
  deps = deps;
  when = "";
  implicit = false;
  defaults = [];
  run_defaults = [];
}

abbrev pub from_first : StepInput
from_first = record {
  name = "x";
  link_merge = no_merge;
  pick_value = no_pick;
  sources = "first/out" ∷ [];
  value_from = "";
}

abbrev pub first : PlannedStep
first = step_named "first" [] []

abbrev pub second : PlannedStep
second = step_named "second" (from_first ∷ []) ("first" ∷ [])

abbrev pub runner : Runner
runner = record {
  engine = engine;
  steps = first ∷ second ∷ [];
  sources = λ _. some (record { step = "first"; port = "out" });
  outputs = [];
  on_error_continue = false;
  max_parallel = pos 1;
}

abbrev pub or_new : Option Loop → Loop
or_new none = new_loop []
or_new (some l) = l

-- The first step is in flight.
abbrev pub after_dispatch : Loop
after_dispatch = or_new (dispatch 5 runner (new_loop []))

abbrev pub produced : HandlerResult
produced = record {
  status = success;
  outputs = some (("out", int (pos 7)) ∷ []);
  suspension = none;
}

abbrev pub after_first : Loop
after_first = deliver runner first 0 produced none after_dispatch

-- The second step is in flight.
abbrev pub after_second : Loop
after_second = or_new (dispatch 5 runner after_first)

abbrev pub failed : HandlerResult
failed = record { status = permanent_fail; outputs = none; suspension = none }

abbrev pub after_failure : Loop
after_failure = deliver runner first 0 failed (some (foreign 0)) after_dispatch

abbrev pub waiting : HandlerResult
waiting = record {
  status = suspended;
  outputs = none;
  suspension = some (record { step_id = "first"; scatter_index = []; token = "t"; payload = [] });
}

abbrev pub after_wait : Loop
after_wait = deliver runner first 0 waiting none after_dispatch

abbrev pub resumed : ResumedStep
resumed = record {
  outputs = ("out", int (pos 7)) ∷ [];
  step_id = "first";
  status = success;
  scatter_index = [];
}

abbrev pub or_same : Result Loop → Loop
or_same (ok l) = l
or_same (err _) = after_wait

abbrev pub after_resume : Loop
after_resume = or_same (inject_one runner resumed after_wait)

abbrev pub or_job : Option RunJob → RunJob
or_job (some job) = job
or_job none = record { inputs = []; index = []; err = none; dispatched = false }

abbrev pub or_state : Option JobState → JobState
or_state (some js) = js
or_state none = record {
  outputs = [];
  suspension = none;
  status = success;
  error = none;
  index = [];
}

abbrev pub is_some : Option Loop → Bool
is_some none = false
is_some (some _) = true

pub or_new_lem : (o : Option Loop) → is_some o ≡ true → o ≡ some (or_new o)
or_new_lem none h = cc
or_new_lem (some l) h = refl

abbrev pub is_ok : Result Loop → Bool
is_ok (ok _) = true
is_ok (err _) = false

pub or_same_lem : (o : Result Loop) → is_ok o ≡ true → o ≡ ok (or_same o)
or_same_lem (ok l) h = refl
or_same_lem (err e) h = cc

first_dispatch_ends : is_some (dispatch 5 runner (new_loop [])) ≡ true
unfolding dispatch dispatch_round start_ready_steps launch_pending start_steps launch_steps
    launch_from launch mark_launched launch_called start_step mark_started start_resolved
    start_expanded start_gated finish_if_complete finish finish_worst finish_gathered gather_step
    all_terminal worst_job gate_jobs gate_list gate_job adopt expand_jobs step_inputs source_value
    ready apply_value_from value_from_ins eval_when resolve_inputs fill_process_defaults resolve_ins
    resolve_input sink_value pick select_picked non_null merge read_sources lookup insert
    record_done write_outcome record_job project_outputs outcome validate validate_by deliver
    fail_step fail_step_with skipped_outputs
first_dispatch_ends = refl

pub first_dispatch : dispatch 5 runner (new_loop []) ≡ some after_dispatch
first_dispatch = or_new_lem (dispatch 5 runner (new_loop [])) first_dispatch_ends
