-- ===== src/Run/Tests.antt =====
-- Runs of a workflow of two steps, the second one on the output of the first.
use cwl_go.Prelude.{
  inl, inr, ◌≡◌, refl, true, false, none, some, [], ◌∷◌, ok, ◌≤◌, lookup, insert, contains, foreign,
  get_elem?,
}
use cwl_go.Run.Types.{permanent_fail}
use cwl_go.Run.Sinks.{
  read_sources, merge, non_null, select_picked, pick, sink_value, resolve_input, resolve_ins,
  fill_process_defaults, resolve_inputs,
}
use cwl_go.Run.Gates.{eval_when, skipped_outputs, value_from_ins, apply_value_from}
use cwl_go.Run.Outcomes.{is_failure, validate_by, validate, outcome}
use cwl_go.Run.Loop.{
  is_unset, new_loop, ready, fail_step_with, fail_step, source_value, step_inputs, expand_jobs,
  adopt, gate_job, gate_list, gate_jobs, worst_job, gather_step, all_terminal, finish_gathered,
  finish_worst, finish, finish_if_complete, start_gated, start_expanded, start_resolved,
  mark_started, start_step, project_outputs, record_job, write_outcome, record_done, launch_called,
  mark_launched, launch,
}
use cwl_go.Run.Dispatch.{
  start_steps, start_ready_steps, launch_from, launch_steps, launch_pending, dispatch_round,
  dispatch, deliver,
}
use cwl_go.Run.Results.{result}
use cwl_go.Run.Resumed.{
  index_eq, any_undeclared, check_ports, check_declared_outputs, by_id, find_suspended,
  suspended_at, resume_by, write_job, resume_job, inject_one,
}
use cwl_go.Run.Priority.{IsConsistent, result-status, result-IsConsistent, outcome-validate}
use cwl_go.Run.Injected.{IsResumed, inject_one-IsResumed}
use cwl_go.Run.Sourced.{IsSourced, AreRead, read_sources-ready}
use cwl_go.Run.Settled.{InFlight}
use cwl_go.Run.Moves.{arrive, Moves, next, Moves-trans, dispatch-Moves}
use cwl_go.Run.Invariant.{AllSettled, Moves-AllSettled, outcome_frozen}
use cwl_go.Run.Order.{IsBehind, started-IsBehind, new_loop-AllSettled, reached-AllSettled}
use cwl_go.Run.Limits.{running_below_cap, failure_stops}
use cwl_go.Run.Workflow.{
  first, runner, after_dispatch, produced, after_first, after_second, failed, after_failure,
  after_wait, resumed, after_resume, or_job, or_state, is_some, is_ok, or_new_lem, or_same_lem,
  first_dispatch,
}

second_dispatch_ends : is_some (dispatch 5 runner after_first) ≡ true
unfolding dispatch dispatch_round start_ready_steps launch_pending start_steps launch_steps
    launch_from launch mark_launched launch_called start_step mark_started start_resolved
    start_expanded start_gated finish_if_complete finish finish_worst finish_gathered gather_step
    all_terminal worst_job gate_jobs gate_list gate_job adopt expand_jobs step_inputs source_value
    ready apply_value_from value_from_ins eval_when resolve_inputs fill_process_defaults resolve_ins
    resolve_input sink_value pick select_picked non_null merge read_sources lookup insert
    record_done write_outcome record_job project_outputs outcome validate validate_by deliver
    fail_step fail_step_with skipped_outputs
second_dispatch_ends = refl

second_dispatch : dispatch 5 runner after_first ≡ some after_second
second_dispatch = or_new_lem (dispatch 5 runner after_first) second_dispatch_ends

first-Moves : Moves runner (new_loop []) after_dispatch
first-Moves = dispatch-Moves runner 5 (new_loop []) after_dispatch first_dispatch

flight : InFlight (after_dispatch.steps "first") (after_dispatch.jobs "first") 0
unfolding dispatch dispatch_round start_ready_steps launch_pending start_steps launch_steps
    launch_from launch mark_launched launch_called start_step mark_started start_resolved
    start_expanded start_gated finish_if_complete finish finish_worst finish_gathered gather_step
    all_terminal worst_job gate_jobs gate_list gate_job adopt expand_jobs step_inputs source_value
    ready apply_value_from value_from_ins eval_when resolve_inputs fill_process_defaults resolve_ins
    resolve_input sink_value pick select_picked non_null merge read_sources lookup insert
    record_done write_outcome record_job project_outputs outcome validate validate_by deliver
    fail_step fail_step_with skipped_outputs
flight = record {
  job = or_job (get_elem? (after_dispatch.jobs "first") 0);
  state = or_state (get_elem? (after_dispatch.steps "first").jobs 0);
  has_job = refl;
  has_state = refl;
  dispatched = refl;
  open_state = refl;
}

to_first : Moves runner (new_loop []) after_first
to_first = next first-Moves (arrive first 0 produced none flight refl)

to_failure : Moves runner (new_loop []) after_failure
to_failure = next first-Moves (arrive first 0 failed (some (foreign 0)) flight refl)

from_first_on : Moves runner after_first after_second
from_first_on = dispatch-Moves runner 5 after_first after_second second_dispatch

to_second : Moves runner (new_loop []) after_second
to_second = Moves-trans to_first from_first_on

second_started : (after_second.steps "second").started ≡ true
unfolding dispatch dispatch_round start_ready_steps launch_pending start_steps launch_steps
    launch_from launch mark_launched launch_called start_step mark_started start_resolved
    start_expanded start_gated finish_if_complete finish finish_worst finish_gathered gather_step
    all_terminal worst_job gate_jobs gate_list gate_job adopt expand_jobs step_inputs source_value
    ready apply_value_from value_from_ins eval_when resolve_inputs fill_process_defaults resolve_ins
    resolve_input sink_value pick select_picked non_null merge read_sources lookup insert
    record_done write_outcome record_job project_outputs outcome validate validate_by deliver
    fail_step fail_step_with skipped_outputs
second_started = refl

first_done : is_unset (after_first.steps "first").status ≡ false
unfolding dispatch dispatch_round start_ready_steps launch_pending start_steps launch_steps
    launch_from launch mark_launched launch_called start_step mark_started start_resolved
    start_expanded start_gated finish_if_complete finish finish_worst finish_gathered gather_step
    all_terminal worst_job gate_jobs gate_list gate_job adopt expand_jobs step_inputs source_value
    ready apply_value_from value_from_ins eval_when resolve_inputs fill_process_defaults resolve_ins
    resolve_input sink_value pick select_picked non_null merge read_sources lookup insert
    record_done write_outcome record_job project_outputs outcome validate validate_by deliver
    fail_step fail_step_with skipped_outputs
first_done = refl

first_failed : is_failure (after_failure.steps "first").status ≡ true
unfolding dispatch dispatch_round start_ready_steps launch_pending start_steps launch_steps
    launch_from launch mark_launched launch_called start_step mark_started start_resolved
    start_expanded start_gated finish_if_complete finish finish_worst finish_gathered gather_step
    all_terminal worst_job gate_jobs gate_list gate_job adopt expand_jobs step_inputs source_value
    ready apply_value_from value_from_ins eval_when resolve_inputs fill_process_defaults resolve_ins
    resolve_input sink_value pick select_picked non_null merge read_sources lookup insert
    record_done write_outcome record_job project_outputs outcome validate validate_by deliver
    fail_step fail_step_with skipped_outputs
first_failed = refl

first_settled : AllSettled after_first
first_settled = Moves-AllSettled runner (new_loop []) after_first to_first (new_loop-AllSettled [])

started-IsBehind_example : IsBehind runner after_second "second"
started-IsBehind_example = started-IsBehind runner [] after_second "second" to_second second_started

outcome_frozen_example : after_second.steps "first" ≡ after_first.steps "first"
outcome_frozen_example =
    outcome_frozen runner after_first after_second "first" from_first_on first_settled first_done

reached-AllSettled_example : AllSettled after_second
reached-AllSettled_example = reached-AllSettled runner [] after_second to_second

running_below_cap_example : after_second.running ≤ 1
running_below_cap_example = running_below_cap runner 0 [] after_second to_second refl

failure_stops_example : dispatch 5 runner after_failure ≡ some after_failure
failure_stops_example = failure_stops runner [] after_failure "first" 4 to_failure refl first_failed

result-status_example : (result runner after_failure).0.status ≡ permanent_fail
unfolding dispatch dispatch_round start_ready_steps launch_pending start_steps launch_steps
    launch_from launch mark_launched launch_called start_step mark_started start_resolved
    start_expanded start_gated finish_if_complete finish finish_worst finish_gathered gather_step
    all_terminal worst_job gate_jobs gate_list gate_job adopt expand_jobs step_inputs source_value
    ready apply_value_from value_from_ins eval_when resolve_inputs fill_process_defaults resolve_ins
    resolve_input sink_value pick select_picked non_null merge read_sources lookup insert
    record_done write_outcome record_job project_outputs outcome validate validate_by deliver
    fail_step fail_step_with skipped_outputs
result-status_example = result-status runner after_failure

injected_ends : is_ok (inject_one runner resumed after_wait) ≡ true
unfolding dispatch dispatch_round start_ready_steps launch_pending start_steps launch_steps
    launch_from launch mark_launched launch_called start_step mark_started start_resolved
    start_expanded start_gated finish_if_complete finish finish_worst finish_gathered gather_step
    all_terminal worst_job gate_jobs gate_list gate_job adopt expand_jobs step_inputs source_value
    ready apply_value_from value_from_ins eval_when resolve_inputs fill_process_defaults resolve_ins
    resolve_input sink_value pick select_picked non_null merge read_sources lookup insert
    record_done write_outcome record_job project_outputs outcome validate validate_by deliver
    fail_step fail_step_with skipped_outputs inject_one suspended_at by_id find_suspended index_eq
    resume_job resume_by check_declared_outputs any_undeclared check_ports contains write_job
injected_ends = refl

injected : inject_one runner resumed after_wait ≡ ok after_resume
injected = or_same_lem (inject_one runner resumed after_wait) injected_ends

inject_one-IsResumed_example : IsResumed resumed after_wait after_resume
inject_one-IsResumed_example = inject_one-IsResumed runner resumed after_wait after_resume injected

outcome-validate_example :
    (validate (outcome produced none).0 ≡ ok tt)
    × (outcome (outcome produced none).0 none ≡ ((outcome produced none).0, none))
outcome-validate_example = outcome-validate produced none

first_ready : ready after_first ("first" ∷ []) ≡ true
unfolding dispatch dispatch_round start_ready_steps launch_pending start_steps launch_steps
    launch_from launch mark_launched launch_called start_step mark_started start_resolved
    start_expanded start_gated finish_if_complete finish finish_worst finish_gathered gather_step
    all_terminal worst_job gate_jobs gate_list gate_job adopt expand_jobs step_inputs ready
    apply_value_from value_from_ins eval_when resolve_inputs fill_process_defaults resolve_ins
    lookup insert record_done write_outcome record_job project_outputs outcome validate validate_by
    deliver
first_ready = refl

first-IsSourced : IsSourced runner ("first" ∷ []) "first/out"
first-IsSourced = record {
  ref = record { step = "first"; port = "out" };
  known = refl;
  behind = inr (inl refl);
}

read_sources-ready_example : AreRead (source_value runner after_first) ("first/out" ∷ [])
read_sources-ready_example =
    read_sources-ready runner after_first ("first" ∷ []) ("first/out" ∷ []) first_ready
      (first-IsSourced, tt)

result-IsConsistent_example : IsConsistent (result runner after_failure).0
result-IsConsistent_example = result-IsConsistent runner after_failure
