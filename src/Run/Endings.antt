-- ===== src/Run/Endings.antt =====
-- The run of a workflow of two steps, which dispatch and the batches of invocations drive.
use cwl_go.Prelude.{◌≡◌, refl, false, [], inl, inr, lookup, insert}
use cwl_go.Run.Loop.{
  new_loop, ready, fail_step_with, fail_step, source_value, step_inputs, expand_jobs, adopt,
  gate_job, gate_list, gate_jobs, worst_job, gather_step, all_terminal, finish_gathered,
  finish_worst, finish, finish_if_complete, start_gated, start_expanded, start_resolved,
  mark_started, start_step, project_outputs, record_job, write_outcome, record_done, launch_called,
  mark_launched, launch,
}
use cwl_go.Run.Dispatch.{
  dispatch, can_start, start_steps, start_ready_steps, launch_from, launch_steps, launch_pending,
  dispatch_round, deliver,
}
use cwl_go.Run.Rounds.{IsRound, dispatch_round-IsRound}
use cwl_go.Run.Ends.{Ends, dispatch-Ends, dispatch-none_left}
use cwl_go.Run.Pending.{DispatchLoop, pending_batch}
use cwl_go.Run.Handed.{Hands, pending_batch-Hands}
use cwl_go.Run.Workflow.{runner, second, after_dispatch, first_dispatch}
use cwl_go.Run.Sinks.{
  read_sources, merge, non_null, select_picked, pick, sink_value, resolve_input, resolve_ins,
  fill_process_defaults, resolve_inputs,
}
use cwl_go.Run.Gates.{eval_when, skipped_outputs, value_from_ins, apply_value_from}
use cwl_go.Run.Outcomes.{validate_by, validate, outcome}

still_on : after_dispatch.stopped ≡ false
unfolding dispatch dispatch_round start_ready_steps launch_pending start_steps launch_steps
    launch_from launch mark_launched launch_called start_step mark_started start_resolved
    start_expanded start_gated finish_if_complete finish finish_worst finish_gathered gather_step
    all_terminal worst_job gate_jobs gate_list gate_job adopt expand_jobs step_inputs source_value
    ready apply_value_from value_from_ins eval_when resolve_inputs fill_process_defaults resolve_ins
    resolve_input sink_value pick select_picked non_null merge read_sources lookup insert
    record_done write_outcome record_job project_outputs outcome validate validate_by deliver
    fail_step fail_step_with skipped_outputs
still_on = refl

dispatch-Ends_example : Ends runner (new_loop [])
dispatch-Ends_example = dispatch-Ends runner (new_loop [])

dispatch_round-IsRound_example : IsRound runner (new_loop []) (dispatch_round runner (new_loop []))
dispatch_round-IsRound_example = dispatch_round-IsRound runner (new_loop [])

dispatch-none_left_example : can_start after_dispatch second ≡ false
dispatch-none_left_example =
    dispatch-none_left runner 5 (new_loop []) after_dispatch second first_dispatch still_on
      (inr (inl refl))

abbrev fresh : DispatchLoop
fresh = record { loop = new_loop []; dispatched = [] }

pending_batch-Hands_example : Hands runner (fresh, []) (pending_batch runner fresh)
pending_batch-Hands_example = pending_batch-Hands runner fresh
