-- ===== src/Run/Loop/Marks.antt =====
-- pkg/cwlexec/loop.go: what the loop reads of a status, and the failing of a step.
use cwl_go.Prelude.{String, Bool, true, false, not, ◌&&◌, ◌||◌, some, List, [], ◌∷◌, Error}
use cwl_go.Run.Types.{
  Status, unset, success, permanent_fail, skipped, suspended, StepState, PlannedStep, Runner, Loop,
  update,
}

abbrev pub is_unset : Status → Bool
is_unset unset = true
is_unset _ = false

-- `jobState.terminal`
abbrev pub is_terminal : Status → Bool
is_terminal unset = false
is_terminal suspended = false
is_terminal _ = true

-- `produced`, of a step's status
abbrev pub is_produced : Status → Bool
is_produced success = true
is_produced skipped = true
is_produced _ = false

unfoldable pub ready : Loop → List String → Bool
ready l [] = true
ready l (dep ∷ deps) = is_produced (l.steps dep).status && ready l deps

abbrev pub set_step : String → StepState → Loop → Loop
set_step id s l = record l { steps = update l.steps id s }

unfoldable pub fail_step_with : Runner → PlannedStep → Status → Error → Loop → Loop
fail_step_with r step status e l = record l {
  steps =
      update l.steps step.id
        (record (l.steps step.id) { started = true; status = status; error = some e });
  errs = update l.errs step.id (some e);
  stopped = l.stopped || not r.on_error_continue;
}

unfoldable pub fail_step : Runner → PlannedStep → Error → Loop → Loop
unfolding fail_step_with
fail_step r step e l = fail_step_with r step permanent_fail e l
