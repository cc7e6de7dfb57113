-- ===== src/Run/Dispatch.antt =====
-- pkg/cwlexec/loop.go: the passes over the plan that start steps and launch their invocations, and
-- the delivery of a finished invocation.
use cwl_go.Prelude.{
  ℕ, zero, suc, ◌+◌, ◌-◌, Bool, true, false, not, ◌&&◌, ◌||◌, Option, none, some, List, [], ◌∷◌,
  if◌then◌else◌, length, get_elem?, Error,
}
use cwl_go.Run.Types.{HandlerResult, RunJob, JobState, PlannedStep, Runner, Loop}
use cwl_go.Run.Loop.{is_unset, ready, start_step, has_capacity, launch, record_done}

-- A step that `startReadySteps` starts.
abbrev pub can_start : Loop → PlannedStep → Bool
can_start l step =
    not (l.steps step.id).started && (is_unset (l.steps step.id).status && ready l step.deps)

abbrev pub start_if : Runner → PlannedStep → Bool → Loop × Bool → Loop × Bool
start_if r step true (l, progressed) = (start_step r step l, true)
start_if r step false state = state

-- The loop of `startReadySteps`, with whether any step was started.
unfoldable pub start_steps : Runner → List PlannedStep → Loop × Bool → Loop × Bool
unfolding start_step ready
start_steps r [] state = state
start_steps r (step ∷ steps) (l, progressed) =
    start_steps r steps (start_if r step (can_start l step) (l, progressed))

unfoldable pub start_ready_steps : Runner → Loop → Loop × Bool
unfolding start_steps
start_ready_steps r l = if l.stopped then (l, false) else start_steps r r.steps (l, false)

abbrev pub is_waiting : Option JobState → Bool
is_waiting none = false
is_waiting (some js) = is_unset js.status

abbrev pub launch_if : Runner → PlannedStep → ℕ → Option RunJob → Loop × Bool → Loop × Bool
launch_if r step i none state = state
launch_if r step i (some job) (l, launched) =
    if not job.dispatched && is_waiting (get_elem? (l.steps step.id).jobs i)
    then (launch r step i job l, true)
    else (l, launched)

-- The loop of `launchStep` from invocation `i`, for `left` rounds. The last part is its result:
-- false where the cap is full or the step has ended.
unfoldable pub launch_from : Runner → PlannedStep → ℕ → ℕ → Loop × Bool → Loop × Bool × Bool
unfolding launch
launch_from r step zero i (l, launched) = (l, launched, true)
launch_from r step (suc left) i (l, launched) =
    let rest =
      launch_from r step left (i + 1)
        (launch_if r step i (get_elem? (l.jobs step.id) i) (l, launched)) in
    if has_capacity r l && is_unset (l.steps step.id).status then rest else (l, launched, false)

-- A step whose invocations `launchPending` looks at.
abbrev pub can_launch : Loop → PlannedStep → Bool
can_launch l step = (l.steps step.id).started && is_unset (l.steps step.id).status

unfoldable pub launch_steps : Runner → List PlannedStep → Loop × Bool → Loop × Bool
unfolding launch_from
launch_steps r [] state = state
launch_steps r (step ∷ steps) (l, launched) =
    let (after, any, go_on) = launch_from r step (length (l.jobs step.id)) 0 (l, launched) in
    let rest = launch_steps r steps (after, any) in
    let others = launch_steps r steps (l, launched) in
    if can_launch l step then (if go_on then rest else (after, any)) else others

unfoldable pub launch_pending : Runner → Loop → Loop × Bool
unfolding launch_steps
launch_pending r l = if l.stopped then (l, false) else launch_steps r r.steps (l, false)

-- One round of `dispatch`: the state after it, and whether it made progress.
unfoldable pub dispatch_round : Runner → Loop → Loop × Bool
unfolding start_ready_steps launch_pending
dispatch_round r l =
    let (begun, started) = start_ready_steps r l in
    let (after, launched) = launch_pending r begun in (after, started || launched)

-- `dispatch`, with fuel for its rounds.
unfoldable pub dispatch : ℕ → Runner → Loop → Option Loop
unfolding dispatch_round
dispatch zero r l = none
dispatch (suc fuel) r l =
    let (l', progressed) = dispatch_round r l in
    let rest = dispatch fuel r l' in if progressed then rest else some l'

-- What `execute` does with a finished invocation that it receives.
unfoldable pub deliver : Runner → PlannedStep → ℕ → HandlerResult → Option Error → Loop → Loop
unfolding record_done
deliver r step i result e l = record_done r step i result e (record l { running = l.running - 1 })
