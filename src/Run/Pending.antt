-- ===== src/Run/Pending.antt =====
-- pkg/cwlexec/dispatch.go: the loop for a caller that runs the invocations itself.
use cwl_go.Prelude.{
  ℕ, zero, suc, ◌+◌, not, ◌&&◌, Option, none, some, List, [], ◌∷◌, ◌++◌, if◌then◌else◌, length,
  get_elem?, Error, Result, ok, err,
}
use cwl_go.Run.Types.{HandlerResult, RunJob, PlannedStep, Runner, Loop}
use cwl_go.Run.Loop.{is_unset, has_capacity, record_done, no_result, mark_launched}
use cwl_go.Run.Dispatch.{start_ready_steps, is_waiting, deliver}

-- An invocation is its step and its place; its identifier is its place in `dispatched`, so that
-- `nextID` is the length of the list.
pub record StepInvocation : Type 0 where
  pub step : PlannedStep
  pub index : ℕ

pub record DispatchLoop : Type 0 where
  pub loop : Loop
  pub dispatched : List StepInvocation

-- The state and the batch of identifiers, as `Pending` collects them.
abbrev pub Batch : Type 0
Batch = DispatchLoop × List ℕ

-- `buildInvocation`, by what `newCall` returned. A failed call does not mark the job.
unfoldable pub build_called : Runner → PlannedStep → ℕ → Result (Unit {0}) → Batch → Batch
unfolding record_done
build_called r step i (err e) (d, batch) =
    (record d { loop = record_done r step i no_result (some e) d.loop }, batch)
build_called r step i (ok _) (d, batch) = (
  record {
    loop = record (mark_launched step i d.loop) {
      running = (mark_launched step i d.loop).running + 1;
    };
    dispatched = d.dispatched ++ record { step = step; index = i } ∷ [];
  },
  batch ++ length d.dispatched ∷ [],
)

abbrev pub build_if : Runner → PlannedStep → ℕ → Option RunJob → Batch → Batch
build_if r step i none state = state
build_if r step i (some job) (d, batch) =
    if not job.dispatched && is_waiting (get_elem? (d.loop.steps step.id).jobs i)
    then build_called r step i (r.engine.new_call step job) (d, batch)
    else (d, batch)

-- The loop of `collectStep` from job `i`, for `left` rounds.
unfoldable pub collect_jobs : Runner → PlannedStep → ℕ → ℕ → Batch → Batch
unfolding build_called
collect_jobs r step zero i state = state
collect_jobs r step (suc left) i (d, batch) =
    let rest =
      collect_jobs r step left (i + 1)
        (build_if r step i (get_elem? (d.loop.jobs step.id) i) (d, batch)) in
    if has_capacity r d.loop && is_unset (d.loop.steps step.id).status then rest else (d, batch)

unfoldable pub collect_step : Runner → PlannedStep → Batch → Batch
unfolding collect_jobs
collect_step r step (d, batch) =
    if (d.loop.steps step.id).started && is_unset (d.loop.steps step.id).status
    then collect_jobs r step (length (d.loop.jobs step.id)) 0 (d, batch)
    else (d, batch)

unfoldable pub collect_steps : Runner → List PlannedStep → Batch → Batch
unfolding collect_step
collect_steps r [] state = state
collect_steps r (step ∷ steps) (d, batch) =
    let rest = collect_steps r steps (collect_step r step (d, batch)) in
    if has_capacity r d.loop then rest else (d, batch)

-- `Pending`: the state after it and the identifiers that it returns.
unfoldable pub pending_batch : Runner → DispatchLoop → Batch
unfolding start_ready_steps collect_steps
pending_batch r d = collect_steps r r.steps (record d { loop = (start_ready_steps r d.loop).0 }, [])

-- `Complete`; `none` where Go's index is out of range.
unfoldable pub complete :
    Runner → ℕ → HandlerResult → Option Error → DispatchLoop → Option DispatchLoop
unfolding deliver
complete r id result e d = elim (get_elem? d.dispatched id) [
  | none ↦ none
  | some inv ↦ some (record d { loop = deliver r inv.step inv.index result e d.loop })
]

abbrev pub in_flight : DispatchLoop → ℕ
in_flight d = d.loop.running
