-- ===== src/Run.antt =====
-- pkg/cwlexec: the run of a workflow. `Types`, `Sinks`, `Gates`, `Loop` and `Outcomes` are the
-- code; the others are about it.
pub mod Types
pub mod Sinks
pub mod Gates
pub mod Outcomes
pub mod Loop
pub mod Dispatch
mod Frames
mod Settled
mod Recorded
mod Started
pub mod Moves
pub mod Invariant
pub mod Order
mod Effects
pub mod Limits
pub mod Results
pub mod Resumed
pub mod Priority
pub mod Rounds
pub mod Injected
mod Measure
mod Decrease
mod Passes
pub mod Ends
mod Counted
pub mod Pending
pub mod Handed
pub mod Sourced
pub mod Picked
pub mod Workflow
mod Tests
mod Endings
mod Samples
