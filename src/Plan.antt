-- ===== src/Plan.antt =====
-- pkg/cwlexec/plan.go: the edges of a plan. `Edges` and `Cycles` are the code.
pub mod Edges
pub mod Wired
pub mod Cycles
mod Ranked
mod Searched
pub mod Acyclic
pub mod Enough
pub mod Complete
mod Tests
