-- ===== src/Scatter.antt =====
-- pkg/cwlexec/scatter.go. `Jobs` and `Assembly` are the code; the others are about it.
pub mod Jobs
pub mod Ints
pub mod Assembly
mod Offset
pub mod Grid
mod Nest
mod Placed
pub mod Gather
mod Shapes
pub mod Expand
pub mod Inputs
pub mod Ranges
pub mod Keys
mod Tests
