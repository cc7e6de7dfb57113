-- ===== src/Requirements.antt =====
-- pkg/cwlcore: which requirement of a class is in effect, and which are refused.
pub mod Scope
pub mod Check
mod Frames
pub mod Effective
pub mod Inherited
pub mod Gate
mod Tests
