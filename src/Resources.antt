-- ===== src/Resources.antt =====
-- pkg/cwlexec/resources.go: the resources that an invocation gets.
pub mod Select
pub mod Selected
mod Tests
