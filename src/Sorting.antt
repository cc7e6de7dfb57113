-- ===== src/Sorting.antt =====
-- pkg/cwlexec/clt_sort.go: the order of command-line bindings.
pub mod Keys
mod Lexicographic
pub mod Laws
