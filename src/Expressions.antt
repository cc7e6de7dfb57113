-- ===== src/Expressions.antt =====
-- pkg/cwlcore/expression_scan.go: the scanner that finds expressions in a text.
pub mod Scan
pub mod Sound
mod Steps
pub mod Scanned
mod Tests
