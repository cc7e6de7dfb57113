-- ===== src/Run/Loop.antt =====
-- pkg/cwlexec/loop.go: the operations of the event loop, as functions on its state.
mod Marks
mod Inputs
mod Gating
mod Finishing
mod Starting
mod Recording
unfoldable pub use Marks.*
unfoldable pub use Inputs.*
unfoldable pub use Gating.*
unfoldable pub use Finishing.*
unfoldable pub use Starting.*
unfoldable pub use Recording.*
