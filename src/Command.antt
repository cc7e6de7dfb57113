-- ===== src/Command.antt =====
-- pkg/cwlexec: the command line of a tool. `Values`, `Choice`, `Bindings`, `Walk`,
-- `Render`, `Line` and `Shell` are the code.
pub mod Values
pub mod Choice
pub mod Bindings
pub mod Walk
pub mod Render
pub mod Shell
pub mod Line
pub mod Words
pub mod Quoted
pub mod Keyed
pub mod Ahead
pub mod Sorted
mod Tests
