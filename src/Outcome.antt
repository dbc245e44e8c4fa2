-- ===== src/Outcome.antt =====
-- What a call of the program comes to, with the error type of netzer-core/src/error.rs: a Rust
-- `Result`, or a panic. `diverge` is no Rust value: it says that a loop of the model met the end of
-- its fuel. The children hold the panicking slices, the loops, and their laws.
mod Defs
mod Loop
mod Slices
mod Safety
mod Endings
unfoldable pub use Defs.*
unfoldable pub use Loop.*
pub use Endings.*
pub use Safety.*
pub use Slices.*
