-- ===== src/Tests.antt =====
-- Runs of the model at concrete inputs.
mod Calls
mod Data
mod Gate
mod Graph
mod Pairs
mod Feeds
mod SignIn
mod Staff
mod Talk
pub use Data.*
