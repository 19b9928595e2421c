-- ===== src/Executors/Laws.antt =====
-- The laws of the single routes, by what they are about.
pub mod Pipeline
pub mod Retry
pub mod Replay
pub mod Access
pub mod Lifetime
pub mod Choice
pub mod Beat
pub mod Session
pub mod Cancellation
pub mod Enrollment
pub mod Inputs
pub mod Profile
pub mod Release
