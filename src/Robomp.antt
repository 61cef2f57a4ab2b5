-- ===== src/Robomp.antt =====
-- The package src/robomp: the triage bot.
pub mod Accounts
pub mod Closures
pub mod Dispatch
pub mod Events
pub mod Json
pub mod ManualTriage
pub mod Mentions
pub mod Pool
pub mod Pragmas
pub mod Routing
pub mod Slots
pub mod Staging
pub mod Submissions
pub mod Tracking
pub mod Witnesses
