-- ===== src/Reviewbot.antt =====
-- The package src/reviewbot: the review service.
pub mod Models
pub mod Findings
pub mod Diff
pub mod Reviewer
pub mod Store
pub mod Service
pub mod Worker
pub mod Samples
pub mod Witnesses
