-- ===== src/Jobs.antt =====
-- The job queue: submission, workers and cancellation over one database.
pub mod Model
pub mod Table
pub mod Cancellation
pub mod Worker
pub mod Recovery
pub mod Staging
pub mod Submission
pub mod Rows
pub mod Cancelling
pub mod Racing
pub mod Outcomes
pub mod RowRules
pub mod RecoveryRules
pub mod SubmissionRules
pub mod Invariant
pub mod Uniqueness
pub mod Activity
pub mod Retrying
pub mod Uploads
pub mod Reuse
mod Tests
