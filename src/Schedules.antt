-- ===== src/Schedules.antt =====
-- The scheduler's repository: dispatcher/src/scheduler/repository.ts.
pub mod Rows
pub mod Texts
pub mod Store
pub mod Settle
pub mod Drain
pub mod Outboxes
pub mod Delivery
pub mod Receipts
pub mod Content
pub mod Finish
pub mod Settlement
pub mod Reconcile
pub mod Claims
pub mod Materialize
pub mod Occurrence
pub mod Runs
pub mod Transition
pub mod Reviews
pub mod Undelegated
pub mod Inputs
pub mod Authorization
pub mod Rowwise
pub mod Untouched
pub mod Quiet
pub mod Unsent
pub mod Custody
pub mod Recovered
pub mod Started
pub mod Taken
pub mod Finished
pub mod Outcomes
pub mod Decisions
pub mod Calls
pub mod Reviewed
pub mod Lost
pub mod Upsert
pub mod Fences
pub mod Marks
pub mod Once
mod Examples
mod OnceExamples
