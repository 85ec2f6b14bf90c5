-- ===== src/Updater.antt =====
-- The stable updater (updater/src).
pub mod State
pub mod Rows
pub mod Store
pub mod Notification
pub mod Mutation
pub mod Requests
pub mod Operations
pub mod Leases
pub mod Fenced
pub mod Delivery
pub mod Logs
pub mod Writer
pub mod History
pub mod Calls
pub mod Fencing
pub mod Returns
pub mod Completion
pub mod Exclusion
mod Examples
