-- ===== src/Dispatcher.antt =====
-- The dispatcher's durable queue of events, and the worker that submits them: dispatcher/src.
pub mod Events
pub mod Queue
pub mod Recovery
pub mod Worker
pub mod Phases
pub mod Moves
pub mod Attempts
pub mod Turns
pub mod Recovered
pub mod Restart
pub mod Histories
pub mod Accepted
mod Examples
