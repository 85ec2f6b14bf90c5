-- ===== src/Scheduler.antt =====
-- The calculation of the scheduler's occurrences: dispatcher/src/scheduler.
pub mod Calendar
pub mod Days
pub mod Timezone
pub mod Search
pub mod Resolution
pub mod Definition
pub mod Calculator
pub mod Order
pub mod Padding
pub mod Loop
pub mod Cursor
pub mod Preview
pub mod Roundtrip
pub mod Paging
mod Examples
