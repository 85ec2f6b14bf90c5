-- ===== src/Lib.antt =====
-- Dona runs one secretary agent behind a durable queue. The dispatcher (dispatcher/) keeps events
-- in a SQLite database and submits them, one at a time, to an agent that Herdr runs; its scheduler
-- (dispatcher/src/scheduler/) calculates when schedules are due and enqueues events and reminders;
-- Slack (sources/slack/) is a source of events. The updater (updater/) is a separate controller
-- that takes a release from a plan over an approval to its activation, keeps each request in its own
-- database, and reports the end of each request to the dispatcher by an outbox.
--
-- The parts and the files:
--   Prelude, Exec     lists, tests and tables; methods that change a store and may throw, relations
--                     of the store before and after (Exec.Leads) and outcomes (Exec.Ends).
--   Updater           updater/src/database.ts, state-machine.ts and the rows of types.ts. State is
--                     the transition table, Rows and Store the tables, Mutation the private
--                     transitionInternal and completeInternal, Requests createPlan and approve,
--                     Leases claim and the two reconciliations, Fenced the mutations that name a
--                     fence, Delivery and Notification the outbox, Operations the operations on the
--                     runtime, Logs the table of captures, Writer the writer lease, Calls any call
--                     of a method. The other files are proofs, named for what they are about.
--   Scheduler         dispatcher/src/scheduler: Calendar is calendar.ts, Timezone timezone.ts,
--                     Definition domain.ts with the types of recurrence.ts, Calculator
--                     calculator.ts. Days, Search, Resolution, Padding, Order, Loop, Cursor,
--                     Preview, Paging and Roundtrip are proofs.
--   Dispatcher        Events and Queue are the rows and methods of dispatcher/src/database.ts that
--                     move an event, Recovery those after a restart and for its own results, Worker
--                     is dispatch of dispatcher/src/worker.ts, Histories its actions with what others
--                     do between them. Phases, Moves, Attempts, Turns, Recovered, Restart and
--                     Accepted are proofs.
--   Schedules         dispatcher/src/scheduler/repository.ts over the tables of schema.ts. Rows and
--                     Store are the rows, reads and checks, Settle and Drain suppress,
--                     completeIfDrained and expireSchedule, Outboxes expireUnsent, markAmbiguous and
--                     recover, Delivery insertOutbox and claimBatch, Finish and Settlement
--                     requestStarted and finishWrite, Reconcile the calls around them, Claims the
--                     claims of schedules, Materialize and Occurrence materialize, Runs setRunState,
--                     Transition transition, Reviews and Undelegated the runs under review and
--                     without a job, Inputs and Authorization create and update, Texts, Receipts
--                     and Content the patterns, Calls nine methods in any order. Rowwise,
--                     Untouched, Quiet, Unsent, Custody, Recovered, Started, Taken, Finished,
--                     Outcomes, Decisions, Reviewed, Lost, Upsert, Fences, Marks and Once are proofs.
-- A function or column has its name of the source in snake case.
--
-- Choices of the models:
--   * A method of a database is a function of the tables, given and returned. A throw leaves what was
--     written before it, unless a transaction around it rolls back. A table is the list of its rows,
--     the oldest first; an UPDATE changes each row that its WHERE selects, and a check of `changes`
--     counts them. SQLite runs one transaction at a time, so a call is one step; where a method
--     awaits, the tables may be changed by others between its parts.
--   * A time is its count of milliseconds: texts of one format in UTC are ordered as their times. In
--     Schedules it is a count of whole seconds, since `utc` lets no other text pass. In
--     Updater and Dispatcher it counts from any origin, in Scheduler from 0000-03-01, so that a day,
--     a date and a time are natural numbers; an earlier instant is no instant of the public range.
--   * A column `*_json` of the updater holds the value that its text encodes, since canonicalJson
--     gives different texts to different values of one type; in Dispatcher it holds a text. The ids
--     of the outbox are the pairs of request and fence that they are made of, and an occurrence's key
--     the pair of schedule and instant. Texts are cut by units of UTF-16, as the source cuts them.
--   * Parameters stand for what is not of the repository: SHA-256 and the ids of new rows, the zones
--     of moment-timezone, the answers of Herdr and of the file system, paths and messages. An offset
--     of a zone is assumed to be less than a day where a theorem says so.
--   * The tables of job groups, job results and schedules are an interface of the event queue
--     (Events.Others): its methods may change those tables and throw, and not the events.
--   * In Schedules a column of JSON is the value that it holds. An INSERT throws where it meets a key
--     of its table. A row that a foreign key guarantees and that is missing is a TypeError. The
--     recurrence of a revision is its text with what JSON.parse finds in it, and the codecs, the
--     fingerprint and the reading of result and reply texts are parameters. The loop of claimBatch has
--     the limit as its count of turns.
--   * The binary search of offsetAt has the length of its interval as fuel, which each turn makes
--     smaller by one at least; the loop over days has the count of days.
--
-- Not modelled: migrations and pragmas, listings for display, HTTP, the command line, processes and
-- files; the controller and the release store of the updater; the jobs, the enqueue and the results
-- of events; of the repository of the scheduler the listings, the purge and the retention; the zod schemas,
-- whose inputs are taken as parsed;
-- the source for Slack. `updated_at` of the updater's controller row is left out: nothing reads it.
pub mod Prelude
pub mod Exec
pub mod Updater
pub mod Scheduler
pub mod Dispatcher
pub mod Schedules
