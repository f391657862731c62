-- ===== src/Lib.antt =====
-- bun-boss is a job queue on a relational database. Its library code (src/) sends SQL statements to a
-- table of jobs; workers poll the table, run handlers and settle jobs; a supervisor expires, deletes
-- and dead letters them. This development models the parts that carry this logic as functions on a
-- table that is a list of rows, and proves what they promise.
--
-- The program's parts, and the files that model them (paths are from the repository's root):
-- - Job: a row of the job table, with its states and policies (src/plans.ts: JOB_STATES,
--   QUEUE_POLICIES, createEnumJobState, createTableJob).
-- - Store: the table and its unique indexes (createPrimaryKeyJob, createIndexJob*), each a set of slots
--   that no two rows may share; a statement that breaks one fails as a whole. Store/Unique and
--   Store/Keys hold what preserves them and what the primary key gives.
-- - Commands: complete, cancel, resume, retry, touch and the deletions, by id (src/plans.ts,
--   src/manager.ts).
-- - Fail: failJobsBody and its callers as one statement; Fail/Split the same as several statements, as
--   src/manager.ts runs it on databases without multi-mutation statements; Fail/Backoff the wait before a
--   retry; Fail/Inserts, Fail/Apart and Fail/Core the lemmas on inserts and on shared slots, for
--   Fail/Reinsert and Fail/Conserve.
-- - Fetch: fetchNextJob and Manager.fetch: eligibility, order, singleton and group filters, the claim.
--   Fetch/Claimable lists the conditions on a claimed row one by one.
-- - Insert: insertJobs, createJob and getDebounceStartAfter. Update: updateJob, update and upsert,
--   with the foreign key of job.dead_letter.
-- - Attorney: the checks on options and configurations (src/attorney.ts). Names: the rules on names
--   (src/attorney.ts, src/tools.ts).
-- - Work: the loop of a worker (src/worker.ts), the wait between its fetches and the settlement of a batch
--   job by job (src/manager.ts). Work/Process runs a batch, from its handler with its time limit to the
--   table (processJobs). Spy: the job spy (src/spy.ts).
-- - Queues: the queue table, the statements on it and their constraints (src/plans.ts: createQueueFunction,
--   updateQueue, deleteQueueFunction, getQueues); Queues/Cache the queues of an instance and its cache of
--   them (src/manager.ts), with Queues/Entries, Queues/Lookup and Queues/Histories for what it holds;
--   Queues/Stats the counts of jobs (getQueueStats, cacheQueueStats, refreshQueueStats).
-- - Supervise: how src/boss.ts and src/navigator.ts group and chunk the queues. Supervise/Pass is a pass of
--   the supervisor (src/boss.ts: monitor, maintain), over Queues, Fail, Commands and Flows.
-- - Timekeeper: cron schedules (src/timekeeper.ts), with croner's previousRuns as a parameter; the
--   source says that it leaves out the second of its reference.
-- - Flows: jobs that wait for others (src/plans.ts: resolveFlowJobs, its split form, the table of
--   dependencies; src/manager.ts: resolveFlowJobsNoCte; src/navigator.ts: the batches of a pass).
--   Flows/Create is flow() of src/manager.ts, and Flows/Validate what it refuses (src/attorney.ts:
--   validateFlowJobs, findDependencyCycle), with files below it on the order that its sort finds.
--   Flows/Sums says that two tables agree on all sums over rows; Flows/Keys and Flows/Rows handle keys and updated rows, Flows/Groups idsByName.
-- - Redrive: moving jobs out of a dead letter queue (src/plans.ts: redriveJobs; src/manager.ts: redrive).
-- - SerializeError: a thrown value as a plain object (src/serialize-error.ts), over a heap of objects.
-- - Arguments: the arguments of send, update, work, fetch and createQueue; Arguments/Backend the
--   configuration of an instance (src/attorney.ts).
-- - Adapters: the text of statements and arrays, and the retries of a statement, for any driver
--   (src/adapters/sqlite.ts, src/adapters/bun.ts). Adapters/Sqlite/Tokens reads a text unit by unit, apart
--   from the scanners of the code, and Adapters/Sqlite/Skipped compares the two.
-- - Instance: start and stop of an instance as a state machine (src/index.ts).
-- - Base: the names and list functions that the others share. Tests: concrete inputs.
--
-- A statement is atomic: it is a function from the table to a result. A row that another
-- transaction has locked is given by a predicate. Clocks, random numbers and generated uuids are
-- arguments. A moment is a number of milliseconds since the epoch, an id a number, json its text; a text
-- that the database parses as a time stands as the time. What JavaScript makes of a text as a number is the
-- parameter `number_of`; a Date, and an object's entries, are read by parameters too.
--
-- On fuel are `splices` of Supervise, which gets the number of names (each turn takes at least one
-- name), the two scanners of Adapters/Sqlite, which get the length of the text (each turn takes at
-- least one unit), the attempts of Adapters/Bun, where four are enough, and
-- SerializeError, where the number of objects is enough. The sort and the search for a cycle in
-- Flows/Validate get the number of jobs: each turn takes another job. `drain` and `batches`
-- count down from MAX_BATCHES_PER_PASS, as their loop does.
--
-- Not modelled: the SQL text and its dialects, schema installation and migration, what a database
-- driver does, notifications and the parsing of cron expressions. Two statements of one transaction are
-- run one after the other, and interleavings with other transactions appear only as locked rows. The
-- foreign keys of a job are tested in Queues and Update; Insert, Flows and Redrive take it that the queues
-- that a payload names exist. A worker is started once, as work() of src/manager.ts does.
mod Base
pub mod Job
pub mod Store
pub mod Commands
pub mod Fail
pub mod Fetch
pub mod Attorney
pub mod Work
pub mod Spy
pub mod Insert
pub mod Update
pub mod Instance
pub mod Supervise
pub mod Flows
pub mod Queues
pub mod Timekeeper
pub mod Redrive
pub mod Adapters
pub mod SerializeError
mod Tests
pub mod Names
pub mod Arguments
