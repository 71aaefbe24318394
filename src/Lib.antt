-- ===== src/Lib.antt =====
-- Verification of wakuwaku, a microservice framework for Rust: wakuwaku-iggy, typed events on Apache
-- Iggy with per-key ordering and algebraic batching; wakuwaku-entity, queries on data sources;
-- wakuwaku-proof, validation that carries its evidence; wakuwaku, services and cron jobs.
--
-- The program. A publisher writes an event with three headers: its type tag, the 64-bit hash of its
-- key, and its properties (ordering and algebra). A consumer task polls a batch of one partition. The
-- planner reads the headers and groups the batch by key, segment and run: keys are independent, the
-- segments of a key follow one another, and in a segment a head run goes first, body runs follow in
-- any order, and a tail run goes last. Each run is reduced by the algebra of its event type and handed
-- to the handler. Keys that fail go to a retry partition, whose records the retry schedule holds. Apart
-- from the consumer, wakuwaku-entity runs transactions on SQL databases and keeps locks and rate
-- limits in Redis, in scripts that run alone on the server; it renders typed filters to the
-- expressions of Meilisearch. The crate wakuwaku runs the jobs of a process on their schedules.
--
-- The files.
--   Base            names, tests, lists, results and saturating words that all modules share
--   Events          wakuwaku-iggy/src/events/mod.rs: ordering, algebra, properties header
--   Events/Headers  wakuwaku-iggy/src/events/headers.rs: header map and retry header
--   Partition/Plan  wakuwaku-iggy/src/partition/plan.rs: Assign is `assign_segments`, Order the sort,
--                   Build the rest of `Plan::new` and `Builder`, View the accessors; the proofs are
--                   in the modules below Assign, Order and Tiling, and in Ordering; Reading
--                   lists the records of a plan in the order in which they are handled
--   Partition/Algebra   wakuwaku-iggy/src/partition/algebra.rs: the markers and their reductions
--   Consumer/Backoff    wakuwaku-iggy/src/utils/backoff.rs: `delay_for`, `until_ok`; the proof is in
--                   Returns
--   Consumer/Record     wakuwaku-iggy/src/consumer/record.rs: `ParsedRecord`, `parse`,
--                   `plan_records`
--   Consumer/Handler    wakuwaku-iggy/src/consumer/handler.rs and error.rs: `decode`, `encode`,
--                   `handle_events`; the proofs are in Chunks and Termination
--   Consumer/Execute    wakuwaku-iggy/src/consumer/execute.rs: `settle`, `execute_key`; the handlers and
--                   `join_all` are parameters; the proofs are in Stages, Segments, Report and Keeps
--   Consumer/Encode     wakuwaku-iggy/src/consumer/encode.rs: `stage_orderings`, `push_run`,
--                   `encode_key`; the proof is in Diverted
--   Consumer/Retry      wakuwaku-iggy/src/consumer/retry.rs: `RetryState`; a method returns the new
--                   state and its result
--   Consumer/Runtime    wakuwaku-iggy/src/consumer/runtime.rs and config.rs: the task of one partition. Batch
--                   is `process_main` and `send_retry`, Retries is `run_due`, `attempt` and the
--                   messages of `drain_retry`, Task is `run` and what it waits for; the proofs are
--                   in Batch/Accounts, Retries/Attempted, Task/Waits, Task/Stored and Task/Rounds.
--                   Start is `start` up to the tasks that it spawns, with the proof in Start/Started
--   Entity/Transaction  wakuwaku-entity/src/sqlx/transaction/flow.rs and mod.rs: `Tx`, `TxState`, `close`,
--                   `drive`; sqlx is a parameter; the proofs are in Outcome, Aborted, Driven
--                   and Returns
--   Entity/Redis/Lock   wakuwaku-entity/src/redis/collection/lock.rs: the scripts of `Lock` and `RwLock` over
--                   the commands that they call. Documented is what Redis documents of these, and
--                   Seen carries the scripts over to it; the proofs are in Exclusive, Steps and Apart,
--                   Kept, Reader and Leases, and Writer and Holding
--   Entity/Redis/TokenBucket   wakuwaku-entity/src/redis/collection/token_bucket_limiter.rs: the rate, the
--                   script and the queries; the proofs are in Levels, Refill and Admitted
--   Entity/Meilisearch/Filter   wakuwaku-entity/src/meilisearch/filter.rs: filters, sorts and `render`, with the
--                   words in Keywords. Lexer reads an expression, Layout says what tokens it should
--                   have, and Verdict what it needs; the proofs are in Rendered and RoundTrip, and
--                   in Failures
--   Proof           wakuwaku-proof/src/lib.rs: `prove`, `And`, `Or` and their checks; Laws is
--                   wakuwaku-proof/src/boolean_algebra.rs; the proofs are in Check and below Derive
--   Services/CronJob    wakuwaku/src/services/cron_job.rs: `next_tick` and the loops that run a job; the
--                   proofs are in Grid, Starts and Spaced
--   Examples        in each part: tests, after the tests of the source, and instances of theorems
--
-- Conventions. Integers are natural numbers; the saturating and checked operations of the source
-- are written out against 2^64 - 1. A key is the u64 hash by which the consumer plans. An index
-- out of range, a panic in Rust, reads a value that stands for nothing. A hash map is a function,
-- or an association list where the source iterates over it. Instants and durations are
-- nanoseconds, and the last instant of the clock is a parameter. The header types of Iggy are
-- parameters, with the documented behaviour of `HeaderValue` as a hypothesis, as are the `Eq` of the
-- events, which may find equal what differs, and the standard library's `sort_unstable`. Loops without a
-- bound of their own take fuel: `handle_events` a round for each event and one more, and the
-- attempts on a chunk that fails transiently, a number that is left to the caller; `drive` as many
-- rounds as the caller allows its flow; `until_ok` its attempts, and `drain_retry` and `run` their
-- rounds; the loops of a cron job their turns. Where fuel runs out in the runtime, the task is
-- unfinished: it still waits for Iggy. What a handler and a sleep change is a world of any type,
-- which the functions that call them pass on. A script of Redis is a function of the server's time
-- in milliseconds and of a state of any type, which the commands of Redis read and change; clients
-- interleave as a sequence of scripts. The numbers of the token bucket's script, which
-- round, are a parameter with a bound on the error of the script's formulas. Text is a list of
-- character codes, and floats are a parameter, as is the printing of numbers.
--
-- Not modelled: logging, the network, and the clients of Iggy, SQL databases, Redis and
-- Meilisearch; the handles that join and abort the tasks of the runtime and of the cron jobs;
-- connections to Redis that fail; the publisher and the hook of a transaction, which only pass
-- values on; the registry of services and the capabilities of queries, which are types that the
-- compiler resolves; and of wakuwaku-entity the cache, the live view, the stream buffer, and the
-- search, the writes and the synchronisation of Meilisearch, which are left for later.
mod Base
pub mod Events
pub mod Partition
pub mod Consumer
pub mod Proof
pub mod Entity
pub mod Services
