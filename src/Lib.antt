-- ===== src/Lib.antt =====
-- Goqueue: a background job queue in Go. Producers enqueue jobs over HTTP, workers lease and run them,
-- a scheduler promotes jobs that are due and reclaims leases that have lapsed, and an operator inspects,
-- retries and kills jobs.
--
-- The parts, and the file that models each:
-- - Errors.antt: pkg/common/errors/errors.go, and the status codes of pkg/api/middleware.
-- - Strings.antt: what strings.TrimSpace, ToLower and the two name patterns do on bytes.
-- - Values.antt and its children: pkg/domain/job_aggregate/value_objects (States, Priorities, Names),
--   pkg/domain/queue_aggregate/value_objects (Weights) and the two packages of error codes (Codes).
-- - Retry.antt: backoff.go and retry_policy.go of pkg/domain/job_aggregate.
-- - Job.antt and its children: job.go. Creation has NewJob, Lifecycle the transitions Promote, Lease,
--   Complete, Fail, Kill, Requeue and ReclaimExpiredLease.
-- - Queue.antt: pkg/domain/queue_aggregate/queue.go, and dedupe of pkg/infrastructure/worker/pool.go.
-- - Store.antt and its children: pkg/domain/persistence/fake/fake.go, the in-memory implementation of
--   the four persistence ports. Defs has the state, Repo, Broker, Queues and Claims the methods.
-- - Processor.antt, Processor/Service.antt: pkg/application/processor, over a record of port operations
--   with their laws (JobPort), which the store fills.
-- - Enqueuer.antt: pkg/application/enqueuer/service.go, over the store.
-- - Inspector.antt: pkg/application/inspector/service.go, over the store, and the totals of
--   pkg/hydrator/job_hydrator.go.
-- - Scheduler.antt: pkg/infrastructure/scheduler/scheduler.go, over the store.
-- - Worker.antt: pkg/infrastructure/worker/pool.go, its settings, Start and Stop; Worker/Loop.antt the loop
--   of a worker, step by step, over the broker and the processor as parameters.
-- - Config.antt: pkg/infrastructure/config, from the defaults and the environment to Validate.
-- - Redis.antt and its children: pkg/infrastructure/persistence/redis. Redis.antt has keys.go, Commands the
--   commands of the server, Documents job_model.go, Scripts the Lua scripts, Broker job_broker.go, Repo
--   job_repo.go, Listing its List with sort.go, and Queues queue_repo.go and idempotency_store.go. Placement
--   and its children say which set a job is in over every history of broker calls, Broker/Attempts
--   what becomes of the count of attempts, Broker/Overlap what a late Complete does.
-- - Examples.antt and its children: the samples, and each theorem at a concrete input. Examples/Server and its
--   children are a database and an encoding that have the laws that the theorems on Redis ask for.
--
-- How the state corresponds. A text is the list of its bytes. A time is the integer of its nanoseconds
-- since Go's zero time, a duration an integer of nanoseconds, and int64 and uint32 arithmetic wraps where
-- the code's does. A pointer that may be nil is an option. A method that changes a job returns the new
-- record, or an error and no record, because every error return of job.go stands before its first
-- assignment. The store is a record of its three maps and the injected failure; a map is the list of its
-- values in the order of an iteration, and theorems hold for every such list. The mutex of the store
-- makes each method one step, so an interleaving of workers is a sequence of calls.
--
-- Parameters. float64 arithmetic and the random number of the exponential backoff are a record (Floats)
-- whose laws say what IEEE 754 gives on integers up to 2^53; Retry/Exact.antt has an instance. The clock,
-- the id generator, the RFC 3339 parser, the printing of a duration and the handlers are arguments.
-- The Redis server is a type of databases with the commands (Commands) and their documented behaviour
-- (Documented); strconv, encoding/base64 and encoding/json are a record (Encoding) whose laws say that what was
-- printed is read back (Faithful). A call of the server is answered, refused, or performed and its reply
-- lost (Link). The largest capacity that make grants in List, the environment's parsers, and what the YAML
-- library leaves of the defaults are arguments.
--
-- Fuel. The loop that runs a job until it is dead (Job/Budget.antt) has fuel; more than the number of
-- retries that the policy allows is enough. The loop of dequeue.lua over one set has one turn more than the set
-- has entries when it starts, and each turn that goes on takes an entry away, so it ends before they are used
-- up (Redis/Serving.antt).
--
-- Not modelled: ListAll and StatsAll of queue_repo.go, the expiry of keys, the
-- set-up of the Redis client, the goroutines and tickers of the scheduler, the HTTP layer, the parsing of
-- YAML, wiring, logging and the metrics exporter.
pub mod Base
pub mod Errors
pub mod Strings
pub mod Values
pub mod Retry
pub mod Job
pub mod Queue
pub mod Store
pub mod Examples
pub mod Processor
pub mod Enqueuer
pub mod Inspector
pub mod Redis
pub mod Scheduler
pub mod Worker
pub mod Config
