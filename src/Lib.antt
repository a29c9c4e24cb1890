-- ===== src/Lib.antt =====
-- The decentralized GPU network: hirers submit jobs to a master, which keeps accounts of Compute
-- Units, chooses among the workers that are online, and sends each job to one of them; a bootstrap
-- node lets them find each other. This library models the core of the master, the P2P loops of the
-- three programs and the types that they share, and proves what they promise.
--
-- The parts, and the files that model them:
--
-- Base       Boolean tests, lists, sorting, association lists and signed integers. An `i64` is an
--            integer with the wrap of the release build written out where an overflow is possible.
-- Error      crates/decentgpu-common/src/error.rs: `DecentGpuError`, without its texts.
-- Types      crates/decentgpu-common/src/types.rs: one file for each enum and its words.
-- Float      The operations of `f64`, a parameter of the model with the documented laws that the
--            theorems use; Float.Fixed is an arithmetic that has these laws.
-- Db         The tables of crates/decentgpu-master/src/db/migrations, statements and transactions
--            of PostgreSQL, and a logic for calls. Each statement may fail, as a list of faults
--            says; a transaction that fails is rolled back. Calls run one after another: row locks
--            and isolation of concurrent transactions are not modelled.
-- Ledger     crates/decentgpu-master/src/credits/engine.rs: each method of `ComputeUnitLedger`.
-- Jobs       crates/decentgpu-master/src/db/jobs.rs: each method of `JobRepository`.
-- Matcher    crates/decentgpu-master/src/scheduler/matcher.rs: `select_workers` and its helpers.
-- Scheduler  crates/decentgpu-master/src/scheduler/mod.rs: the state of `JobScheduler`, every message
--            of `run`, and the messages that it sends. The scheduler calls Jobs for the rows of the
--            jobs and Matcher for the choice of a worker.
-- Workers    crates/decentgpu-master/src/db/workers.rs: each method of `WorkerRepository`.
-- Users      crates/decentgpu-master/src/db/users.rs: each method of `UserRepository`.
-- Transactions
--            crates/decentgpu-master/src/db/compute_units.rs: each method of `ComputeUnitRepository`.
-- P2p        crates/decentgpu-master/src/p2p/handler.rs: `MasterEventLoop`, over the events that it
--            takes up; the task that registers a worker, by Workers; and what a `JobCompleted` does
--            to the database, by Jobs.
-- WorkerNode crates/decentgpu-worker/src/p2p/handler.rs: `WorkerEventLoop`, which sends the requests
--            that P2p takes up.
-- Master     crates/decentgpu-master/src/main.rs: where the notices of P2p go, to Scheduler and to
--            Workers; and what a worker that registers is to the whole of the master.
-- Bootstrap  crates/decentgpu-bootstrap/src/main.rs: the count of connections of `/health`.
-- Http       What the handlers of the API share: `ApiError`, and the calls of the database in them.
-- Auth       crates/decentgpu-master/src/api/auth.rs: registration, login and tokens, by Users and
--            Ledger. The hash of passwords, the signature of tokens and the classes of Unicode are
--            parameters; Auth.Crypto holds the laws that the theorems use, and Auth.Sample a value
--            that has them.
-- Credits    crates/decentgpu-master/src/api/credits.rs: every handler, by Ledger and Transactions.
-- Admin      crates/decentgpu-master/src/api/admin.rs: the handlers for administrators, by Users.
-- Api        crates/decentgpu-master/src/api/jobs.rs: the handlers of jobs and of their files,
--            by Jobs; a created job goes to Scheduler as a message. Api.Files is api/logs.rs too,
--            and Api.Nodes api/workers.rs.
-- Transfer   crates/decentgpu-common/src/transfer.rs: the frames of a stream, and the loops that send
--            and receive a file, over an abstract encoding and hash. What arrives is a list.
--
-- Identifiers are numbers, as they are only compared. Times are numbers, in microseconds, and in
-- seconds in the P2P loops. A generated key and the time of a call are its arguments. The order in
-- which a `HashMap` gives its keys is that of an association list. Every loop is over a list, and a
-- loop of events over the list of what happens: there is no fuel.
--
-- Not modelled: the endpoints for downloads and terminals; the executor of the worker; the parts of
-- the P2P handlers that only log, and the live log of a terminal; the errors of the disk and of the
-- writes to the stream in a transfer; Docker, the detection of GPUs, configuration and keys, which are
-- calls of the operating system; and the generated code for Protobuf.
pub mod Admin
pub mod Api
pub mod Auth
pub mod Base
pub mod Bootstrap
pub mod Credits
pub mod Db
pub mod Error
pub mod Float
pub mod Http
pub mod Jobs
pub mod Ledger
pub mod Master
pub mod Matcher
pub mod P2p
pub mod Scheduler
pub mod Transactions
pub mod Transfer
pub mod Types
pub mod Users
pub mod WorkerNode
pub mod Workers
