-- ===== src/Lib.antt =====
-- The core of flintlock-runner, a GitLab runner that runs each Job in a microVM leased from a
-- Pool Manager.
--
-- The program's parts. The Tracker (internal/poolmgr/tracker.go) keeps the counts of the MicroVMs
-- of each Pool from an event stream and from polls, and wakes those who wait for one. The Health
-- monitor (internal/poolmgr/health.go) says whether the Pool Manager is well. The Scheduler
-- (internal/scheduler) reads both: it grants Slots as Reservations, turns a Reservation and a
-- leased MicroVM into an Allocation, keeps the Lease alive, and hands it back when the Job ends,
-- its Host becomes unhealthy, its Lease is lost or the Scheduler stops. The executor
-- (internal/executor/executor.go) runs one Job: it has a MicroVM allocated, runs the Job's Stages
-- in it, and hands it back. The registry of Hosts (internal/flintlock/registry.go) keeps a client
-- for each Host of the configuration over its reloads, and closes it when the last Job on it has
-- let go. The configuration (internal/config) says which Hosts can carry a Pool and reads image
-- references. The backoff of all retries is internal/clock/clock.go.
--
-- Which file models what. Each module carries the definitions of one source file or of one part
-- of it, and its child modules the lemmas.
--   Clock: internal/clock/clock.go, `Exponential.Next`.
--   Poolmgr.Event, Poolmgr.Count, Poolmgr.Pool, Poolmgr.Tracker: internal/poolmgr/tracker.go with
--     the types of interfaces.go, that is the events and their payloads, `uidCount`,
--     `trackedPool` with `apply`, and `PoolTracker` with its poll loop.
--   Poolmgr.Health: internal/poolmgr/health.go.
--   Poolmgr.Hosts, Config.Hosts: internal/poolmgr/hosts.go and internal/config/hosts.go.
--   Config.Image: internal/config/image.go, over the bytes of Config.Text.
--   Flintlock.Registry: internal/flintlock/registry.go.
--   Executor: internal/executor/executor.go, with Prepare in Executor.Prepare and Run in
--     Executor.Stages.
--   Scheduler.State: the state of internal/scheduler/scheduler.go, the handles of handle.go, the
--     types of interfaces.go.
--   Scheduler.Capacity: internal/scheduler/capacity.go.
--   Scheduler.Release: internal/scheduler/release.go, and `startHeartbeat`, `stopHeartbeat` and
--     `leaseLost` of heartbeat.go, and `hostUnhealthy` of health.go.
--   Scheduler.Heartbeat: internal/scheduler/heartbeat.go.
--   Scheduler.Placement, Scheduler.Allocate: internal/scheduler/placement.go and allocate.go.
--   Scheduler.Lifecycle: `Reload`, `applyCurrent`, the declaration of Pools and its loop, of
--     internal/scheduler/scheduler.go.
--   Poolmgr.Declare: `Declare` of internal/poolmgr/declare.go.
--   Scheduler.Profiles: internal/scheduler/profile.go and the look-ups of scheduler.go.
--   Scheduler.Hosts: internal/scheduler/health.go and `resetHostsLocked` and `start` of
--     scheduler.go.
--   Prelude: lists, Go maps and sets, and the words of 32 and 64 bits.
--
-- How the state corresponds. A struct is a record with the struct's fields, a method that holds
-- the lock is one function from state to state, and a method that gives the lock up, as around a
-- call, is one function for each stretch that holds it. `shutdown` is two, before and behind its
-- wait. `Reserve` and a turn of `declareLoop` take the lock several times and are here the run of
-- their stretches with nothing in between, and so are the declarations of a `Reload`; what others
-- do to the Pools in the middle of a `Reload`, before its declarations, is an argument. A
-- statement about one of these is about such a run. What is read from outside (the context, the
-- clock, the answers of calls) is an argument. A Go map is an association list, a set a list
-- without repetition. A channel is a number, and the state says which channels have been made and
-- which have been closed. A `*handle` is the id of its Allocation, and the handles are a store. A
-- client of a Host is the number of the entry that it was dialled for, and the registry says how
-- often each has been closed. `Apply` is two functions, one for each stretch that holds the lock,
-- and what it has built between them is a part of the state. A release that runs in the
-- background is an entry in the list of the releases that have been asked for.
--
-- Bounds and fuel. Counts of 32 bits and durations of 64 bits have their wrap-around written out
-- where the code can reach it: the counts of events, the doubling of the backoff and the ids of
-- the Scheduler. Ids are taken as new in the statements about handles. No definition runs on
-- fuel: the loop of the backoff recurses on the attempt, the loop of a release on the retries
-- that are left, the others on lists.
--
-- What is not modelled: logging, metrics and the texts of errors, which change no state that is
-- read again; timers and goroutines, whose effects are the steps that the runs are made of; JSON
-- decoding, `path.Match`, the Pool Manager, dialling and the building of a Pool's spec from its
-- Profile, which are parameters; the gRPC and Kubernetes clients, the provider of executors, the
-- guest transports, the loading and validation of the configuration, and the commands, which are
-- I/O or wiring around the parts above.
pub mod Prelude
pub mod Clock
pub mod Poolmgr
pub mod Config
pub mod Flintlock
pub mod Scheduler
pub mod Executor
