-- ===== src/Scheduler.antt =====
-- internal/scheduler: Slots, Reservations, Allocations and their Leases.
mod Examples
pub mod State
pub mod Capacity
pub mod Release
pub mod Heartbeat
pub mod Profiles
pub mod Hosts
pub mod Placement
pub mod Allocate
pub mod Lifecycle
