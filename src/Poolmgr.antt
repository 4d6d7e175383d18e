-- ===== src/Poolmgr.antt =====
-- internal/poolmgr: the Runner's side of the Pool Manager.
pub mod Count
pub mod Event
pub mod Pool
pub mod Tracker
pub mod Health
pub mod Declare
pub mod Hosts
