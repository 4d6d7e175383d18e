-- ===== src/Flintlock.antt =====
-- internal/flintlock: the live set of Hosts.
pub mod Registry
