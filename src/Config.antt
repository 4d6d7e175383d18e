-- ===== src/Config.antt =====
-- internal/config: image references and the choice of Hosts for a Profile.
pub mod Text
pub mod Image
pub mod Hosts
