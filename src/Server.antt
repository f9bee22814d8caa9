-- ===== src/Server.antt =====
-- pkg/controller/spire-server: the controller of the SPIRE server.
pub mod Ttl
pub mod Federation
pub mod Preserved
pub mod Resources
pub mod Configs
pub mod Checks
pub mod Contents
pub mod Peers
pub mod Controller
