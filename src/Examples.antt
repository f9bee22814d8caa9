-- ===== src/Examples.antt =====
-- Concrete libraries, inputs and runs.
pub mod Api
pub mod Owned
pub mod Kept
pub mod Small
pub mod Pods
pub mod Conditions
pub mod Contents
pub mod Generated
pub mod Issuers
pub mod Retried
pub mod Steps
pub mod Server
pub mod Operands
