-- ===== src/PrivilegedAgent.antt =====
-- privileged_agent: the root process. `Validator` models validator.py, `Server` and `Dispatch` the
-- V2 protocol of server.py; the proofs stand in the children named for what they prove.
pub mod Validator
pub mod ValidArgs
pub mod Permitted
pub mod Scripts
pub mod Dispatch
pub mod Server
pub mod Chain
pub mod NoReplay
pub mod Signed
pub mod Scan
pub mod V1
pub mod Confined
pub mod Nginx
pub mod Rollback
mod Tests
mod V1Tests
mod NginxTests
