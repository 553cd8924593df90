-- ===== src/Daemon.antt =====
-- src/privileged/: the privileged daemon's connection records and the requests on them.
pub mod Errors
pub mod Responses
pub mod Store
pub mod Dispatch
pub mod Operations
pub mod Boot
