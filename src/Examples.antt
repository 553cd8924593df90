-- ===== src/Examples.antt =====
-- The theorems applied to concrete networks, routing tables, services and stores.
pub mod Parsing
pub mod Networks
pub mod Linking
pub mod Routing
pub mod Identity
pub mod Resolver
pub mod Custody
pub mod Checks
pub mod Sweeping
pub mod Table
pub mod Directory
pub mod Helpers
pub mod Boot
pub mod Stored
pub mod Reparse
