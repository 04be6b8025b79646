-- ===== src/Tests.antt =====
-- Concrete data, and the theorems at them.
pub mod Levels
pub mod Books
pub mod Chains
pub mod Feeds
pub mod Heartbeats
pub mod Codecs
pub mod Runs
pub mod Services
pub mod Matches
pub mod Balances
