-- ===== src/Keeps.antt =====
-- Invariants of the whole engine: predicates on states that every single write keeps. The
-- children go through the calls of src/engine once, for any such predicate.
pub mod Rules
mod Base
pub mod Strategy
pub mod Matching
mod Placing
pub mod Engine
pub use Rules.{Keeps, Touch, Invariant}
