-- ===== src/Handlers.antt =====
-- The event handlers (src/services/event_handlers), each on the tables that it reads and writes.
-- An event is handled in one transaction: an exception leaves the tables as they were. Of the
-- tables' constraints, the primary keys of the events are modelled.
pub mod Orders
pub mod Balances
pub mod Once
