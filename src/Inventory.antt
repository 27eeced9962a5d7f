-- ===== src/Inventory.antt =====
-- services/api: the inventory component. `Types` has the tables and commands, `Tx` the database
-- transaction with the declared constraints, `Stock` the computed stock, `Telemetry` the events and
-- the outbox, `Movements`, `Counts` and `Orders` the operations, and `Requests` the routes; the
-- other modules have lemmas on them.
pub mod Types
pub mod Tx
pub mod Stock
pub mod Telemetry
pub mod Movements
pub mod Counts
pub mod Orders
pub mod Atomic
pub mod Sound
pub mod Requests
mod Tests
