-- ===== src/Examples.antt =====
-- Concrete inputs, and every theorem that has premises at one of them.
pub mod Data
pub mod Reservations
pub mod Stores
pub mod Schedules
pub mod Runs
pub mod Requests
pub mod Graphs
pub mod Networks
pub mod Components
