-- ===== src/Reservation.antt =====
-- Reservations (src/vrm/reservation).
pub mod Fields
pub mod Lifecycle
pub mod Trait
pub mod Moldable
pub mod Kinds
pub mod ActiveReservations
pub mod ProbeReservations
