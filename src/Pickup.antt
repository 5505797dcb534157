-- ===== src/Pickup.antt =====
-- Appointments for the courier's pickup (internal/service/pickup_time.go).
pub mod Slots
pub mod Window
pub mod Offered
mod Tests
