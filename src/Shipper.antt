-- ===== src/Shipper.antt =====
-- The senders that a tenant keeps, one of them the default
-- (internal/service/shipper_service.go, with the row of internal/model/models.go).
pub mod Profiles
pub mod Defaults
pub mod Keys
pub mod WellFormed
pub mod Chosen
mod Tests
