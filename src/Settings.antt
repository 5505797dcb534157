-- ===== src/Settings.antt =====
-- The print settings of a tenant (internal/service/print_settings_service.go).
pub mod Printers
pub mod Chosen
mod Tests
