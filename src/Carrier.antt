-- ===== src/Carrier.antt =====
-- The carrier accounts of a tenant (internal/service/carrier_service.go), with the signing mode of
-- internal/carrier/sf/client.go.
pub mod Accounts
pub mod Unique
pub mod Masked
mod Tests
