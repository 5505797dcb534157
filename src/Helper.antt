-- ===== src/Helper.antt =====
-- The helper's accounts and settings of a tenant, and the templates and authorisations that are
-- copied from it (internal/service/kdzs_accounts.go, internal/service/kdzs_service.go).
pub mod State
pub mod Accounts
pub mod Changes
pub mod Keeps
pub mod Tidy
pub mod Kept
pub mod Codes
pub mod Safe
mod Tests
