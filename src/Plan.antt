-- ===== src/Plan.antt =====
-- The ship plan: the lines into which an order is split before it is shipped
-- (internal/service/ship_plan_service.go, with the row of internal/model/models.go).
pub mod Rows
pub mod Save
pub mod Progress
pub mod Validation
pub mod Replacement
pub mod Shipped
mod Tests
