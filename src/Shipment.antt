-- ===== src/Shipment.antt =====
-- Shipments: from the draft over the waybill to printing or cancelling
-- (internal/service/shipment_service.go, parts of carrier_service.go, rows of model/models.go).
pub mod Model
pub mod Channel
pub mod OrderId
pub mod Cargo
pub mod World
pub mod Waybill
pub mod Print
pub mod Label
pub mod Plugin
pub mod Archived
pub mod Addressed
pub mod Cancel
pub mod Channels
pub mod Snapshot
pub mod Confirm
pub mod Sync
pub mod Split
pub mod Order
pub mod Single
pub mod Parcels
pub mod Merged
pub mod Goods
pub mod Drafts
pub mod Synced
pub mod Rows
pub mod Issued
pub mod Printed
pub mod PluginPrinted
pub mod Cancelled
pub mod Voided
pub mod Tests
pub mod SyncTests
mod SplitTests
mod DraftTests
mod LabelTests
