-- ===== src/PrintAgent.antt =====
-- Remote printing: the machines that print, and the tasks that they claim and report
-- (internal/service/kdzs_print_agent_service.go, with the rows of internal/model/models.go).
pub mod State
pub mod Devices
pub mod Payload
pub mod Fields
pub mod Merged
pub mod Login
pub mod Redacted
pub mod Create
pub mod Kept
pub mod Tasks
pub mod Numbers
pub mod AutoConfirm
pub mod Sync
pub mod Spared
pub mod Confirmed
pub mod Aligned
pub mod Claims
pub mod Reports
pub mod Machines
mod Tests
mod MergeTests
mod SyncTests
