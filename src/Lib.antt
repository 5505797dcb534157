-- ===== src/Lib.antt =====
-- ShippingCore: the shipping centre of the online store (a Go service on gorm and gin).
--
-- Parts. An order is split into plan lines (the ship plan); shipments take a waybill number from
-- the carrier, are printed and cancelled; machines register themselves and claim the print tasks of
-- their tenant. The order centre, the carrier and the stores' agent are services outside.
--
-- Files and code:
-- - Base, with its children: the Boolean tests, lists, tables (first, update_where, delete_where,
--   the order of a query), 64-bit integers and texts that the models share.
-- - Errors: internal/service/errors.go.
-- - Plan: internal/service/ship_plan_service.go. Plan/Rows: the table and GetShipPlan. Plan/Save:
--   PutShipPlan and syncSplitItemsToOrderCore. Plan/Progress: MarkShipPlanLinesShipped,
--   ApplyShipPlanProgressFromGoods, ApplyShipPlanProgressFromSplitLines, applyShipPlanProgress,
--   CountPendingShipPlanByOrders. Plan/Validation, Plan/Replacement and Plan/Shipped: their theorems.
-- - PrintAgent: internal/service/kdzs_print_agent_service.go. PrintAgent/State: the rows.
--   PrintAgent/Devices: RegisterMachine, AuthenticateDevice, Heartbeat, pruneStaleDevices,
--   EnsurePrintEnrollToken, RotatePrintEnrollToken. PrintAgent/Tasks: ClaimNext, ReportTask,
--   mapAgentsJobStatus. PrintAgent/Payload: printMergeKey, orderDedupeKey, extractOrders,
--   mergePrintPayload on JSON objects. PrintAgent/Login: resolvePrintLogin, redactPrintPayload.
--   PrintAgent/Create: CreateTask, tryMergePendingPrintTask. PrintAgent/Numbers: parseAgentsJobID,
--   parsePayloadUint64, payloadBool, parseMailNoFromResult. PrintAgent/AutoConfirm:
--   maybeAutoConfirmShip. PrintAgent/Sync: syncTasksFromAgents, pollOpenTasks.
--   PrintAgent/Machines, PrintAgent/Claims, PrintAgent/Reports, PrintAgent/Fields,
--   PrintAgent/Merged, PrintAgent/Redacted, PrintAgent/Kept, PrintAgent/Spared,
--   PrintAgent/Confirmed and PrintAgent/Aligned: their theorems.
-- - Shipment: internal/service/shipment_service.go and parts of carrier_service.go.
--   Shipment/Model: the rows of internal/model/models.go. Shipment/Channel: isKdzsShipment and
--   isSFManagedShipment. Shipment/OrderId: the order number on a waybill. Shipment/Cargo: what the
--   waybill says is inside, and the print template. Shipment/World: the store and the services
--   outside, Get, Save, GetRaw and shipOrderCore. Shipment/Waybill: CreateWaybill. Shipment/Print:
--   PrintWithCarrier. Shipment/Label: FetchLabelPDF, scheduleArchiveLabelPDF, archiveLabelPDFOnce.
--   Shipment/Plugin: FetchPrintPluginData.
--   Shipment/Cancel: Cancel. Shipment/Snapshot and Shipment/Confirm:
--   ConfirmKdzsShip, which also takes the goods off the plan. Shipment/Sync: UpsertKdzsFromSync,
--   SyncShippedAtByMailNo, DeleteByOrderCore. Shipment/Rows, Shipment/Channels, Shipment/Issued,
--   Shipment/Printed, Shipment/PluginPrinted, Shipment/Archived, Shipment/Addressed,
--   Shipment/Cancelled, Shipment/Voided, Shipment/Single and Shipment/Synced: their theorems.
-- - Shipment/Order: CreateFromOrder. Shipment/Drafts: its theorems.
-- - Shipment/Split: ConfirmKdzsSplitShip, CreateShipmentGroup, GetShipmentGroup. Shipment/Parcels,
--   Shipment/Merged and Shipment/Goods: its theorems.
-- - Helper: internal/service/kdzs_accounts.go. Helper/State: the tables, the stores' agent and the
--   chaining of operations that may fail. Helper/Accounts: SyncAccountsFromSSA, EnsureAccountsReady,
--   ListAccountDetailsLocal, ensureSSASession. Helper/Changes: CreateLocalAccount,
--   UpdateLocalAccount, DeleteLocalAccount, SetLocalDefault, SwitchLocalAccount,
--   EnsureActiveSSASession. Helper/Keeps, Helper/Tidy, Helper/Kept, Helper/Codes and Helper/Safe:
--   their theorems.
-- - Carrier: internal/service/carrier_service.go, with NormalizeSignMode of
--   internal/carrier/sf/client.go. Carrier/Accounts: the table, Get, GetRaw, Create, Update, Delete,
--   MaskCheckword. Carrier/Unique and Carrier/Masked: their theorems.
-- - Pickup: internal/service/pickup_time.go. Pickup/Slots: parseHHMM, buildPickupAppointOptions.
--   Pickup/Window: CheckPickupTime, joinShipperAddress, resolveSFCityCode. Pickup/Offered: its theorems.
-- - Sessions: the sessions that are kept in memory. Sessions/Handoff: admin/kdzs_helper_handoff.go.
--   Sessions/Photo: admin/upload_session.go, with the two locked parts of MobileUpload as steps that
--   interleave. Sessions/Delivered and Sessions/Uploads: their theorems.
-- - Settings: internal/service/print_settings_service.go. Settings/Printers: Get, Update and
--   KdzsDefaultPrinterName. Settings/Chosen: its theorems.
-- - Shipper: internal/service/shipper_service.go. Shipper/Profiles: the table, Get, Create, Update,
--   SetDefault, Delete. Shipper/Defaults, Shipper/Keys, Shipper/WellFormed and Shipper/Chosen: their
--   theorems.
-- - The modules named Tests, SyncTests, SplitTests, LabelTests, DraftTests and
--   MergeTests run the operations at concrete data.
--
-- Conventions. A table is the list of its rows in the order of their primary keys; a query's tenant
-- is written into its test, and First on a table is the first row that passes. An operation takes
-- the tables and returns its result with the tables afterwards. Times are natural numbers, and the
-- clock's value is an argument (now). Quantities are Go's int: sums that may overflow wrap at 64
-- bits (wrap64), and primary keys are natural numbers. A decimal text is built with fuel of 20
-- digits, which a 64-bit number does not exceed; the slots of a day, with fuel of 25 rounds, of
-- which each is an hour further and the one after 23 o'clock ends the loop. Texts are strings of
-- characters; where the code cuts at a byte, the text is the list of its bytes in UTF-8.
--
-- The 15 minutes of a pickup are added to a clock that is not set in between.
--
-- Columns with a default. gorm writes the default of a column in place of a zero value when a row is
-- created (documented behaviour), and the models of Create do the same.
--
-- Services outside. Their answers are functions of all calls made before and at that moment, and
-- every call is recorded; the hash of a device's secret, the random texts, the upper case of a
-- text, the reading of a text as JSON or as a time, and the printed form of a time are arguments.
--
-- Not modelled: failures of the database; the interleaving of requests within an operation, but for
-- the sessions (a transaction runs as one step) and the archiving of labels; timers
-- (PrintWithCarrier records only the start of the archiving of a label, whose rounds are modelled
-- on their own); HTTP handlers, configuration, storage and the clients' protocols; weights,
-- dimensions and prices, which are floats that the operations only copy; the estimates of delivery
-- times; the helper's templates and authorisations.
pub mod Base
pub mod Carrier
pub mod Errors
pub mod Helper
pub mod Pickup
pub mod Plan
pub mod PrintAgent
pub mod Sessions
pub mod Settings
pub mod Shipment
pub mod Shipper
