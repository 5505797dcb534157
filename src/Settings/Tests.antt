-- ===== src/Settings/Tests.antt =====
-- The theorem on the print settings, at a tenant that has changed them once before.
use shipping_core.Base.{some, none, []}
use shipping_core.Settings.Printers.{SettingTable, UpdatePrintSettingsInput, update_settings}

abbrev empty_table : SettingTable
empty_table = record { rows = []; next_id = 1 }

abbrev helper_only : UpdatePrintSettingsInput
helper_only = record { sf_printer_name = none; kdzs_printer_name = some " front desk " }

abbrev once_changed : SettingTable
once_changed = (update_settings 3 (some helper_only) empty_table).1
