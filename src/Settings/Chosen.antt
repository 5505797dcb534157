-- ===== src/Settings/Chosen.antt =====
-- What a change of the print settings makes of them, and that a second reading shows it.
use shipping_core.Base.{ℕ, ◌≡◌, String, Option, none, some}
use shipping_core.Base.Text.{trim_space}
use shipping_core.Errors.{Result, ok}
use shipping_core.Settings.Printers.{
  SettingTable, PrintSettingsDto, UpdatePrintSettingsInput, get_settings,
}

-- The printer after a request: the earlier one where the request names none, and otherwise the one
-- that it names, without the blanks around it.
abbrev pub named : String → Option String → String
named old none = old
named old (some name) = trim_space name

-- The settings with the printers that a request names.
abbrev pub renamed : UpdatePrintSettingsInput → PrintSettingsDto → PrintSettingsDto
renamed inp d = record {
  sf_printer_name = named d.sf_printer_name inp.sf_printer_name;
  kdzs_printer_name = named d.kdzs_printer_name inp.kdzs_printer_name;
}

-- What a change answers, and that reading the settings afterwards gives the same.
abbrev pub Answers : ℕ → PrintSettingsDto → Result PrintSettingsDto × SettingTable → Type 0
Answers tenant d r = (r.0 ≡ ok d) × (get_settings tenant r.1 ≡ r)
