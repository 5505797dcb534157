-- ===== src/Settings/Printers.antt =====
-- internal/service/print_settings_service.go, with the row of internal/model/models.go.
use shipping_core.Base.{
  ℕ, suc, String, Bool, true, false, ◌||◌, if◌then◌else◌, Option, none, some, List, [], ◌∷◌, ◌++◌,
  ◌==◌,
}
use shipping_core.Base.Text.{trim_space}
use shipping_core.Base.Table.{first, update_where}
use shipping_core.Errors.{Result, ok, err, bad_request}

pub record PrintSetting : Type 0 where
  pub id : ℕ
  pub tenant_id : ℕ
  pub sf_printer_name : String
  pub kdzs_printer_name : String

pub record SettingTable : Type 0 where
  pub rows : List PrintSetting
  pub next_id : ℕ

pub record PrintSettingsDto : Type 0 where
  pub sf_printer_name : String
  pub kdzs_printer_name : String

pub record UpdatePrintSettingsInput : Type 0 where
  pub sf_printer_name : Option String
  pub kdzs_printer_name : Option String

abbrev pub of_tenant : ℕ → PrintSetting → Bool
of_tenant tenant st = st.tenant_id == tenant

abbrev pub blank_setting : ℕ → ℕ → PrintSetting
blank_setting tenant id = record {
  id = id;
  tenant_id = tenant;
  sf_printer_name = "";
  kdzs_printer_name = "";
}

abbrev pub found_setting : ℕ → SettingTable → Option PrintSetting → PrintSetting × SettingTable
found_setting tenant t (some st) = (st, t)
found_setting tenant t none =
    let st = blank_setting tenant t.next_id in
    (st, record { rows = t.rows ++ st ∷ []; next_id = suc t.next_id })

unfoldable pub get_or_create : ℕ → SettingTable → PrintSetting × SettingTable
get_or_create tenant t = found_setting tenant t (first (of_tenant tenant) t.rows)

abbrev pub shown : PrintSetting → PrintSettingsDto
shown st = record {
  sf_printer_name = trim_space st.sf_printer_name;
  kdzs_printer_name = trim_space st.kdzs_printer_name;
}

-- `Get`
unfoldable pub get_settings : ℕ → SettingTable → Result PrintSettingsDto × SettingTable
get_settings tenant t = let (st, t') = get_or_create tenant t in (ok (shown st), t')

-- The columns that a request gives.
abbrev pub given_or : String → Option String → String
given_or old none = old
given_or old (some name) = trim_space name

abbrev pub changed : UpdatePrintSettingsInput → PrintSetting → PrintSetting
changed inp st = record st {
  sf_printer_name = given_or st.sf_printer_name inp.sf_printer_name;
  kdzs_printer_name = given_or st.kdzs_printer_name inp.kdzs_printer_name;
}

abbrev pub has_key : ℕ → PrintSetting → Bool
has_key id st = st.id == id

abbrev pub updated : UpdatePrintSettingsInput → PrintSetting × SettingTable → SettingTable
updated inp (st, t) = record t { rows = update_where (has_key st.id) (changed inp) t.rows }

abbrev pub is_given : Option String → Bool
is_given none = false
is_given (some name) = true

-- `Update`
unfoldable pub update_settings :
    ℕ → Option UpdatePrintSettingsInput → SettingTable → Result PrintSettingsDto × SettingTable
update_settings tenant none t = (err bad_request, t)
update_settings tenant (some inp) t =
    if is_given inp.sf_printer_name || is_given inp.kdzs_printer_name
    then get_settings tenant (updated inp (get_or_create tenant t))
    else get_settings tenant (get_or_create tenant t).1

-- `KdzsDefaultPrinterName`
unfoldable pub kdzs_default_printer_name : ℕ → SettingTable → String × SettingTable
kdzs_default_printer_name tenant t =
    let (st, t') = get_or_create tenant t in (trim_space st.kdzs_printer_name, t')
