-- ===== src/Helper/Accounts.antt =====
-- The helper's accounts: their list, their synchronisation with the stores' agent, and the agent's
-- session.
use shipping_core.Base.{
  ℕ, ◌+◌, String, Bool, true, false, not, ◌&&◌, ◌||◌, Option, none, some, List, [], ◌∷◌, ◌==◌, map,
  if◌then◌else◌, filter, length,
}
use shipping_core.Base.Int.{ℤ}
use shipping_core.Base.Text.{is_empty, trim_space, str_eq, lower_is}
use shipping_core.Base.Table.{first}
use shipping_core.Base.Order.{order_by}
use shipping_core.Errors.{account_missing, account_locked, bad_answer, store_agent}
use shipping_core.PrintAgent.State.{KdzsSetting}
use shipping_core.PrintAgent.Login.{KdzsAccount, account_before}
use shipping_core.Shipment.World.{Answer, answer, refusal}
use shipping_core.Helper.State.{
  AccountInput, AccountUpdate, SsaExport, export_accounts, create_call, update_call, switch_call,
  StoreAgent, HelperDb, M, ◌>>=◌, ◌>>◌, pure, fail, attempt, get_db, call, is_code, store_account,
  insert_account, get_or_create_settings, save_settings,
}

abbrev pub or_text : String → String → String
or_text fallback s = if is_empty s then fallback else s

-- `firstNonEmpty` of two texts
abbrev pub first_non_empty : String → String → String
first_non_empty a b =
    if not (is_empty (trim_space a)) then a else if not (is_empty (trim_space b)) then b else ""

-- The account that is created for an item of the export. An account is created as enabled: gorm
-- writes the column's default for `false`.
abbrev pub synced_account : ℕ → AccountInput → ℕ → KdzsAccount
synced_account tenant item id = record {
  id = id;
  tenant_id = tenant;
  code = trim_space item.code;
  name = or_text item.mobile (trim_space item.name);
  role = or_text "merchant" (trim_space item.role);
  mobile = trim_space item.mobile;
  password = item.password;
  sort_order = item.sort_order;
  enabled = true;
  source = "ssa";
}

-- A local account keeps its password, unless it has none.
abbrev pub synced_password : AccountInput → KdzsAccount → String
synced_password item a =
    if not (is_empty item.password) && (str_eq a.source "ssa" || is_empty a.password)
    then item.password
    else a.password

abbrev pub updated_account : AccountInput → KdzsAccount → KdzsAccount
updated_account item a = record a {
  name = first_non_empty (trim_space item.name) a.name;
  role = or_text a.role (trim_space item.role);
  mobile = trim_space item.mobile;
  sort_order = item.sort_order;
  enabled = item.enabled;
  password = synced_password item a;
  source = or_text "ssa" a.source;
}

abbrev pub sync_found : ℕ → AccountInput → Option KdzsAccount → M (Unit {0})
sync_found tenant item none = insert_account (synced_account tenant item)
sync_found tenant item (some a) = store_account (updated_account item a)

abbrev pub is_skipped : AccountInput → Bool
is_skipped item = is_empty (trim_space item.code) || is_empty (trim_space item.mobile)

unfoldable pub sync_item : ℕ → AccountInput → M (Unit {0})
sync_item tenant item db =
    sync_found tenant item (first (is_code tenant (trim_space item.code)) db.accounts) db

-- The loop over the items, with the number of those that were taken over.
unfoldable pub sync_items : ℕ → ℕ → List AccountInput → M ℕ
sync_items tenant n [] = pure n
sync_items tenant n (item ∷ items) =
    let skipped = sync_items tenant n items in
    let taken = sync_item tenant item >> sync_items tenant (n + 1) items in
    if is_skipped item then skipped else taken

abbrev first_code : String → List AccountInput → String
first_code old [] = old
first_code old (item ∷ items) = item.code

-- The settings after a synchronisation: the agent's choices where they are asked for, or where the
-- tenant has none.
abbrev pub adopted_default : Bool → SsaExport → KdzsSetting → String
adopted_default adopt e st =
    if adopt || is_empty st.default_account_code
    then or_text (first_code st.default_account_code e.items) e.default_account_code
    else st.default_account_code

abbrev pub adopted_active : Bool → SsaExport → KdzsSetting → String
adopted_active adopt e st =
    if adopt || is_empty st.active_account_code
    then or_text (or_text st.active_account_code (adopted_default adopt e st)) e.active_account_code
    else st.active_account_code

abbrev pub adopted : Bool → ℕ → SsaExport → KdzsSetting → KdzsSetting
adopted adopt now e st = record st {
  last_synced_at = some now;
  default_account_code = adopted_default adopt e st;
  active_account_code = adopted_active adopt e st;
}

pub record SyncStats : Type 0 where
  pub synced : ℕ
  pub default_account_code : String
  pub active_account_code : String
  pub last_synced_at : ℕ

abbrev pub stats_of : Bool → ℕ → SsaExport → KdzsSetting → ℕ → SyncStats
stats_of adopt now e st n = record {
  synced = n;
  default_account_code = adopted_default adopt e st;
  active_account_code = adopted_active adopt e st;
  last_synced_at = now;
}

-- An account as it is listed.
pub record KdzsAccountDetail : Type 0 where
  pub code : String
  pub name : String
  pub role : String
  pub role_label : String
  pub mobile : String
  pub enabled : Bool
  pub sort_order : ℤ
  pub password_set : Bool
  pub active : Bool
  pub is_default : Bool
  pub source : String
  pub source_label : String

abbrev role_label_of : String → String
role_label_of role = if lower_is (trim_space role) "factory" then "厂家版" else "商家版"

abbrev source_label_of : String → String
source_label_of source = if str_eq source "local" then "本地" else "StoreSyncAgent"

unfoldable pub to_detail : KdzsSetting → KdzsAccount → KdzsAccountDetail
to_detail st a = record {
  code = a.code;
  name = a.name;
  role = a.role;
  role_label = role_label_of a.role;
  mobile = a.mobile;
  enabled = a.enabled;
  sort_order = a.sort_order;
  password_set = not (is_empty a.password);
  active = str_eq a.code st.active_account_code;
  is_default = str_eq a.code st.default_account_code;
  source = a.source;
  source_label = source_label_of a.source;
}

abbrev pub is_own : ℕ → KdzsAccount → Bool
is_own tenant a = a.tenant_id == tenant

-- `listLocalAccounts`
unfoldable pub local_accounts : ℕ → HelperDb → List KdzsAccount
local_accounts tenant db = order_by account_before (filter (is_own tenant) db.accounts)

abbrev pub as_input : KdzsAccount → AccountInput
as_input a = record {
  code = a.code;
  name = a.name;
  role = a.role;
  mobile = a.mobile;
  password = a.password;
  enabled = a.enabled;
  sort_order = a.sort_order;
}

-- What a session sends to change an account of the agent.
abbrev pub as_update : KdzsAccount → AccountUpdate
as_update a = record {
  name = a.name;
  role = a.role;
  mobile = a.mobile;
  password = a.password;
  enabled = some a.enabled;
  sort_order = none;
}

abbrev pub found_account : Option KdzsAccount → M KdzsAccount
found_account none = fail account_missing
found_account (some a) = pure a

abbrev pub exported : Answer (Option SsaExport) → M SsaExport
exported (refusal text) = fail (store_agent text)
exported (answer none) = fail bad_answer
exported (answer (some e)) = pure e

abbrev pub switched : Answer (Unit {0}) → M (Unit {0})
switched (refusal text) = fail (store_agent text)
switched (answer u) = pure tt

module _ (agent : StoreAgent) (tenant now : ℕ) where
  -- One try of `SwitchKdzsAccount`.
  abbrev pub switch_session : String → M (Unit {0})
  switch_session code' = do calls ← call (switch_call code'); switched (agent.on_switch calls)

  -- The first try, and where it is refused, the account is made known and tried again.
  abbrev pub switch_again : KdzsAccount → String → Answer (Unit {0}) → M (Unit {0})
  switch_again a code' (answer u) = pure tt
  switch_again a code' (refusal text) = do
    _ ← call (create_call (as_input a))
    _ ← call (update_call code' (as_update a))
    switch_session code'

  abbrev pub with_session : String → KdzsAccount → M (Unit {0})
  with_session code' a =
      if is_empty a.password
      then fail account_locked
      else do calls ← call (switch_call code'); switch_again a code' (agent.on_switch calls)

  unfoldable pub ensure_ssa_session : String → M (Unit {0})
  ensure_ssa_session code' = do
    db ← get_db
    a ← found_account (first (is_code tenant code') db.accounts)
    with_session code' a

  abbrev pub open_session : String → M (Unit {0})
  open_session code' = if is_empty code' then pure tt else attempt (ensure_ssa_session code')

  unfoldable pub sync_accounts_from_ssa : Bool → M SyncStats
  sync_accounts_from_ssa adopt = do
    calls ← call export_accounts
    e ← exported (agent.on_export calls)
    st ← get_or_create_settings tenant
    n ← sync_items tenant 0 e.items
    save_settings (adopted adopt now e st)
    open_session (adopted_active adopt e st)
    pure (stats_of adopt now e st n)

  unfoldable pub ensure_accounts_ready : M (Unit {0})
  ensure_accounts_ready = do
    st ← get_or_create_settings tenant
    db ← get_db
    if length (filter (is_own tenant) db.accounts) == 0 || st.auto_sync_from_ssa
        then (sync_accounts_from_ssa false >>= λ _. pure tt)
        else pure tt

  unfoldable pub list_account_details : M (List KdzsAccountDetail)
  list_account_details = do
    ensure_accounts_ready
    st ← get_or_create_settings tenant
    db ← get_db
    pure (map (to_detail st) (local_accounts tenant db))
