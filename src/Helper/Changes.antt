-- ===== src/Helper/Changes.antt =====
-- Creating, changing, deleting and choosing the helper's accounts.
use shipping_core.Base.{
  ℕ, String, Bool, true, ◌||◌, Option, none, some, ◌==◌, if◌then◌else◌, filter, length,
}
use shipping_core.Base.Text.{is_empty, trim_space, str_eq}
use shipping_core.Base.Table.{first, delete_where}
use shipping_core.Base.Order.{head_of}
use shipping_core.Errors.{
  ok, not_found, account_blank, account_taken, account_missing, account_in_use, no_account,
}
use shipping_core.PrintAgent.State.{KdzsSetting}
use shipping_core.PrintAgent.Login.{KdzsAccount, has_code}
use shipping_core.Helper.State.{
  AccountInput, AccountUpdate, create_call, update_call, StoreAgent, M, ◌>>=◌, ◌>>◌, pure, fail,
  get_db, call, is_code, store_account, insert_account, get_or_create_settings, save_settings,
}
use shipping_core.Helper.Accounts.{
  or_text, is_own, local_accounts, as_input, KdzsAccountDetail, list_account_details,
  ensure_accounts_ready, ensure_ssa_session,
}

abbrev pub local_account : ℕ → AccountInput → ℕ → KdzsAccount
local_account tenant inp id = record {
  id = id;
  tenant_id = tenant;
  code = trim_space inp.code;
  name = or_text (trim_space inp.mobile) (trim_space inp.name);
  role = or_text "merchant" (trim_space inp.role);
  mobile = trim_space inp.mobile;
  password = inp.password;
  sort_order = inp.sort_order;
  enabled = true;
  source = "local";
}

abbrev some_or {ℓ} : {A : Type ℓ} → A → Option A → A
some_or a none = a
some_or a (some b) = b

abbrev pub edited_account : AccountUpdate → KdzsAccount → KdzsAccount
edited_account inp a = record a {
  name = or_text a.name (trim_space inp.name);
  role = or_text a.role (trim_space inp.role);
  mobile = or_text a.mobile (trim_space inp.mobile);
  password = or_text a.password inp.password;
  enabled = some_or a.enabled inp.enabled;
  sort_order = some_or a.sort_order inp.sort_order;
}

-- What is sent to the agent: no order.
abbrev pub pushed_update : AccountUpdate → KdzsAccount → AccountUpdate
pushed_update inp a = record {
  name = a.name;
  role = a.role;
  mobile = a.mobile;
  password = inp.password;
  enabled = inp.enabled;
  sort_order = none;
}

abbrev pub shown_detail : Option KdzsAccountDetail → M KdzsAccountDetail
shown_detail none = fail account_missing
shown_detail (some d) = pure d

abbrev pub is_detail : String → KdzsAccountDetail → Bool
is_detail code' d = str_eq d.code code'

abbrev pub found_row : Option KdzsAccount → M KdzsAccount
found_row none = fail not_found
found_row (some a) = pure a

abbrev pub usable_row : Option KdzsAccount → M (Unit {0})
usable_row none = fail account_missing
usable_row (some a) = pure tt

abbrev pub remove_account : ℕ → String → M (Unit {0})
remove_account tenant code' db =
    (ok tt, record db { accounts = delete_where (is_code tenant code') db.accounts })

-- The first account of the list, where neither an active nor a default one is named.
abbrev pub chosen_first : KdzsSetting → Option KdzsAccount → M String
chosen_first st none = fail no_account
chosen_first st (some a) = do
  save_settings (record st {
    active_account_code = a.code;
    default_account_code = or_text a.code st.default_account_code;
  })
  pure a.code

module _ (agent : StoreAgent) (tenant now : ℕ) where
  -- The list as it is shown after the change, and the account in it.
  abbrev pub shown_account : String → M KdzsAccountDetail
  shown_account code' = do
    details ← list_account_details agent tenant now
    shown_detail (first (is_detail code') details)

  abbrev pub choose_created : String → M (Unit {0})
  choose_created code' = do
    st ← get_or_create_settings tenant
    db ← get_db
    if length (filter (is_own tenant) db.accounts) == 1 || is_empty st.default_account_code
        then save_settings (record st { default_account_code = code'; active_account_code = code' })
        else pure tt

  abbrev pub create_free : AccountInput → Option KdzsAccount → M KdzsAccountDetail
  create_free inp (some a) = fail account_taken
  create_free inp none = do
    insert_account (local_account tenant inp)
    choose_created (trim_space inp.code)
    _ ← call (create_call (as_input (local_account tenant inp 0)))
    shown_account (trim_space inp.code)

  unfoldable pub create_local_account : AccountInput → M KdzsAccountDetail
  create_local_account inp = do
    db ← get_db
    if is_empty (trim_space inp.code)
          || is_empty (trim_space inp.mobile)
          || is_empty (trim_space inp.password)
        then fail account_blank
        else create_free inp (first (is_code tenant (trim_space inp.code)) db.accounts)

  abbrev pub store_change : String → AccountUpdate → KdzsAccount → M KdzsAccountDetail
  store_change code' inp a = do
    store_account (edited_account inp a)
    _ ← call (update_call code' (pushed_update inp (edited_account inp a)))
    shown_account code'

  unfoldable pub update_local_account : String → AccountUpdate → M KdzsAccountDetail
  update_local_account code' inp = do
    db ← get_db
    a ← found_row (first (is_code tenant code') db.accounts)
    store_change code' inp a

  unfoldable pub delete_local_account : String → M (Unit {0})
  delete_local_account code' = do
    st ← get_or_create_settings tenant
    db ← get_db
    if str_eq st.default_account_code code' || str_eq st.active_account_code code'
        then fail account_in_use
        else if length (filter (is_code tenant code') db.accounts) == 0
        then fail account_missing
        else remove_account tenant code'

  unfoldable pub set_local_default : String → M (Unit {0})
  set_local_default code' = do
    db ← get_db
    usable_row (first (has_code tenant code') db.accounts)
    st ← get_or_create_settings tenant
    save_settings (record st { default_account_code = code' })

  unfoldable pub switch_local_account : String → M (Unit {0})
  switch_local_account code' = do
    db ← get_db
    usable_row (first (has_code tenant code') db.accounts)
    ensure_ssa_session agent tenant now code'
    st ← get_or_create_settings tenant
    save_settings (record st { active_account_code = code' })

  -- The active account, the default one, or the first of the list.
  abbrev pub session_code : KdzsSetting → M String
  session_code st = do
    db ← get_db
    if is_empty (or_text st.default_account_code st.active_account_code)
        then chosen_first st (head_of (local_accounts tenant db))
        else pure (or_text st.default_account_code st.active_account_code)

  unfoldable pub ensure_active_ssa_session : M (Unit {0})
  ensure_active_ssa_session = do
    ensure_accounts_ready agent tenant now
    st ← get_or_create_settings tenant
    code' ← session_code st
    ensure_ssa_session agent tenant now code'
