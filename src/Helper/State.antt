-- ===== src/Helper/State.antt =====
-- The tables of the helper's accounts and settings, the stores' agent outside, and operations on
-- them. The router always makes a client of the agent, so that its absence is not modelled. The
-- agent's answers may depend on all calls, the latest first; what it answers to the creation or
-- the change of an account is not read.
use shipping_core.Base.{ℕ, ◌+◌, String, Bool, ◌&&◌, Option, none, some, List, [], ◌∷◌, ◌++◌, ◌==◌}
use shipping_core.Base.Int.{ℤ}
use shipping_core.Base.Text.{str_eq}
use shipping_core.Base.Table.{first, update_where}
use shipping_core.Errors.{Err, Result, ok, err}
use shipping_core.PrintAgent.State.{KdzsSetting}
use shipping_core.PrintAgent.Devices.{of_tenant, new_setting}
use shipping_core.PrintAgent.Login.{KdzsAccount}
use shipping_core.Shipment.World.{Answer}

pub record AccountInput : Type 0 where
  pub code : String
  pub name : String
  pub role : String
  pub mobile : String
  pub password : String
  pub enabled : Bool
  pub sort_order : ℤ

pub record AccountUpdate : Type 0 where
  pub name : String
  pub role : String
  pub mobile : String
  pub password : String
  pub enabled : Option Bool
  pub sort_order : Option ℤ

-- The export of the agent's accounts. An item has the fields of an input; its marks for the default
-- and the active account are read by nothing.
pub record SsaExport : Type 0 where
  pub items : List AccountInput
  pub default_account_code : String
  pub active_account_code : String

pub data SsaCall : Type 0 where
  export_accounts : SsaCall
  create_call : AccountInput → SsaCall
  update_call : String → AccountUpdate → SsaCall
  switch_call : String → SsaCall

-- An answer that cannot be read as such a value is `none`.
pub record StoreAgent : Type 0 where
  pub on_export : List SsaCall → Answer (Option SsaExport)
  pub on_switch : List SsaCall → Answer (Unit {0})

pub record HelperDb : Type 0 where
  pub accounts : List KdzsAccount
  pub next_account : ℕ
  pub settings : List KdzsSetting
  pub calls : List SsaCall

abbrev pub M : Type 0 → Type 0
M A = HelperDb → Result A × HelperDb

abbrev pub chain : {A B : Type 0} → (A → M B) → Result A × HelperDb → Result B × HelperDb
chain k (err e, db) = (err e, db)
chain k (ok a, db) = k a db

infixl 5 ◌>>=◌ ◌>>◌
abbrev pub ◌>>=◌ : {A B : Type 0} → M A → (A → M B) → M B
◌>>=◌ m k db = chain k (m db)

abbrev pub ◌>>◌ : {B : Type 0} → M (Unit {0}) → M B → M B
m >> k = m >>= λ _. k

abbrev pub pure : {A : Type 0} → A → M A
pure a db = (ok a, db)

abbrev pub fail : {A : Type 0} → Err → M A
fail e db = (err e, db)

-- `_ = f()`: an error is dropped, what was done stays.
abbrev pub attempted : {A : Type 0} → Result A × HelperDb → Result (Unit {0}) × HelperDb
attempted (r, db) = (ok tt, db)

abbrev pub attempt : {A : Type 0} → M A → M (Unit {0})
attempt m db = attempted (m db)

abbrev pub get_db : M HelperDb
get_db db = (ok db, db)

-- A call of the agent, with all calls up to this one.
abbrev pub call : SsaCall → M (List SsaCall)
call c db = (ok (c ∷ db.calls), record db { calls = c ∷ db.calls })

abbrev pub is_code : ℕ → String → KdzsAccount → Bool
is_code tenant code' a = a.tenant_id == tenant && str_eq a.code code'

-- `Save` of an account: every column of the row with its key.
abbrev pub store_account : KdzsAccount → M (Unit {0})
store_account a db = (
  ok tt,
  record db { accounts = update_where (λ (r : KdzsAccount). r.id == a.id) (λ _. a) db.accounts },
)

-- `Create` of an account, which is given the next key.
abbrev pub insert_account : (ℕ → KdzsAccount) → M (Unit {0})
insert_account a db = (
  ok tt,
  record db {
    accounts = db.accounts ++ a db.next_account ∷ [];
    next_account = db.next_account + 1;
  },
)

abbrev pub found_setting : ℕ → HelperDb → Option KdzsSetting → Result KdzsSetting × HelperDb
found_setting tenant db (some st) = (ok st, db)
found_setting tenant db none =
    let st = new_setting tenant "" in (ok st, record db { settings = db.settings ++ st ∷ [] })

-- `getOrCreateSettings`
abbrev pub get_or_create_settings : ℕ → M KdzsSetting
get_or_create_settings tenant db = found_setting tenant db (first (of_tenant tenant) db.settings)

-- `Save` of the settings, of which a tenant has one row.
abbrev pub save_settings : KdzsSetting → M (Unit {0})
save_settings st db =
    (ok tt, record db { settings = update_where (of_tenant st.tenant_id) (λ _. st) db.settings })
