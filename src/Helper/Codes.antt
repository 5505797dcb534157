-- ===== src/Helper/Codes.antt =====
-- No tenant has two of the helper's accounts under one code.
use shipping_core.Base.{ℕ, String, Bool, []}
use shipping_core.Helper.State.{AccountInput, AccountUpdate, StoreAgent, HelperDb}
use shipping_core.Helper.Accounts.{sync_accounts_from_ssa, list_account_details}
use shipping_core.Helper.Changes.{
  create_local_account, update_local_account, delete_local_account, set_local_default,
  switch_local_account, ensure_active_ssa_session,
}
use shipping_core.Helper.Keeps.{Keeps-sync, Keeps-list}
use shipping_core.Helper.Tidy.{IsTidy}
use shipping_core.Helper.Kept.{
  sync_item-IsTidy, create_local_account-Keeps, update_local_account-Keeps,
  delete_local_account-Keeps, set_local_default-Keeps, switch_local_account-Keeps,
  ensure_active_ssa_session-Keeps,
}

-- What the service is asked for.
pub data Request : Type 0 where
  sync : Bool → Request
  create : AccountInput → Request
  update : String → AccountUpdate → Request
  delete choose switch : String → Request
  list session : Request

abbrev pub serve : StoreAgent → ℕ → ℕ → Request → HelperDb → HelperDb
serve agent tenant now (sync adopt) db = (sync_accounts_from_ssa agent tenant now adopt db).1
serve agent tenant now (create inp) db = (create_local_account agent tenant now inp db).1
serve agent tenant now (update code' inp) db =
    (update_local_account agent tenant now code' inp db).1
serve agent tenant now (delete code') db = (delete_local_account agent tenant now code' db).1
serve agent tenant now (choose code') db = (set_local_default agent tenant now code' db).1
serve agent tenant now (switch code') db = (switch_local_account agent tenant now code' db).1
serve agent tenant now list db = (list_account_details agent tenant now db).1
serve agent tenant now session db = (ensure_active_ssa_session agent tenant now db).1

serve-IsTidy :
    (agent : StoreAgent) (tenant now : ℕ) (r : Request) (db : HelperDb)
    → IsTidy db.accounts db.next_account
    → let db' = serve agent tenant now r db in IsTidy db'.accounts db'.next_account
serve-IsTidy agent tenant now (sync adopt) =
    (Keeps-sync IsTidy agent tenant now (sync_item-IsTidy tenant) adopt).keeps
serve-IsTidy agent tenant now (create inp) = (create_local_account-Keeps agent tenant now inp).keeps
serve-IsTidy agent tenant now (update code' inp) =
    (update_local_account-Keeps agent tenant now code' inp).keeps
serve-IsTidy agent tenant now (delete code') =
    (delete_local_account-Keeps agent tenant now code').keeps
serve-IsTidy agent tenant now (choose code') =
    (set_local_default-Keeps agent tenant now code').keeps
serve-IsTidy agent tenant now (switch code') =
    (switch_local_account-Keeps agent tenant now code').keeps
serve-IsTidy agent tenant now list =
    (Keeps-list IsTidy agent tenant now (sync_item-IsTidy tenant)).keeps
serve-IsTidy agent tenant now session = (ensure_active_ssa_session-Keeps agent tenant now).keeps

-- The tables that requests reach from empty ones; the agent may answer each of them in its own way.
pub data Reached : HelperDb → Type 0 where
  starts :
      (next : ℕ)
      → Reached (record { accounts = []; next_account = next; settings = []; calls = [] })
  served :
      {db : HelperDb} (agent : StoreAgent) (tenant now : ℕ) (r : Request)
      → Reached db
      → Reached (serve agent tenant now r db)

-- No tenant ever has two of the helper's accounts under one code: in every state that requests of
-- any tenants reach, whatever the stores' agent answers, accounts of one tenant with one code are
-- the same row, and so are accounts with one key; every key is below the table's sequence.
pub Reached-IsTidy : {db : HelperDb} → Reached db → IsTidy db.accounts db.next_account
Reached-IsTidy (starts next) = record {
  ids = λ r s m k e. elim m [ ];
  codes = λ r s m k te ce. elim m [ ];
  below = λ r m. elim m [ ];
}
Reached-IsTidy (served {db} agent tenant now r reached) =
    serve-IsTidy agent tenant now r db (Reached-IsTidy reached)
