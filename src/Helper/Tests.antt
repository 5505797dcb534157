-- ===== src/Helper/Tests.antt =====
-- The theorems on the helper's accounts, at a tenant with a local account.
use shipping_core.Base.{String, ℕ, ◌≡◌, refl, true, none, some, List, [], ◌∷◌, map, inl}
use shipping_core.Base.Int.{ℤ, pos}
use shipping_core.Base.Text.{trim_space}
use shipping_core.Base.Order.{order_by}
use shipping_core.PrintAgent.State.{KdzsSetting}
use shipping_core.PrintAgent.Devices.{new_setting}
use shipping_core.PrintAgent.Login.{KdzsAccount}
use shipping_core.Shipment.World.{answer, refusal}
use shipping_core.Helper.State.{AccountInput, AccountUpdate, StoreAgent, HelperDb}
use shipping_core.Helper.Accounts.{
  sync_item, sync_items, sync_accounts_from_ssa, ensure_ssa_session, ensure_accounts_ready,
  list_account_details, local_accounts, to_detail,
}
use shipping_core.Helper.Changes.{local_account, update_local_account, delete_local_account}
use shipping_core.Helper.Tidy.{IsTidy, IsTidy-insert}
use shipping_core.Helper.Codes.{Reached, starts, served, sync, create, serve, Reached-IsTidy}
use shipping_core.Helper.Safe.{Has, sync_accounts_from_ssa-SameLogin, delete_local_account-in_use}
use mathlib.Core.List.{Memᴰ}

abbrev account : String → ℕ → AccountInput
account secret order = record {
  code = "a";
  name = "shop";
  role = "";
  mobile = "1";
  password = secret;
  enabled = true;
  sort_order = pos order;
}

-- The agent exports one account, under the code of the local one.
abbrev agent : StoreAgent
agent = record {
  on_export = λ calls. answer (
      some (record {
        items = account "theirs" 9 ∷ [];
        default_account_code = "";
        active_account_code = "";
      }));
  on_switch = λ calls. refusal "no";
}

abbrev own_account : KdzsAccount
own_account = local_account 1 (account "ours" 5) 1

abbrev choice : KdzsSetting
choice = record (new_setting 1 "") { default_account_code = "a"; active_account_code = "a" }

abbrev db : HelperDb
db = record { accounts = own_account ∷ []; next_account = 2; settings = choice ∷ []; calls = [] }

reached : Reached (
    serve agent 1 40
      (create (account "ours" 5))
      (record { accounts = []; next_account = 1; settings = []; calls = [] }))
reached = served agent 1 40 (create (account "ours" 5)) (starts 1)

Reached-IsTidy_example :
    let db' = serve agent 1 50 (sync true) (
      serve agent 1 40
        (create (account "ours" 5))
        (record { accounts = []; next_account = 1; settings = []; calls = [] })) in
    IsTidy db'.accounts db'.next_account
Reached-IsTidy_example = Reached-IsTidy (served agent 1 50 (sync true) reached)

db-IsTidy : IsTidy db.accounts db.next_account
db-IsTidy =
    IsTidy-insert [] 1 (Reached-IsTidy (starts 1)) own_account refl (λ r m te ce. elim m [ ])

abbrev passwords : HelperDb → List String
passwords d = map (λ (a : KdzsAccount). a.password) d.accounts

-- The local password is kept, the order is the agent's.
passwords_test : passwords (sync_accounts_from_ssa agent 1 50 true db).1 ≡ "ours" ∷ []
unfolding sync_accounts_from_ssa sync_items sync_item ensure_ssa_session trim_space
passwords_test = refl

sync_accounts_from_ssa-SameLogin_example :
    Has own_account (sync_accounts_from_ssa agent 1 50 true db).1.accounts
sync_accounts_from_ssa-SameLogin_example =
    sync_accounts_from_ssa-SameLogin own_account refl refl agent 1 50 true db db-IsTidy
      (Memᴰ.head refl)

delete_local_account-in_use_example :
    Memᴰ own_account (delete_local_account agent 1 50 "a" db).1.accounts
unfolding trim_space
delete_local_account-in_use_example =
    delete_local_account-in_use agent 1 50 "a" choice own_account db refl (Memᴰ.head refl)
      (inl refl)

abbrev reorder : AccountUpdate
reorder = record {
  name = "";
  role = "";
  mobile = "";
  password = "";
  enabled = none;
  sort_order = some (pos 7);
}

abbrev orders : HelperDb → List ℤ
orders d = map (λ (a : KdzsAccount). a.sort_order) d.accounts

-- An order that is set locally is not sent to the agent, and the synchronisation that follows at once
-- brings the old one back.
order_lost : orders (update_local_account agent 1 50 "a" reorder db).1 ≡ pos 9 ∷ []
unfolding update_local_account list_account_details ensure_accounts_ready sync_accounts_from_ssa
    sync_items sync_item ensure_ssa_session local_accounts to_detail trim_space order_by
order_lost = refl
