-- ===== src/Helper/Safe.antt =====
-- What the tenant has chosen itself is safe: the password of a local account from the agent's
-- export, and the accounts in use from deletion.
use shipping_core.Base.{
  ℕ, ◌≡◌, refl, ◌∙◌, String, Bool, false, ◌||◌, Option, none, some, List, ◌==◌, ◌⊎◌, inl, inr,
  filter, length, Bool-cases, ==_refl, arith,
}
use shipping_core.Base.Text.{is_empty, trim_space, str_eq}
use shipping_core.Base.Table.{
  first, first-Memᴰ, Memᴰ-update_where, Memᴰ-update_where_self, Memᴰ-delete_where,
}
use shipping_core.PrintAgent.State.{KdzsSetting}
use shipping_core.PrintAgent.Devices.{of_tenant}
use shipping_core.PrintAgent.Login.{KdzsAccount}
use shipping_core.Helper.State.{AccountInput, StoreAgent, HelperDb, is_code}
use shipping_core.Helper.Accounts.{updated_account, sync_found, sync_item, sync_accounts_from_ssa}
use shipping_core.Helper.Changes.{delete_local_account}
use shipping_core.Helper.Keeps.{Keeps, Keeps-sync}
use shipping_core.Helper.Tidy.{IsTidy}
use shipping_core.Helper.Kept.{sync_found-IsTidy}
use mathlib.Core.List.{Memᴰ}
use mathlib.Core.List.Memᴰ

-- A row that has the key, the tenant, the code, the password and the source of the account.
pub record SameLogin (a b : KdzsAccount) : Type 0 where
  pub id : b.id ≡ a.id
  pub tenant : b.tenant_id ≡ a.tenant_id
  pub code : b.code ≡ a.code
  pub password : b.password ≡ a.password
  pub source : b.source ≡ a.source

abbrev pub Has : KdzsAccount → List KdzsAccount → Type 0
Has a accounts = (b : KdzsAccount) × Memᴰ b accounts × SameLogin a b

module _ (a : KdzsAccount) (own : a.source ≡ "local") (set : is_empty a.password ≡ false) where
  updated-SameLogin :
      (item : AccountInput) (b : KdzsAccount) → SameLogin a b → SameLogin a (updated_account item b)
  updated-SameLogin item b same =
      let local' : b.source ≡ "local" = same.source ∙ own in
      let kept : is_empty b.password ≡ false = rw same.password set in
      let other : str_eq b.source "ssa" ≡ false = rw local' refl in
      let named : is_empty b.source ≡ false = rw local' refl in
      record {
        id = same.id;
        tenant = same.tenant;
        code = same.code;
        password = ground (arith);
        source = rw named same.source;
      }

  sync_found-Has :
      (tenant : ℕ) (item : AccountInput) (db : HelperDb) (found : Option KdzsAccount)
      → first (is_code tenant (trim_space item.code)) db.accounts ≡ found
      → IsTidy db.accounts db.next_account
      → Has a db.accounts
      → Has a (sync_found tenant item found db).1.accounts
  sync_found-Has tenant item db none e tidy (b, m, same) = (b, Memᴰ.append_left _ m, same)
  sync_found-Has tenant item db (some c) e tidy (b, m, same) =
      let there = first-Memᴰ (is_code tenant (trim_space item.code)) db.accounts c e in
      elim (Bool-cases (b.id == c.id)) [
        | inl d ↦
            let is_c : b ≡ c = tidy.ids b c m there (ground arith) in
            (
              updated_account item c,
              Memᴰ-update_where_self (λ r. r.id == c.id) (λ _. updated_account item c) db.accounts c
                  there (==_refl c.id),
              updated-SameLogin item c (rw (← is_c) same),
            )
        | inr d ↦ (
          b,
          Memᴰ-update_where (λ r. r.id == c.id) (λ _. updated_account item c) db.accounts b m d,
          same,
        )
      ]

  -- The table is tidy, and the account's login is in it.
  abbrev pub Holds : List KdzsAccount → ℕ → Type 0
  Holds accounts next = IsTidy accounts next × Has a accounts

  sync_item-Holds : (tenant : ℕ) (item : AccountInput) → Keeps Holds (sync_item tenant item)
  unfolding sync_item
  sync_item-Holds tenant item = record {
    keeps = λ db (tidy, has).
        let found = first (is_code tenant (trim_space item.code)) db.accounts in
        (
          sync_found-IsTidy tenant item db found refl tidy,
          sync_found-Has tenant item db found refl tidy has,
        );
  }

  -- A local account with a password keeps it: after a synchronisation, of whatever tenant, with
  -- whatever export, forced or not, completed or refused half-way, the account is still in the
  -- table, with its code, its password and its source. The table is taken to be tidy.
  pub sync_accounts_from_ssa-SameLogin :
      (agent : StoreAgent) (tenant now : ℕ) (adopt : Bool) (db : HelperDb)
      → IsTidy db.accounts db.next_account
      → Memᴰ a db.accounts
      → Has a (sync_accounts_from_ssa agent tenant now adopt db).1.accounts
  sync_accounts_from_ssa-SameLogin agent tenant now adopt db tidy m =
      let same : SameLogin a a = record {
        id = refl;
        tenant = refl;
        code = refl;
        password = refl;
        source = refl;
      } in
      ((Keeps-sync Holds agent tenant now (sync_item-Holds tenant) adopt).keeps db
        (tidy, (a, m, same))).1

-- An account with the code that is not to be deleted is no account of the deleted code.
kept-code :
    (tenant : ℕ) (code' kept' : String) (a : KdzsAccount)
    → str_eq kept' code' ≡ false
    → a.code ≡ kept'
    → is_code tenant code' a ≡ false
kept-code tenant code' kept' a h e =
    let other : str_eq a.code code' ≡ false = rw e h in ground arith

-- The accounts in use are not deleted: whatever code DeleteLocalAccount is asked to delete, an
-- account stays in the table whose code is the default or the active one of the tenant's settings.
pub delete_local_account-in_use :
    (agent : StoreAgent) (tenant now : ℕ) (code' : String) (st : KdzsSetting) (a : KdzsAccount)
    (db : HelperDb)
    → first (of_tenant tenant) db.settings ≡ some st
    → Memᴰ a db.accounts
    → (a.code ≡ st.default_account_code) ⊎ (a.code ≡ st.active_account_code)
    → Memᴰ a (delete_local_account agent tenant now code' db).1.accounts
unfolding delete_local_account
delete_local_account-in_use agent tenant now code' st a db found m used =
    rw found
      (elim (Bool-cases
        (str_eq st.default_account_code code' || str_eq st.active_account_code code')) [
          | inl e ↦ rw e m
          | inr e ↦
              let other : is_code tenant code' a ≡ false = elim used [
                | inl d ↦ kept-code tenant code' st.default_account_code a (ground arith) d
                | inr d ↦ kept-code tenant code' st.active_account_code a (ground arith) d
              ] in
              elim (Bool-cases (length (filter (is_code tenant code') db.accounts) == 0)) [
                | inl z ↦ rw (e, z) m
                | inr z ↦ rw (e, z) (Memᴰ-delete_where (is_code tenant code') db.accounts a m other)
              ]
        ])
