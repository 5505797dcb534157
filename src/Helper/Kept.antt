-- ===== src/Helper/Kept.antt =====
-- Every operation on the helper's accounts keeps the table tidy.
use shipping_core.Base.{
  ℕ, ◌≡◌, ◌≢◌, refl, String, true, false, ◌||◌, Option, none, some, List, ◌==◌, filter, length,
  if_holds, arith,
}
use shipping_core.Base.Text.{is_empty, trim_space, str_eq, eq_iff}
use shipping_core.Base.Order.{head_of}
use shipping_core.Base.Table.{first, first-Memᴰ, first-none}
use shipping_core.Errors.{account_blank}
use shipping_core.PrintAgent.State.{KdzsSetting}
use shipping_core.PrintAgent.Login.{KdzsAccount, has_code}
use shipping_core.Helper.State.{
  AccountInput, AccountUpdate, create_call, update_call, StoreAgent, HelperDb, M, ◌>>=◌, fail,
  store_account, insert_account, is_code,
}
use shipping_core.Helper.Accounts.{
  or_text, is_own, local_accounts, as_input, updated_account, synced_account, sync_found, sync_item,
  KdzsAccountDetail,
}
use shipping_core.Helper.Changes.{
  local_account, edited_account, pushed_update, shown_detail, is_detail, shown_account,
  choose_created, create_free, create_local_account, found_row, store_change, update_local_account,
  delete_local_account, set_local_default, switch_local_account, ensure_active_ssa_session,
  usable_row, chosen_first, session_code,
}
use shipping_core.Helper.Keeps.{
  Keeps, Keeps-bind, Keeps-if, Keeps-pure, Keeps-fail, Keeps-get_db, Keeps-call,
  Keeps-save_settings, Keeps-settings, Keeps-session, Keeps-ready, Keeps-list,
}
use shipping_core.Helper.Tidy.{IsTidy, IsTidy-insert, IsTidy-save, IsTidy-delete}
use mathlib.Core.List.{Memᴰ}

-- An account that is found under a code is of the tenant and has the code.
pub is_code_iff :
    (tenant : ℕ) (code' : String) (a : KdzsAccount)
    → is_code tenant code' a ≡ true
    → (a.tenant_id ≡ tenant) × (a.code ≡ code')
is_code_iff tenant code' a h =
    let same : str_eq a.code code' ≡ true = ground arith in
    (ground arith, (eq_iff a.code code').0 same)

no_code :
    (tenant : ℕ) (code' : String) (rows : List KdzsAccount)
    → first (is_code tenant code') rows ≡ none
    → (r : KdzsAccount) → Memᴰ r rows
    → r.tenant_id ≡ tenant
    → r.code ≢ code'
no_code tenant code' rows free r m te ce =
    let out = first-none (is_code tenant code') rows r free m in
    let same = (eq_iff r.code code').1 ce in let no : false ≡ true = ground arith in cc

pub sync_found-IsTidy :
    (tenant : ℕ) (item : AccountInput) (db : HelperDb) (found : Option KdzsAccount)
    → first (is_code tenant (trim_space item.code)) db.accounts ≡ found
    → IsTidy db.accounts db.next_account
    → let db' = (sync_found tenant item found db).1 in IsTidy db'.accounts db'.next_account
sync_found-IsTidy tenant item db none free tidy =
    IsTidy-insert db.accounts db.next_account tidy (synced_account tenant item db.next_account) refl
      (no_code tenant (trim_space item.code) db.accounts free)
sync_found-IsTidy tenant item db (some a) e tidy =
    IsTidy-save db.accounts db.next_account tidy a (updated_account item a)
      (first-Memᴰ (is_code tenant (trim_space item.code)) db.accounts a e) refl refl refl

pub sync_item-IsTidy : (tenant : ℕ) (item : AccountInput) → Keeps IsTidy (sync_item tenant item)
unfolding sync_item
sync_item-IsTidy tenant item = record {
  keeps = λ db h.
      sync_found-IsTidy tenant item db (first (is_code tenant (trim_space item.code)) db.accounts)
        refl h;
}

usable_row-Keeps : (found : Option KdzsAccount) → Keeps IsTidy (usable_row found)
usable_row-Keeps none = Keeps-fail IsTidy
usable_row-Keeps (some a) = Keeps-pure IsTidy tt

chosen_first-Keeps :
    (st : KdzsSetting) (found : Option KdzsAccount) → Keeps IsTidy (chosen_first st found)
chosen_first-Keeps st none = Keeps-fail IsTidy
chosen_first-Keeps st (some a) =
    Keeps-bind IsTidy (Keeps-save_settings IsTidy _) (λ _. Keeps-pure IsTidy a.code)

shown_detail-Keeps : (found : Option KdzsAccountDetail) → Keeps IsTidy (shown_detail found)
shown_detail-Keeps none = Keeps-fail IsTidy
shown_detail-Keeps (some d) = Keeps-pure IsTidy d

module _ (agent : StoreAgent) (tenant now : ℕ) where
  shown_account-Keeps : (code' : String) → Keeps IsTidy (shown_account agent tenant now code')
  shown_account-Keeps code' =
      Keeps-bind IsTidy (Keeps-list IsTidy agent tenant now (sync_item-IsTidy tenant))
        (λ ds. shown_detail-Keeps (first (is_detail code') ds))

  choose_created-Keeps : (code' : String) → Keeps IsTidy (choose_created agent tenant now code')
  choose_created-Keeps code' = Keeps-bind IsTidy (Keeps-settings IsTidy tenant) (λ st.
      Keeps-bind IsTidy (Keeps-get_db IsTidy) (λ db.
        Keeps-if IsTidy
          (length (filter (is_own tenant) db.accounts) == 1 || is_empty st.default_account_code)
          (Keeps-save_settings IsTidy _) (Keeps-pure IsTidy tt)))

  create_free-IsTidy :
      (inp : AccountInput) (db : HelperDb) (found : Option KdzsAccount)
      → first (is_code tenant (trim_space inp.code)) db.accounts ≡ found
      → IsTidy db.accounts db.next_account
      → let db' = (create_free agent tenant now inp found db).1 in
        IsTidy db'.accounts db'.next_account
  create_free-IsTidy inp db (some a) e tidy = tidy
  create_free-IsTidy inp db none free tidy =
      let shown = Keeps-bind IsTidy (choose_created-Keeps (trim_space inp.code)) (λ _.
        Keeps-bind IsTidy (Keeps-call IsTidy (create_call (as_input (local_account tenant inp 0))))
          (λ _. shown_account-Keeps (trim_space inp.code))) in
      shown.keeps (insert_account (local_account tenant inp) db).1 (
        IsTidy-insert db.accounts db.next_account tidy (local_account tenant inp db.next_account)
          refl (no_code tenant (trim_space inp.code) db.accounts free))

  pub create_local_account-Keeps :
      (inp : AccountInput) → Keeps IsTidy (create_local_account agent tenant now inp)
  unfolding create_local_account
  create_local_account-Keeps inp = record {
    keeps = λ db h.
        if_holds (λ (m : M KdzsAccountDetail). IsTidy (m db).1.accounts (m db).1.next_account)
          (is_empty (trim_space inp.code)
            || is_empty (trim_space inp.mobile)
            || is_empty (trim_space inp.password))
          (fail account_blank) _ h
          (create_free-IsTidy inp db (first (is_code tenant (trim_space inp.code)) db.accounts) refl
            h);
  }

  update_found-IsTidy :
      (code' : String) (inp : AccountUpdate) (db : HelperDb) (found : Option KdzsAccount)
      → first (is_code tenant code') db.accounts ≡ found
      → IsTidy db.accounts db.next_account
      → let db' = ((found_row found >>= store_change agent tenant now code' inp) db).1 in
        IsTidy db'.accounts db'.next_account
  update_found-IsTidy code' inp db none e tidy = tidy
  update_found-IsTidy code' inp db (some a) e tidy =
      let shown =
        Keeps-bind IsTidy
          (Keeps-call IsTidy (update_call code' (pushed_update inp (edited_account inp a))))
          (λ _. shown_account-Keeps code') in
      shown.keeps (store_account (edited_account inp a) db).1 (
        IsTidy-save db.accounts db.next_account tidy a (edited_account inp a)
          (first-Memᴰ (is_code tenant code') db.accounts a e) refl refl refl)

  pub update_local_account-Keeps :
      (code' : String) (inp : AccountUpdate)
      → Keeps IsTidy (update_local_account agent tenant now code' inp)
  unfolding update_local_account
  update_local_account-Keeps code' inp = record {
    keeps =
        λ db h. update_found-IsTidy code' inp db (first (is_code tenant code') db.accounts) refl h;
  }

  pub delete_local_account-Keeps :
      (code' : String) → Keeps IsTidy (delete_local_account agent tenant now code')
  unfolding delete_local_account
  delete_local_account-Keeps code' = Keeps-bind IsTidy (Keeps-settings IsTidy tenant) (λ st.
      Keeps-bind IsTidy (Keeps-get_db IsTidy) (λ db.
        Keeps-if IsTidy
          (str_eq st.default_account_code code' || str_eq st.active_account_code code')
          (Keeps-fail IsTidy)
          (Keeps-if IsTidy (length (filter (is_code tenant code') db.accounts) == 0)
            (Keeps-fail IsTidy)
            (record {
              keeps = λ db' h. IsTidy-delete db'.accounts db'.next_account h (is_code tenant code');
            }))))

  pub set_local_default-Keeps :
      (code' : String) → Keeps IsTidy (set_local_default agent tenant now code')
  unfolding set_local_default
  set_local_default-Keeps code' = Keeps-bind IsTidy (Keeps-get_db IsTidy) (λ db.
      Keeps-bind IsTidy (usable_row-Keeps (first (has_code tenant code') db.accounts)) (λ _.
        Keeps-bind IsTidy (Keeps-settings IsTidy tenant) (λ st. Keeps-save_settings IsTidy _)))

  pub switch_local_account-Keeps :
      (code' : String) → Keeps IsTidy (switch_local_account agent tenant now code')
  unfolding switch_local_account
  switch_local_account-Keeps code' = Keeps-bind IsTidy (Keeps-get_db IsTidy) (λ db.
      Keeps-bind IsTidy (usable_row-Keeps (first (has_code tenant code') db.accounts)) (λ _.
        Keeps-bind IsTidy (Keeps-session IsTidy agent tenant now code') (λ _.
          Keeps-bind IsTidy (Keeps-settings IsTidy tenant) (λ st. Keeps-save_settings IsTidy _))))

  session_code-Keeps : (st : KdzsSetting) → Keeps IsTidy (session_code agent tenant now st)
  session_code-Keeps st = Keeps-bind IsTidy (Keeps-get_db IsTidy) (λ db.
      Keeps-if IsTidy (is_empty (or_text st.default_account_code st.active_account_code))
        (chosen_first-Keeps st (head_of (local_accounts tenant db)))
        (Keeps-pure IsTidy (or_text st.default_account_code st.active_account_code)))

  pub ensure_active_ssa_session-Keeps : Keeps IsTidy (ensure_active_ssa_session agent tenant now)
  unfolding ensure_active_ssa_session
  ensure_active_ssa_session-Keeps =
      Keeps-bind IsTidy (Keeps-ready IsTidy agent tenant now (sync_item-IsTidy tenant)) (λ _.
        Keeps-bind IsTidy (Keeps-settings IsTidy tenant) (λ st.
          Keeps-bind IsTidy (session_code-Keeps st)
            (λ code'. Keeps-session IsTidy agent tenant now code')))
