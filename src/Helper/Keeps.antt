-- ===== src/Helper/Keeps.antt =====
-- What an operation on the helper's accounts keeps, by its parts: a statement on the table of
-- accounts holds through everything that leaves the table alone.
use shipping_core.Base.{
  ℕ, ◌+◌, String, Bool, true, false, ◌||◌, Option, none, some, List, [], ◌∷◌, ◌==◌, if◌then◌else◌,
  filter, length, map,
}
use shipping_core.Base.Text.{is_empty}
use shipping_core.Base.Table.{first}
use shipping_core.Errors.{Err, Result, ok, err}
use shipping_core.PrintAgent.State.{KdzsSetting}
use shipping_core.PrintAgent.Devices.{of_tenant}
use shipping_core.PrintAgent.Login.{KdzsAccount}
use shipping_core.Shipment.World.{Answer, answer, refusal}
use shipping_core.Helper.State.{
  AccountInput, SsaExport, SsaCall, export_accounts, create_call, update_call, switch_call,
  StoreAgent, HelperDb, M, ◌>>=◌, chain, pure, fail, attempted, attempt, get_db, call, is_code,
  found_setting, get_or_create_settings, save_settings,
}
use shipping_core.Helper.Accounts.{
  as_input, as_update, stats_of, to_detail, local_accounts, adopted, adopted_active, is_own,
  is_skipped, sync_item, sync_items, found_account, exported, switched, switch_session,
  switch_again, with_session, ensure_ssa_session, open_session, sync_accounts_from_ssa,
  ensure_accounts_ready, list_account_details,
}

module _ (P : List KdzsAccount → ℕ → Type 0) where
  pub record Keeps {A : Type 0} (m : M A) : Type 0 where
    pub keeps :
        (db : HelperDb) → P db.accounts db.next_account → P (m db).1.accounts (m db).1.next_account

  chain-Keeps :
      {A B : Type 0} (k : A → M B) (x : Result A × HelperDb)
      → ((a : A) → Keeps (k a))
      → P x.1.accounts x.1.next_account
      → P (chain k x).1.accounts (chain k x).1.next_account
  chain-Keeps k (err e, db) keep h = h
  chain-Keeps k (ok a, db) keep h = (keep a).keeps db h

  pub Keeps-bind :
      {A B : Type 0} {m : M A} {k : A → M B} → Keeps m → ((a : A) → Keeps (k a)) → Keeps (m >>= k)
  Keeps-bind {m} {k} start next = record {
    keeps = λ db h. chain-Keeps k (m db) next (start.keeps db h);
  }

  pub Keeps-if :
      {A : Type 0} (b : Bool) {m n : M A} → Keeps m → Keeps n → Keeps (if b then m else n)
  Keeps-if true h k = h
  Keeps-if false h k = k

  pub Keeps-pure : {A : Type 0} (a : A) → Keeps (pure a)
  Keeps-pure a = record { keeps = λ db h. h }

  pub Keeps-fail : {A : Type 0} {e : Err} → Keeps (fail {A = A} e)
  Keeps-fail = record { keeps = λ db h. h }

  pub Keeps-get_db : Keeps get_db
  Keeps-get_db = record { keeps = λ db h. h }

  pub Keeps-call : (c : SsaCall) → Keeps (call c)
  Keeps-call c = record { keeps = λ db h. h }

  pub Keeps-save_settings : (st : KdzsSetting) → Keeps (save_settings st)
  Keeps-save_settings st = record { keeps = λ db h. h }

  found_setting-Keeps :
      (tenant : ℕ) (db : HelperDb) (found : Option KdzsSetting)
      → P db.accounts db.next_account
      → P (found_setting tenant db found).1.accounts (found_setting tenant db found).1.next_account
  found_setting-Keeps tenant db none h = h
  found_setting-Keeps tenant db (some st) h = h

  pub Keeps-settings : (tenant : ℕ) → Keeps (get_or_create_settings tenant)
  Keeps-settings tenant = record {
    keeps = λ db h. found_setting-Keeps tenant db (first (of_tenant tenant) db.settings) h;
  }

  attempted-Keeps :
      {A : Type 0} (x : Result A × HelperDb)
      → P x.1.accounts x.1.next_account
      → P (attempted x).1.accounts (attempted x).1.next_account
  attempted-Keeps (r, db) h = h

  Keeps-attempt : {A : Type 0} {m : M A} → Keeps m → Keeps (attempt m)
  Keeps-attempt {m} keep = record { keeps = λ db h. attempted-Keeps (m db) (keep.keeps db h) }

  Keeps-found : (found : Option KdzsAccount) → Keeps (found_account found)
  Keeps-found none = Keeps-fail
  Keeps-found (some a) = Keeps-pure a

  Keeps-exported : (x : Answer (Option SsaExport)) → Keeps (exported x)
  Keeps-exported (refusal text) = Keeps-fail
  Keeps-exported (answer none) = Keeps-fail
  Keeps-exported (answer (some e)) = Keeps-pure e

  Keeps-switched : (x : Answer (Unit {0})) → Keeps (switched x)
  Keeps-switched (refusal text) = Keeps-fail
  Keeps-switched (answer u) = Keeps-pure tt

  module _ (agent : StoreAgent) (tenant now : ℕ) where
    Keeps-switch : (code' : String) → Keeps (switch_session agent tenant now code')
    Keeps-switch code' =
        Keeps-bind (Keeps-call (switch_call code'))
          (λ calls. Keeps-switched (agent.on_switch calls))

    Keeps-switch_again :
        (a : KdzsAccount) (code' : String) (x : Answer (Unit {0}))
        → Keeps (switch_again agent tenant now a code' x)
    Keeps-switch_again a code' (answer u) = Keeps-pure tt
    Keeps-switch_again a code' (refusal text) =
        Keeps-bind (Keeps-call (create_call (as_input a)))
          (λ _. Keeps-bind (Keeps-call (update_call code' (as_update a))) (λ _. Keeps-switch code'))

    Keeps-with_session :
        (code' : String) (a : KdzsAccount) → Keeps (with_session agent tenant now code' a)
    Keeps-with_session code' a = Keeps-if (is_empty a.password) Keeps-fail (
        Keeps-bind (Keeps-call (switch_call code'))
          (λ calls. Keeps-switch_again a code' (agent.on_switch calls)))

    pub Keeps-session : (code' : String) → Keeps (ensure_ssa_session agent tenant now code')
    unfolding ensure_ssa_session
    Keeps-session code' = Keeps-bind Keeps-get_db (λ db.
        Keeps-bind (Keeps-found (first (is_code tenant code') db.accounts))
          (Keeps-with_session code'))

    Keeps-open : (code' : String) → Keeps (open_session agent tenant now code')
    Keeps-open code' =
        Keeps-if (is_empty code') (Keeps-pure tt) (Keeps-attempt (Keeps-session code'))

    -- What taking over one item keeps, the operations that synchronise keep.
    module _ (keep_item : (item : AccountInput) → Keeps (sync_item tenant item)) where
      Keeps-items : (n : ℕ) (items : List AccountInput) → Keeps (sync_items tenant n items)
      unfolding sync_items
      Keeps-items n [] = Keeps-pure n
      Keeps-items n (item ∷ items) =
          Keeps-if (is_skipped item) (Keeps-items n items)
            (Keeps-bind (keep_item item) (λ _. Keeps-items (n + 1) items))

      pub Keeps-sync : (adopt : Bool) → Keeps (sync_accounts_from_ssa agent tenant now adopt)
      unfolding sync_accounts_from_ssa
      Keeps-sync adopt = Keeps-bind (Keeps-call export_accounts) (λ calls.
          Keeps-bind (Keeps-exported (agent.on_export calls)) (λ e.
            Keeps-bind (Keeps-settings tenant) (λ st. Keeps-bind (Keeps-items 0 e.items) (λ n.
              Keeps-bind (Keeps-save_settings (adopted adopt now e st)) (λ _.
                Keeps-bind (Keeps-open (adopted_active adopt e st))
                  (λ _. Keeps-pure (stats_of adopt now e st n)))))))

      pub Keeps-ready : Keeps (ensure_accounts_ready agent tenant now)
      unfolding ensure_accounts_ready
      Keeps-ready = Keeps-bind (Keeps-settings tenant) (λ st. Keeps-bind Keeps-get_db (λ db.
          Keeps-if (length (filter (is_own tenant) db.accounts) == 0 || st.auto_sync_from_ssa)
            (Keeps-bind (Keeps-sync false) (λ _. Keeps-pure tt)) (Keeps-pure tt)))

      pub Keeps-list : Keeps (list_account_details agent tenant now)
      unfolding list_account_details
      Keeps-list = Keeps-bind Keeps-ready (λ _. Keeps-bind (Keeps-settings tenant) (λ st.
          Keeps-bind Keeps-get_db
            (λ db. Keeps-pure (map (to_detail st) (local_accounts tenant db)))))
