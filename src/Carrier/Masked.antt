-- ===== src/Carrier/Masked.antt =====
-- What is shown of a secret key can be sent back without changing the key.
use shipping_core.Base.{
  ℕ, ◌≡◌, refl, sym, subst, true, false, not, ◌&&◌, String, some, List, [], ◌∷◌, leb, length,
  Bool-cases, arith, inl, inr, if_holds,
}
use shipping_core.Base.Text.{trim_space, is_empty, bytes, has_prefix}
use shipping_core.Base.Text.Bytes.{has_prefix-stars, bytes-nil}
use shipping_core.Base.Table.{first, first-holds, update_where}
use shipping_core.Errors.{Result, ok}
use shipping_core.Shipment.Model.{CarrierAccount}
use shipping_core.Shipment.Rows.{found_carrier-ok}
use shipping_core.Carrier.Accounts.{
  CarrierAccountDto, CarrierTable, MaskedAccount, is_account, get_raw, mask_bytes, mask_checkword,
  mask_account, has_new_checkword, changed_account, update_found, update_account, is_unique_name,
}

mask_bytes-kept : (v : List ℕ) (s : String) → bytes s ≡ mask_bytes v → has_prefix s "****" ≡ true
mask_bytes-kept v s h = elim (Bool-cases (leb (length v) 4)) [
  | inl e ↦ has_prefix-stars s [] (rw e at h)
  | inr e ↦ has_prefix-stars s _ (rw e at h)
]

has_new_checkword-masked :
    (key s : String) → bytes s ≡ mask_checkword key → has_new_checkword s ≡ false
unfolding has_new_checkword mask_checkword trim_space
has_new_checkword-masked key s h = elim (Bool-cases (is_empty (trim_space key))) [
  | inl e ↦ let blank : s ≡ "" = bytes-nil s (rw e at h) in rw blank refl
  | inr e ↦
      let masked : has_prefix s "****" ≡ true =
        mask_bytes-kept (bytes (trim_space key)) s (rw e at h) in
      ground arith
]

-- The account that a search finds after the account with its key was saved.
first-save :
    (tenant id : ℕ) (item : CarrierAccount) (rows : List CarrierAccount) (old : CarrierAccount)
    → first (is_account tenant id) rows ≡ some old
    → is_account tenant id item ≡ true
    → first (is_account tenant id) (update_where (is_account tenant id) (λ _. item) rows)
      ≡ some item
first-save tenant id item [] old h k = cc
first-save tenant id item (r ∷ rows) old h k = elim (Bool-cases (is_account tenant id r)) [
  | inl e ↦ rw (e, k) refl
  | inr e ↦ rw (e, e) (first-save tenant id item rows old (rw e at h) k)
]

-- The account with the key is found, and has the secret key `key`.
abbrev HasKey : ℕ → ℕ → String → CarrierTable → Type 0
HasKey tenant id secret t =
    (row : CarrierAccount) × (first (is_account tenant id) t.rows ≡ some row)
    × (row.checkword ≡ secret)

changed-checkword :
    (inp : CarrierAccountDto) (item : CarrierAccount)
    → bytes inp.checkword ≡ mask_checkword item.checkword
    → (changed_account inp item).checkword ≡ item.checkword
changed-checkword inp item h = rw (has_new_checkword-masked item.checkword inp.checkword h) refl

update_found-masked :
    (tenant id : ℕ) (inp : CarrierAccountDto) (t : CarrierTable) (item : CarrierAccount)
    → first (is_account tenant id) t.rows ≡ some item
    → bytes inp.checkword ≡ mask_checkword item.checkword
    → HasKey tenant id item.checkword (update_found tenant id inp t (ok item)).1
update_found-masked tenant id inp t item found h =
    let at_key : is_account tenant id item ≡ true =
      first-holds (is_account tenant id) t.rows item found in
    let own_id : item.id ≡ id = ground arith in
    if_holds (λ (x : Result MaskedAccount × CarrierTable). HasKey tenant id item.checkword x.1)
      (not (is_empty (trim_space inp.name))
        && not (is_unique_name tenant (trim_space inp.name) id t.rows))
      _ _ (item, found, refl)
      (
        changed_account inp item,
        subst
            (λ k.
              first (is_account tenant id)
                (update_where (is_account tenant k) (λ _. changed_account inp item) t.rows)
              ≡ some (changed_account inp item))
            (sym own_id) (first-save tenant id (changed_account inp item) t.rows item found at_key),
        changed-checkword inp item h,
      )

-- Sending back what Get shows of the secret key does not change it: after Update, refused or not, of
-- an account with a request whose checkword has the bytes that Get shows, the account is there and
-- its stored checkword is the one that it had.
pub update_account-masked :
    (tenant id : ℕ) (inp : CarrierAccountDto) (t : CarrierTable) (item : CarrierAccount)
    → get_raw tenant id t ≡ ok item
    → bytes inp.checkword ≡ (mask_account item).shown_checkword
    → (row : CarrierAccount) × (get_raw tenant id (update_account tenant id inp t).1 ≡ ok row)
      × (row.checkword ≡ item.checkword)
unfolding get_raw update_account
update_account-masked tenant id inp t item h shown =
    let found = found_carrier-ok (first (is_account tenant id) t.rows) item h in
    let (row, at, key) = update_found-masked tenant id inp t item found shown in
    (row, rw (found, at) refl, key)
