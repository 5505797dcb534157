-- ===== src/Carrier/Unique.antt =====
-- No tenant has two carrier accounts of one name.
use shipping_core.Base.{
  ℕ, ◌≡◌, ◌≢◌, refl, sym, ap, ◌∙◌, Bool, true, false, not, ◌&&◌, ◌||◌, String, Option, none, some,
  List, [], ◌∷◌, ◌++◌, filter, if_holds, if_cases, Bool-cases, arith, inl, inr,
}
use shipping_core.Base.Text.{trim_space, str_eq, eq_iff, is_empty}
use shipping_core.Base.Table.{
  first, first-holds, first-Memᴰ, update_where, Memᴰ-filter, Memᴰ-of-update_where, Memᴰ-of-append,
}
use shipping_core.Errors.{Result}
use shipping_core.Shipment.Model.{CarrierAccount}
use shipping_core.Shipment.World.{found_carrier}
use shipping_core.Carrier.Accounts.{
  CarrierAccountDto, CarrierTable, MaskedAccount, is_account, get_raw, has_name, is_nil,
  is_unique_name, created_account, create_account, changed_account, update_found, update_account,
  delete_account,
}
use mathlib.Core.List.{Memᴰ}

-- Two accounts of one tenant with one name have one id.
abbrev pub HasUniqueNames : List CarrierAccount → Type 0
HasUniqueNames rows =
    (r s : CarrierAccount)
    → Memᴰ r rows
    → Memᴰ s rows
    → r.tenant_id ≡ s.tenant_id
    → r.name ≡ s.name
    → r.id ≡ s.id

is_nil-filter :
    (p : CarrierAccount → Bool) (rows : List CarrierAccount) (r : CarrierAccount)
    → is_nil (filter p rows) ≡ true
    → Memᴰ r rows
    → p r ≡ false
is_nil-filter p [] r h m = elim m [ ]
is_nil-filter p (x ∷ rows) r h (Memᴰ.head e) = elim (Bool-cases (p x)) [
  | inl d ↦ let no : false ≡ true = rw d at h in cc
  | inr d ↦ rw e d
]
is_nil-filter p (x ∷ rows) r h (Memᴰ.tail m) = elim (Bool-cases (p x)) [
  | inl d ↦ let no : false ≡ true = rw d at h in cc
  | inr d ↦ is_nil-filter p rows r (rw d at h) m
]

module _ (tenant : ℕ) (name' : String) (exclude : ℕ) (rows : List CarrierAccount)
    (free : is_unique_name tenant name' exclude rows ≡ true) where
  -- An account with the name is the excluded one.
  named-excluded :
      (r : CarrierAccount)
      → Memᴰ r rows
      → r.tenant_id ≡ tenant
      → r.name ≡ name'
      → (exclude ≢ 0) × (r.id ≡ exclude)
  unfolding is_unique_name
  named-excluded r m t n =
      let out : has_name tenant name' exclude r ≡ false =
        is_nil-filter (has_name tenant name' exclude) rows r free m in
      let same : str_eq r.name name' ≡ true = (eq_iff r.name name').1 n in ground arith

HasUniqueNames-create :
    (tenant : ℕ) (inp : CarrierAccountDto) (t : CarrierTable)
    → is_unique_name tenant (trim_space inp.name) 0 t.rows ≡ true
    → HasUniqueNames t.rows
    → HasUniqueNames (t.rows ++ created_account tenant t.next_id inp ∷ [])
HasUniqueNames-create tenant inp t free h r s m k te ne =
    let new' = created_account tenant t.next_id inp in
    let out = named-excluded tenant (trim_space inp.name) 0 t.rows free in
    elim (Memᴰ-of-append t.rows new' r m) [
      | inl m' ↦ elim (Memᴰ-of-append t.rows new' s k) [
        | inl k' ↦ h r s m' k' te ne
        | inr e ↦
            let (nz, d) = out r m' (te ∙ ap (λ x. x.tenant_id) e) (ne ∙ ap (λ x. x.name) e) in
            absurd (nz refl)
      ]
      | inr e ↦ elim (Memᴰ-of-append t.rows new' s k) [
        | inl k' ↦
            let (nz, d) =
              out s k' (sym te ∙ ap (λ x. x.tenant_id) e) (sym ne ∙ ap (λ x. x.name) e) in
            absurd (nz refl)
        | inr d ↦ ap (λ x. x.id) (e ∙ sym d)
      ]
    ]

-- Saving the account `item` in place of the account with its key, under a name that no other has.
module _ (tenant : ℕ) (item : CarrierAccount) (rows : List CarrierAccount)
    (own : item.tenant_id ≡ tenant)
    (free : (r : CarrierAccount)
      → Memᴰ r rows
      → r.tenant_id ≡ tenant
      → r.name ≡ item.name
      → r.id ≡ item.id) where
  HasUniqueNames-save :
      HasUniqueNames rows
      → HasUniqueNames (update_where (is_account tenant item.id) (λ _. item) rows)
  HasUniqueNames-save h r s m k te ne =
      let from = Memᴰ-of-update_where (is_account tenant item.id) (λ _. item) rows in
      elim (from r m) [
        | inl (m', e) ↦ elim (from s k) [
          | inl (k', d) ↦ h r s m' k' te ne
          | inr (x, kx, d, same) ↦
              free r m' (te ∙ ap (λ x. x.tenant_id) same ∙ own) (ne ∙ ap (λ x. x.name) same)
              ∙ sym (ap (λ x. x.id) same)
        ]
        | inr (x, mx, e, same) ↦ elim (from s k) [
          | inl (k', d) ↦
              ap (λ x. x.id) same
              ∙ sym (
                  free s k' (sym te ∙ ap (λ x. x.tenant_id) same ∙ own)
                    (sym ne ∙ ap (λ x. x.name) same))
          | inr (y, ky, d, also) ↦ ap (λ x. x.id) (same ∙ sym also)
        ]
      ]

update_found-HasUniqueNames :
    (tenant id : ℕ) (inp : CarrierAccountDto) (t : CarrierTable) (found : Option CarrierAccount)
    → first (is_account tenant id) t.rows ≡ found
    → HasUniqueNames t.rows
    → HasUniqueNames (update_found tenant id inp t (found_carrier found)).1.rows
update_found-HasUniqueNames tenant id inp t none e h = h
update_found-HasUniqueNames tenant id inp t (some item) e h =
    let at_key : is_account tenant id item ≡ true =
      first-holds (is_account tenant id) t.rows item e in
    let own : item.tenant_id ≡ tenant = ground arith in
    let own_id : item.id ≡ id = ground arith in
    let m = first-Memᴰ (is_account tenant id) t.rows item e in
    if_cases (λ (x : Result MaskedAccount × CarrierTable). HasUniqueNames x.1.rows)
      (not (is_empty (trim_space inp.name))
        && not (is_unique_name tenant (trim_space inp.name) id t.rows))
      _ _ (λ _. h)
      (λ passed.
        HasUniqueNames-save tenant (changed_account inp item) t.rows own
          (λ r k te ne. elim (Bool-cases (is_empty (trim_space inp.name))) [
            | inl blank ↦ h r item k m (te ∙ sym own) (rw blank at ne)
            | inr named ↦
                let free : is_unique_name tenant (trim_space inp.name) id t.rows ≡ true =
                  ground arith in
                (named-excluded tenant (trim_space inp.name) id t.rows free r k te
                  (rw named at ne)).1
                ∙ sym own_id
          ])
          h)

-- The tables that the operations of all tenants reach.
pub data Reached : CarrierTable → Type 0 where
  starts : (next : ℕ) → Reached (record { rows = []; next_id = next })
  by_create :
      {t : CarrierTable} (tenant : ℕ) (inp : CarrierAccountDto)
      → Reached t
      → Reached (create_account tenant inp t).1
  by_update :
      {t : CarrierTable} (tenant id : ℕ) (inp : CarrierAccountDto)
      → Reached t
      → Reached (update_account tenant id inp t).1
  by_delete :
      {t : CarrierTable} (tenant id : ℕ) → Reached t → Reached (delete_account tenant id t).1

create_account-HasUniqueNames :
    (tenant : ℕ) (inp : CarrierAccountDto) (t : CarrierTable)
    → HasUniqueNames t.rows
    → HasUniqueNames (create_account tenant inp t).1.rows
unfolding create_account
create_account-HasUniqueNames tenant inp t h =
    let at_end = λ (x : Result MaskedAccount × CarrierTable). HasUniqueNames x.1.rows in
    if_holds at_end
      (is_empty (trim_space inp.name)
        || is_empty (trim_space inp.partner_id)
        || is_empty (trim_space inp.checkword))
      _ _ h
      (if_cases at_end (not (is_unique_name tenant (trim_space inp.name) 0 t.rows)) _ _ (λ _. h)
        (λ free. HasUniqueNames-create tenant inp t (ground arith) h))

delete_account-HasUniqueNames :
    (tenant id : ℕ) (t : CarrierTable)
    → HasUniqueNames t.rows
    → HasUniqueNames (delete_account tenant id t).1.rows
unfolding delete_account
delete_account-HasUniqueNames tenant id t h =
    let kept = λ (r : CarrierAccount). Memᴰ-filter (λ x. not (is_account tenant id x)) t.rows r in
    if_holds (λ (x : Result (Unit {0}) × CarrierTable). HasUniqueNames x.1.rows)
      (is_nil (filter (is_account tenant id) t.rows)) _ _ h
      (λ r s m k te ne. h r s (kept r m).0 (kept s k).0 te ne)

-- No tenant ever has two accounts of one name: in every table that creating, updating and deleting
-- reach, whatever tenants and requests, two accounts of one tenant with one name have the same id.
pub Reached-HasUniqueNames : {t : CarrierTable} → Reached t → HasUniqueNames t.rows
unfolding update_account get_raw
Reached-HasUniqueNames (starts next) = λ r s m k te ne. elim m [ ]
Reached-HasUniqueNames (by_create {t} tenant inp reached) =
    create_account-HasUniqueNames tenant inp t (Reached-HasUniqueNames reached)
Reached-HasUniqueNames (by_update {t} tenant id inp reached) =
    update_found-HasUniqueNames tenant id inp t (first (is_account tenant id) t.rows) refl
      (Reached-HasUniqueNames reached)
Reached-HasUniqueNames (by_delete {t} tenant id reached) =
    delete_account-HasUniqueNames tenant id t (Reached-HasUniqueNames reached)
