-- ===== src/Shipper/Chosen.antt =====
-- What choosing a default and creating a profile do to the profile itself.
use shipping_core.Base.{
  ℕ, ◌≤◌, ◌≡◌, sym, ap, true, ◌||◌, some, List, [], ◌∷◌, Bool-cases, arith, inl, inr, subst,
}
use shipping_core.Base.Text.{is_empty, trim_space}
use shipping_core.Base.Table.{first, first-holds}
use shipping_core.Errors.{ok, ok-injective}
use shipping_core.Shipper.Profiles.{
  ShipperProfile, ShipperProfileDto, ShipperTable, of_tenant_id, get_profile, clear_default,
  save_row, save_with_default, create_profile, set_default,
}
use shipping_core.Shipper.Defaults.{defaults}
use shipping_core.Shipper.WellFormed.{IsWellFormed, set_default-IsWellFormed, got_first, got_id}

first-saved :
    (tenant : ℕ) (item r : ShipperProfile) (rows : List ShipperProfile)
    → first (of_tenant_id tenant item.id) rows ≡ some r
    → of_tenant_id tenant item.id item ≡ true
    → first (of_tenant_id tenant item.id) (save_row tenant item (clear_default tenant rows))
      ≡ some item
first-saved tenant item r [] h own = cc
first-saved tenant item r (x ∷ rows) h own = ground (arith, first-saved tenant item r rows)

-- After SetDefault on a profile of the tenant in a well-formed table, that profile is stored as a
-- default, otherwise as it was, and no other profile of the tenant is a default.
pub set_default-only :
    (tenant id : ℕ) (t : ShipperTable) (r : ShipperProfile)
    → IsWellFormed tenant t
    → get_profile tenant id t ≡ ok r
    → (first (of_tenant_id tenant id) (set_default tenant id t).1.rows
        ≡ some (record r { is_default = true }))
      × (defaults tenant (set_default tenant id t).1.rows ≤ 1)
unfolding set_default
set_default-only tenant id t r wf got =
    let item : ShipperProfile = record r { is_default = true } in
    let rows = save_row tenant item (clear_default tenant t.rows) in
    let found = got_first tenant id t wf r got in
    let same = got_id tenant id t wf r got in
    let holds : of_tenant_id tenant id r ≡ true =
      first-holds (of_tenant_id tenant id) t.rows r found in
    let saved =
      first-saved tenant item r t.rows
        (subst (λ k. first (of_tenant_id tenant k) t.rows ≡ some r) (sym same) found)
        (subst (λ k. of_tenant_id tenant k r ≡ true) (sym same) holds) in
    (
      rw got (subst (λ k. first (of_tenant_id tenant k) rows ≡ some item) same saved),
      (set_default-IsWellFormed tenant id t wf).one_default,
    )

-- A profile that is created is enabled, whatever the request says of it.
pub create_profile-enabled :
    (tenant : ℕ) (inp : ShipperProfileDto) (t : ShipperTable) (r : ShipperProfile)
    → (create_profile tenant inp t).0 ≡ ok r
    → r.enabled ≡ true
unfolding create_profile save_with_default
create_profile-enabled tenant inp t r h =
    elim (Bool-cases (
      is_empty (trim_space inp.name)
      || is_empty (trim_space inp.mobile)
      || is_empty (trim_space inp.address))) [
        | inl e ↦ cc (rw e at h)
        | inr e ↦ elim (Bool-cases inp.is_default) [
          | inl d ↦ sym (ap (λ (x : ShipperProfile). x.enabled) (ok-injective (rw (e, d) at h)))
          | inr d ↦ sym (ap (λ (x : ShipperProfile). x.enabled) (ok-injective (rw (e, d) at h)))
        ]
      ]
