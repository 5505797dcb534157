-- ===== src/Shipper/Defaults.antt =====
-- A tenant has at most one default profile, whatever operations are run.
use shipping_core.Base.{
  ℕ, ◌+◌, ◌≤◌, ◌≡◌, refl, sym, ap, ◌∙◌, Bool, some, List, [], ◌∷◌, ◌++◌, filter, length, Bool-cases,
  arith, inl, inr, subst,
}
use mathlib.Core.Option.{some-injective}
use shipping_core.Base.Table.{first, delete_where, FreshKey, UniqueKeys}
use shipping_core.Shipper.Profiles.{
  ShipperProfile, of_tenant_id, is_default_of, clear_default, save_row,
}

abbrev pub key : ShipperProfile → ℕ
key r = r.id

-- How many default profiles the tenant has.
abbrev pub defaults : ℕ → List ShipperProfile → ℕ
defaults tenant rows = length (filter (is_default_of tenant) rows)

module _ (tenant : ℕ) where
  pub defaults-clear :
      (rows : List ShipperProfile) → defaults tenant (clear_default tenant rows) ≡ 0
  defaults-clear [] = refl
  defaults-clear (r ∷ rs) = ground (arith, defaults-clear rs)

  save-FreshKey :
      (item : ShipperProfile) (rows : List ShipperProfile)
      → FreshKey key item.id rows
      → save_row tenant item rows ≡ rows
  save-FreshKey item [] h = refl
  save-FreshKey item (r ∷ rs) (ne, h) = ground (arith, save-FreshKey item rs)

  pub defaults-save :
      (item : ShipperProfile) (rows : List ShipperProfile)
      → UniqueKeys key rows
      → defaults tenant (save_row tenant item rows) ≤ defaults tenant rows + 1
  defaults-save item [] u = ground arith
  defaults-save item (r ∷ rs) (fresh, u) = elim (Bool-cases (of_tenant_id tenant item.id r)) [
    | inl e ↦
        let k : r.id ≡ item.id = ground arith in
        let same = save-FreshKey item rs (subst (λ n. FreshKey key n rs) k fresh) in
        rw (e, same) (defaults_cons item r rs)
    | inr e ↦ let rest = defaults-save item rs u in rw e (ground arith)
  ]
    where
      defaults_cons :
          (a b : ShipperProfile) (rows : List ShipperProfile)
          → defaults tenant (a ∷ rows) ≤ defaults tenant (b ∷ rows) + 1
      defaults_cons a b rows = ground arith

  defaults_cons_same :
      (a b : ShipperProfile) (rows : List ShipperProfile)
      → is_default_of tenant a ≡ is_default_of tenant b
      → defaults tenant (a ∷ rows) ≡ defaults tenant (b ∷ rows)
  defaults_cons_same a b rows same = elim (Bool-cases (is_default_of tenant b)) [
    | inl e ↦ let e' = same ∙ e in rw (e, e')
    | inr e ↦ let e' = same ∙ e in rw (e, e')
  ]

  -- A profile that is saved with the flag that it was found with changes nothing of the count.
  pub defaults-save_found :
      (item r : ShipperProfile) (rows : List ShipperProfile)
      → UniqueKeys key rows
      → first (of_tenant_id tenant item.id) rows ≡ some r
      → is_default_of tenant item ≡ is_default_of tenant r
      → defaults tenant (save_row tenant item rows) ≡ defaults tenant rows
  defaults-save_found item r [] u h same = cc
  defaults-save_found item r (x ∷ rs) (fresh, u) h same =
      elim (Bool-cases (of_tenant_id tenant item.id x)) [
        | inl e ↦
            let k : x.id ≡ item.id = ground arith in
            let kept = save-FreshKey item rs (subst (λ n. FreshKey key n rs) k fresh) in
            let h' : some x ≡ some r = rw e at h in
            let flag : is_default_of tenant item ≡ is_default_of tenant x =
              same ∙ ap (is_default_of tenant) (sym (some-injective _ _ h')) in
            rw (e, kept) (defaults_cons_same item x rs flag)
        | inr e ↦ let rest = defaults-save_found item r rs u (rw e at h) same in rw e (ground arith)
      ]

  pub defaults-append :
      (rows : List ShipperProfile) (item : ShipperProfile)
      → defaults tenant (rows ++ item ∷ []) ≡ defaults tenant rows + defaults tenant (item ∷ [])
  defaults-append [] item = ground arith
  defaults-append (r ∷ rs) item = ground (arith, defaults-append rs item)

  pub defaults-delete :
      (p : ShipperProfile → Bool) (rows : List ShipperProfile)
      → defaults tenant (delete_where p rows) ≤ defaults tenant rows
  defaults-delete p [] = ground arith
  defaults-delete p (r ∷ rs) = ground (arith, defaults-delete p rs)
