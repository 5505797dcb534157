-- ===== src/Shipper/WellFormed.antt =====
-- Every operation on the profiles keeps the table well-formed, with one default at most.
use shipping_core.Base.{
  ℕ, ◌+◌, ◌≤◌, ◌<◌, ◌≡◌, refl, sym, ap, ◌∙◌, subst, true, false, ◌||◌, Option, none, some, List, [],
  ◌∷◌, ◌++◌, ◌==◌, Bool-cases, arith, inl, inr,
}
use shipping_core.Base.Text.{is_empty, trim_space}
use shipping_core.Base.Table.{first, first-holds, first-All, UniqueKeys}
use shipping_core.Errors.{ok, Result-cases, ok-injective}
use shipping_core.Shipper.Profiles.{
  ShipperProfile, ShipperProfileDto, ShipperTable, of_tenant_id, found_profile, get_profile,
  is_default_of, not_default, clear_default, save_row, save_with_default, create_profile,
  update_profile, changed_profile, set_default, delete_profile,
}
use shipping_core.Shipper.Defaults.{
  key, defaults, defaults-clear, defaults-save, defaults-save_found, defaults-append,
  defaults-delete,
}
use shipping_core.Shipper.Keys.{
  IsNumbered, UniqueKeys-update, IsNumbered-update, UniqueKeys-append, IsNumbered-append,
  UniqueKeys-delete, IsNumbered-delete,
}

-- The keys are unique and below the sequence, and the tenant has one default at most.
pub record IsWellFormed (tenant : ℕ) (t : ShipperTable) : Type 0 where
  pub one_default : defaults tenant t.rows ≤ 1
  pub unique : UniqueKeys key t.rows
  pub numbered : IsNumbered t.next_id t.rows
  pub started : 0 < t.next_id

module _ (tenant : ℕ) where
  save-id : (item r : ShipperProfile) → of_tenant_id tenant item.id r ≡ true → item.id ≡ r.id
  save-id item r e = ground arith

  IsWellFormed-create :
      (item : ShipperProfile) (rows : List ShipperProfile) (next : ℕ)
      → item.id ≡ next
      → defaults tenant rows + defaults tenant (item ∷ []) ≤ 1
      → UniqueKeys key rows
      → IsNumbered next rows
      → 0 < next
      → IsWellFormed tenant (record { rows = rows ++ item ∷ []; next_id = next + 1 })
  IsWellFormed-create item rows next e one u h pos = record {
    one_default = rw (defaults-append tenant rows item) one;
    unique = UniqueKeys-append next rows item u h e;
    numbered = IsNumbered-append next rows item h e pos;
    started = ground arith;
  }

  IsWellFormed-save :
      (item : ShipperProfile) (rows : List ShipperProfile) (next : ℕ)
      → defaults tenant (save_row tenant item rows) ≤ 1
      → UniqueKeys key rows
      → IsNumbered next rows
      → 0 < next
      → IsWellFormed tenant (record { rows = save_row tenant item rows; next_id = next })
  IsWellFormed-save item rows next one u h pos = record {
    one_default = one;
    unique = UniqueKeys-update (of_tenant_id tenant item.id) (λ _. item) (save-id item) rows u;
    numbered =
        IsNumbered-update (of_tenant_id tenant item.id) (λ _. item) (save-id item) next rows h;
    started = pos;
  }

  UniqueKeys-clear :
      (rows : List ShipperProfile)
      → UniqueKeys key rows
      → UniqueKeys key (clear_default tenant rows)
  UniqueKeys-clear = UniqueKeys-update (is_default_of tenant) not_default (λ r e. refl)

  IsNumbered-clear :
      (next : ℕ) (rows : List ShipperProfile)
      → IsNumbered next rows
      → IsNumbered next (clear_default tenant rows)
  IsNumbered-clear = IsNumbered-update (is_default_of tenant) not_default (λ r e. refl)

-- Creating a profile keeps the table well-formed, whether or not it is created as the default.
pub create_profile-IsWellFormed :
    (tenant : ℕ) (inp : ShipperProfileDto) (t : ShipperTable)
    → IsWellFormed tenant t
    → IsWellFormed tenant (create_profile tenant inp t).1
unfolding create_profile save_with_default
create_profile-IsWellFormed tenant inp t wf =
    elim (Bool-cases (
      is_empty (trim_space inp.name)
      || is_empty (trim_space inp.mobile)
      || is_empty (trim_space inp.address))) [
        | inl e ↦ rw e wf
        | inr e ↦ elim (Bool-cases inp.is_default) [
          | inl d ↦
              rw (e, d)
                (IsWellFormed-create tenant _ (clear_default tenant t.rows) t.next_id refl
                  (single _ (defaults-clear tenant t.rows))
                  (UniqueKeys-clear tenant t.rows wf.unique)
                  (IsNumbered-clear tenant t.next_id t.rows wf.numbered) wf.started)
          | inr d ↦
              rw (e, d)
                (IsWellFormed-create tenant _ t.rows t.next_id refl (plain _ refl wf.one_default)
                  wf.unique wf.numbered wf.started)
        ]
      ]
  where
    single : (item : ShipperProfile) {n : ℕ} → n ≡ 0 → n + defaults tenant (item ∷ []) ≤ 1
    single item e = ground arith

    plain :
        (item : ShipperProfile) {n : ℕ}
        → item.is_default ≡ false
        → n ≤ 1
        → n + defaults tenant (item ∷ []) ≤ 1
    plain item e h = ground arith

profile-found :
    (x : Option ShipperProfile) (r : ShipperProfile) → found_profile x ≡ ok r → x ≡ some r
profile-found none r h = cc
profile-found (some y) r h = ap some (ok-injective h)

module _ (tenant id : ℕ) (t : ShipperTable) (wf : IsWellFormed tenant t) (r : ShipperProfile)
    (got : get_profile tenant id t ≡ ok r) where
  pub got_first : first (of_tenant_id tenant id) t.rows ≡ some r
  unfolding get_profile
  got_first = profile-found (first (of_tenant_id tenant id) t.rows) r got

  pub got_id : r.id ≡ id
  got_id =
      let h : of_tenant_id tenant id r ≡ true =
        first-holds (of_tenant_id tenant id) t.rows r got_first in
      ground arith

  got_positive : (r.id == 0) ≡ false
  got_positive =
      let (pos, below) =
        first-All (of_tenant_id tenant id) (λ x. (0 < x.id) × (x.id < t.next_id)) t.rows r
          wf.numbered got_first in
      ground arith

  -- The profile is saved as the default after the old default has been cleared.
  IsWellFormed-default :
      (item : ShipperProfile)
      → IsWellFormed tenant (record t { rows = save_row tenant item (clear_default tenant t.rows) })
  IsWellFormed-default item =
      let cleared = clear_default tenant t.rows in
      let unique = UniqueKeys-clear tenant t.rows wf.unique in
      IsWellFormed-save tenant item cleared t.next_id
        (subst (λ n. defaults tenant (save_row tenant item cleared) ≤ n + 1)
          (defaults-clear tenant t.rows) (defaults-save tenant item cleared unique))
        unique (IsNumbered-clear tenant t.next_id t.rows wf.numbered) wf.started

  -- The profile is saved with the flag that it had.
  IsWellFormed-kept :
      (item : ShipperProfile)
      → item.id ≡ r.id
      → is_default_of tenant item ≡ is_default_of tenant r
      → IsWellFormed tenant (record t { rows = save_row tenant item t.rows })
  IsWellFormed-kept item same flag =
      let found : first (of_tenant_id tenant item.id) t.rows ≡ some r =
        subst (λ k. first (of_tenant_id tenant k) t.rows ≡ some r) (sym (same ∙ got_id))
          got_first in
      IsWellFormed-save tenant item t.rows t.next_id
        (rw (defaults-save_found tenant item r t.rows wf.unique found flag) wf.one_default)
        wf.unique wf.numbered wf.started

-- Changing a profile keeps the table well-formed, whether or not it becomes the default.
pub update_profile-IsWellFormed :
    (tenant id : ℕ) (inp : ShipperProfileDto) (t : ShipperTable)
    → IsWellFormed tenant t
    → IsWellFormed tenant (update_profile tenant id inp t).1
unfolding update_profile save_with_default
update_profile-IsWellFormed tenant id inp t wf = elim (Result-cases (get_profile tenant id t)) [
  | inr (e, failed) ↦ rw failed wf
  | inl (r, got) ↦
      let positive = got_positive tenant id t wf r got in
      elim (Bool-cases inp.is_default) [
        | inl d ↦
            rw (got, d, positive)
              (IsWellFormed-default tenant id t wf r got
                (record (changed_profile inp r) { is_default = true }))
        | inr d ↦
            rw (got, d, positive)
              (IsWellFormed-kept tenant id t wf r got (changed_profile inp r) refl refl)
      ]
]

-- Making a profile the default keeps the table well-formed.
pub set_default-IsWellFormed :
    (tenant id : ℕ) (t : ShipperTable)
    → IsWellFormed tenant t
    → IsWellFormed tenant (set_default tenant id t).1
unfolding set_default
set_default-IsWellFormed tenant id t wf = elim (Result-cases (get_profile tenant id t)) [
  | inr (e, failed) ↦ rw failed wf
  | inl (r, got) ↦
      rw got (IsWellFormed-default tenant id t wf r got (record r { is_default = true }))
]

-- Deleting a profile keeps the table well-formed.
pub delete_profile-IsWellFormed :
    (tenant id : ℕ) (t : ShipperTable)
    → IsWellFormed tenant t
    → IsWellFormed tenant (delete_profile tenant id t).1
unfolding delete_profile
delete_profile-IsWellFormed tenant id t wf =
    let less = defaults-delete tenant (of_tenant_id tenant id) t.rows in
    let one = wf.one_default in
    record {
      one_default = omega (arith, less, one);
      unique = UniqueKeys-delete (of_tenant_id tenant id) t.rows wf.unique;
      numbered = IsNumbered-delete (of_tenant_id tenant id) t.next_id t.rows wf.numbered;
      started = wf.started;
    }

-- The tables that the tenant's operations reach from the empty one.
pub data Reached (tenant : ℕ) : ShipperTable → Type 0 where
  empty : Reached tenant (record { rows = []; next_id = 1 })
  creates :
      (inp : ShipperProfileDto) (t : ShipperTable)
      → Reached tenant t
      → Reached tenant (create_profile tenant inp t).1
  updates :
      (id : ℕ) (inp : ShipperProfileDto) (t : ShipperTable)
      → Reached tenant t
      → Reached tenant (update_profile tenant id inp t).1
  defaults_to :
      (id : ℕ) (t : ShipperTable) → Reached tenant t → Reached tenant (set_default tenant id t).1
  deletes :
      (id : ℕ) (t : ShipperTable) → Reached tenant t → Reached tenant (delete_profile tenant id t).1

-- In every table that a tenant's calls of Create, Update, SetDefault and Delete reach from the empty
-- one, in any order and with any input, the tenant has at most one default profile, the primary keys
-- are unique, and all of them are positive and below the table's sequence.
pub Reached-IsWellFormed :
    (tenant : ℕ) (t : ShipperTable) → Reached tenant t → IsWellFormed tenant t
Reached-IsWellFormed tenant t empty = record {
  one_default = ground arith;
  unique = tt;
  numbered = tt;
  started = ground arith;
}
Reached-IsWellFormed tenant t (creates inp u h) =
    create_profile-IsWellFormed tenant inp u (Reached-IsWellFormed tenant u h)
Reached-IsWellFormed tenant t (updates id inp u h) =
    update_profile-IsWellFormed tenant id inp u (Reached-IsWellFormed tenant u h)
Reached-IsWellFormed tenant t (defaults_to id u h) =
    set_default-IsWellFormed tenant id u (Reached-IsWellFormed tenant u h)
Reached-IsWellFormed tenant t (deletes id u h) =
    delete_profile-IsWellFormed tenant id u (Reached-IsWellFormed tenant u h)
