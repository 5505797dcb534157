-- ===== src/Shipper/Profiles.antt =====
-- The table of shipper profiles, and the operations on it. Every statement is bound to the tenant.
use shipping_core.Base.{
  ℕ, ◌+◌, String, Bool, true, false, ◌&&◌, ◌||◌, Option, none, some, List, [], ◌∷◌, ◌++◌, ◌==◌,
  if◌then◌else◌, is_some,
}
use shipping_core.Base.Text.{is_empty, trim_space}
use shipping_core.Base.Table.{first, update_where, delete_where}
use shipping_core.Errors.{Result, ok, err, not_found, bad_request}

pub record ShipperProfile : Type 0 where
  pub id : ℕ
  pub tenant_id : ℕ
  pub name : String
  pub company : String
  pub mobile : String
  pub province : String
  pub city : String
  pub county : String
  pub address : String
  pub is_default : Bool
  pub enabled : Bool

pub record ShipperProfileDto : Type 0 where
  pub name : String
  pub company : String
  pub mobile : String
  pub province : String
  pub city : String
  pub county : String
  pub address : String
  pub is_default : Bool
  pub enabled : Bool

pub record ShipperTable : Type 0 where
  pub rows : List ShipperProfile
  pub next_id : ℕ

abbrev pub of_tenant_id : ℕ → ℕ → ShipperProfile → Bool
of_tenant_id tenant id r = r.tenant_id == tenant && r.id == id

abbrev pub found_profile : Option ShipperProfile → Result ShipperProfile
found_profile none = err not_found
found_profile (some r) = ok r

-- `Get`
unfoldable pub get_profile : ℕ → ℕ → ShipperTable → Result ShipperProfile
get_profile tenant id t = found_profile (first (of_tenant_id tenant id) t.rows)

abbrev pub is_default_of : ℕ → ShipperProfile → Bool
is_default_of tenant r = r.tenant_id == tenant && r.is_default

abbrev pub not_default : ShipperProfile → ShipperProfile
not_default r = record r { is_default = false }

-- `Model(&model.ShipperProfile{}).Where("is_default = ?", true).Update("is_default", false)`
abbrev pub clear_default : ℕ → List ShipperProfile → List ShipperProfile
clear_default tenant rows = update_where (is_default_of tenant) not_default rows

-- `Save` of a profile that has an id
abbrev pub save_row : ℕ → ShipperProfile → List ShipperProfile → List ShipperProfile
save_row tenant item rows = update_where (of_tenant_id tenant item.id) (λ _. item) rows

-- `Create`. The column `enabled` has the default true, which stands for an unset field: a profile
-- that is created as disabled is stored, and returned, as enabled.
abbrev pub created_row : ℕ → ShipperProfile → ShipperProfile
created_row id item = record item { id = id; enabled = true }

abbrev pub insert_or_save :
    ℕ → ShipperProfile → List ShipperProfile → ℕ → Result ShipperProfile × ShipperTable
insert_or_save tenant item rows next =
    if item.id == 0
    then (
      ok (created_row next item),
      record { rows = rows ++ created_row next item ∷ []; next_id = next + 1 },
    )
    else (ok item, record { rows = save_row tenant item rows; next_id = next })

unfoldable pub save_with_default :
    ℕ → ShipperProfile → Bool → ShipperTable → Result ShipperProfile × ShipperTable
save_with_default tenant item wanted t =
    if wanted
    then insert_or_save tenant (record item { is_default = true }) (clear_default tenant t.rows)
        t.next_id
    else insert_or_save tenant item t.rows t.next_id

-- `dtoToShipperProfile`, with the tenant that `Create` sets.
abbrev pub dto_to_shipper_profile : ℕ → ShipperProfileDto → ShipperProfile
dto_to_shipper_profile tenant inp = record {
  id = 0;
  tenant_id = tenant;
  name = trim_space inp.name;
  company = trim_space inp.company;
  mobile = trim_space inp.mobile;
  province = trim_space inp.province;
  city = trim_space inp.city;
  county = trim_space inp.county;
  address = trim_space inp.address;
  is_default = inp.is_default;
  enabled = inp.enabled;
}

unfoldable pub create_profile :
    ℕ → ShipperProfileDto → ShipperTable → Result ShipperProfile × ShipperTable
create_profile tenant inp t =
    if is_empty (trim_space inp.name)
      || is_empty (trim_space inp.mobile)
      || is_empty (trim_space inp.address)
    then (err bad_request, t)
    else save_with_default tenant (dto_to_shipper_profile tenant inp) inp.is_default t

abbrev pub kept_unless : String → String → String
kept_unless old new' = if is_empty (trim_space new') then old else trim_space new'

abbrev pub changed_profile : ShipperProfileDto → ShipperProfile → ShipperProfile
changed_profile inp r = record r {
  name = kept_unless r.name inp.name;
  mobile = kept_unless r.mobile inp.mobile;
  company = inp.company;
  province = inp.province;
  city = inp.city;
  county = inp.county;
  address = kept_unless r.address inp.address;
  enabled = inp.enabled;
}

abbrev pub update_found :
    ℕ
    → ShipperProfileDto
    → ShipperTable
    → Result ShipperProfile
    → Result ShipperProfile × ShipperTable
update_found tenant inp t (err e) = (err e, t)
update_found tenant inp t (ok r) = save_with_default tenant (changed_profile inp r) inp.is_default t

unfoldable pub update_profile :
    ℕ → ℕ → ShipperProfileDto → ShipperTable → Result ShipperProfile × ShipperTable
update_profile tenant id inp t = update_found tenant inp t (get_profile tenant id t)

abbrev pub default_found :
    ℕ → ShipperTable → Result ShipperProfile → Result ShipperProfile × ShipperTable
default_found tenant t (err e) = (err e, t)
default_found tenant t (ok r) =
    let item = record r { is_default = true } in
    (ok item, record t { rows = save_row tenant item (clear_default tenant t.rows) })

unfoldable pub set_default : ℕ → ℕ → ShipperTable → Result ShipperProfile × ShipperTable
set_default tenant id t = default_found tenant t (get_profile tenant id t)

abbrev pub deleted : Bool → Result (Unit {0})
deleted true = ok tt
deleted false = err not_found

unfoldable pub delete_profile : ℕ → ℕ → ShipperTable → Result (Unit {0}) × ShipperTable
delete_profile tenant id t = (
  deleted (is_some (first (of_tenant_id tenant id) t.rows)),
  record t { rows = delete_where (of_tenant_id tenant id) t.rows },
)
