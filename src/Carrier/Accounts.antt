-- ===== src/Carrier/Accounts.antt =====
-- The table of carrier accounts and the operations on it. An answer shows the secret key masked: what
-- is left of it are bytes, since the cut may fall inside a character.
use shipping_core.Base.{
  ℕ, zero, suc, ◌+◌, ◌-◌, String, Bool, true, false, not, ◌&&◌, ◌||◌, List, [], ◌∷◌, ◌++◌, ◌==◌,
  leb, if◌then◌else◌, length, filter,
}
use shipping_core.Base.Text.{is_empty, trim_space, str_eq, lower_is, has_prefix, bytes}
use shipping_core.Base.Table.{first, update_where, delete_where}
use shipping_core.Errors.{Result, ok, err, ◌>>=◌, bad_request, not_found, duplicate_code}
use shipping_core.Shipment.Model.{CarrierAccount}
use shipping_core.Shipment.World.{found_carrier}

pub record CarrierAccountDto : Type 0 where
  pub carrier_code : String
  pub name : String
  pub partner_id : String
  pub checkword : String
  pub use_monthly : Bool
  pub cust_id : String
  pub express_type : String
  pub template_code : String
  pub custom_template_code : String
  pub sign_mode : String
  pub print_channel : String
  pub print_logo : Bool
  pub env : String
  pub enabled : Bool
  pub remark : String

pub record CarrierTable : Type 0 where
  pub rows : List CarrierAccount
  pub next_id : ℕ

-- An account as it is shown: its row without the secret key, and what is shown of the key.
pub record MaskedAccount : Type 0 where
  pub row : CarrierAccount
  pub shown_checkword : List ℕ

abbrev pub drop {ℓ} : {A : Type ℓ} → ℕ → List A → List A
drop zero xs = xs
drop (suc n) [] = []
drop (suc n) (x ∷ xs) = drop n xs

-- `"****"`
abbrev pub stars : List ℕ
stars = 42 ∷ 42 ∷ 42 ∷ 42 ∷ []

abbrev pub mask_bytes : List ℕ → List ℕ
mask_bytes v = if leb (length v) 4 then stars else stars ++ drop (length v - 4) v

-- `MaskCheckword`
unfoldable pub mask_checkword : String → List ℕ
mask_checkword v = if is_empty (trim_space v) then [] else mask_bytes (bytes (trim_space v))

abbrev pub mask_account : CarrierAccount → MaskedAccount
mask_account item = record {
  row = record item { checkword = "" };
  shown_checkword = mask_checkword item.checkword;
}

abbrev pub is_account : ℕ → ℕ → CarrierAccount → Bool
is_account tenant id r = r.tenant_id == tenant && r.id == id

-- `GetRaw`
unfoldable pub get_raw : ℕ → ℕ → CarrierTable → Result CarrierAccount
get_raw tenant id t = found_carrier (first (is_account tenant id) t.rows)

-- `Get`
unfoldable pub get_account : ℕ → ℕ → CarrierTable → Result MaskedAccount
get_account tenant id t = get_raw tenant id t >>= (λ item. ok (mask_account item))

unfoldable pub normalize_sign_mode : String → String
normalize_sign_mode mode =
    let m = trim_space mode in
    if lower_is m "standard" || lower_is m "标准md5" || lower_is m "std" || lower_is m "md5"
    then "standard"
    else if lower_is m "sm3" || lower_is m "国密" || lower_is m "sm3-hmac"
    then "sm3"
    else "simple"

unfoldable pub normalize_print_channel : String → String
normalize_print_channel ch =
    let c = trim_space ch in
    if lower_is c "plugin" || lower_is c "parsed" || lower_is c "parseddata" || lower_is c "scp"
    then "plugin"
    else "pdf"

abbrev pub or_text : String → String → String
or_text s fallback = if is_empty s then fallback else s

abbrev pub dto_to_carrier_account : CarrierAccountDto → CarrierAccount
dto_to_carrier_account inp = record {
  id = 0;
  tenant_id = 0;
  carrier_code = inp.carrier_code;
  name = trim_space inp.name;
  partner_id = trim_space inp.partner_id;
  checkword = trim_space inp.checkword;
  use_monthly = inp.use_monthly;
  cust_id = trim_space inp.cust_id;
  express_type = inp.express_type;
  template_code = trim_space inp.template_code;
  custom_template_code = trim_space inp.custom_template_code;
  sign_mode = normalize_sign_mode inp.sign_mode;
  print_channel = normalize_print_channel inp.print_channel;
  print_logo = inp.print_logo;
  env = inp.env;
  enabled = inp.enabled;
  remark = inp.remark;
}

-- The other accounts of the tenant with the name; an excluded id of 0 excludes none.
abbrev pub has_name : ℕ → String → ℕ → CarrierAccount → Bool
has_name tenant name' exclude r =
    r.tenant_id == tenant && str_eq r.name name' && (exclude == 0 || not (r.id == exclude))

abbrev pub is_nil {ℓ} : {A : Type ℓ} → List A → Bool
is_nil [] = true
is_nil (a ∷ l) = false

-- `ensureUniqueName`
unfoldable pub is_unique_name : ℕ → String → ℕ → List CarrierAccount → Bool
is_unique_name tenant name' exclude rows = is_nil (filter (has_name tenant name' exclude) rows)

-- The row as it is inserted: the column `enabled` has the default true, which gorm writes for false.
abbrev pub created_account : ℕ → ℕ → CarrierAccountDto → CarrierAccount
created_account tenant id inp = record (dto_to_carrier_account inp) {
  id = id;
  tenant_id = tenant;
  carrier_code = or_text inp.carrier_code "SF";
  express_type = or_text inp.express_type "2";
  sign_mode = normalize_sign_mode (normalize_sign_mode inp.sign_mode);
  print_channel = normalize_print_channel (normalize_print_channel inp.print_channel);
  env = or_text inp.env "sandbox";
  enabled = true;
}

-- `Create`
unfoldable pub create_account :
    ℕ → CarrierAccountDto → CarrierTable → Result MaskedAccount × CarrierTable
create_account tenant inp t =
    if is_empty (trim_space inp.name)
      || is_empty (trim_space inp.partner_id)
      || is_empty (trim_space inp.checkword)
    then (err bad_request, t)
    else if not (is_unique_name tenant (trim_space inp.name) 0 t.rows)
    then (err duplicate_code, t)
    else (
      ok (mask_account (created_account tenant t.next_id inp)),
      record {
        rows = t.rows ++ created_account tenant t.next_id inp ∷ [];
        next_id = t.next_id + 1;
      },
    )

-- Whether an update has a new secret key: a blank or masked one leaves the old.
unfoldable pub has_new_checkword : String → Bool
has_new_checkword v = not (is_empty (trim_space v)) && not (has_prefix v "****")

abbrev pub changed_account : CarrierAccountDto → CarrierAccount → CarrierAccount
changed_account inp item = record item {
  name = or_text (trim_space inp.name) item.name;
  partner_id = or_text inp.partner_id item.partner_id;
  checkword = if has_new_checkword inp.checkword then inp.checkword else item.checkword;
  use_monthly = inp.use_monthly;
  cust_id = inp.cust_id;
  express_type = or_text inp.express_type item.express_type;
  template_code = trim_space inp.template_code;
  custom_template_code = trim_space inp.custom_template_code;
  sign_mode = if is_empty inp.sign_mode then item.sign_mode else normalize_sign_mode inp.sign_mode;
  print_channel =
      if is_empty inp.print_channel
      then item.print_channel
      else normalize_print_channel inp.print_channel;
  print_logo = inp.print_logo;
  env = or_text inp.env item.env;
  carrier_code = or_text inp.carrier_code item.carrier_code;
  enabled = inp.enabled;
  remark = inp.remark;
}

-- `Save`
abbrev pub save_account : ℕ → CarrierAccount → CarrierTable → CarrierTable
save_account tenant item t = record t {
  rows = update_where (is_account tenant item.id) (λ _. item) t.rows;
}

abbrev pub update_found :
    ℕ
    → ℕ
    → CarrierAccountDto
    → CarrierTable
    → Result CarrierAccount
    → Result MaskedAccount × CarrierTable
update_found tenant id inp t (err e) = (err e, t)
update_found tenant id inp t (ok item) =
    if not (is_empty (trim_space inp.name))
      && not (is_unique_name tenant (trim_space inp.name) id t.rows)
    then (err duplicate_code, t)
    else (
      ok (mask_account (changed_account inp item)),
      save_account tenant (changed_account inp item) t,
    )

-- `Update`
unfoldable pub update_account :
    ℕ → ℕ → CarrierAccountDto → CarrierTable → Result MaskedAccount × CarrierTable
update_account tenant id inp t = update_found tenant id inp t (get_raw tenant id t)

-- `Delete`
unfoldable pub delete_account : ℕ → ℕ → CarrierTable → Result (Unit {0}) × CarrierTable
delete_account tenant id t =
    if is_nil (filter (is_account tenant id) t.rows)
    then (err not_found, t)
    else (ok tt, record t { rows = delete_where (is_account tenant id) t.rows })
