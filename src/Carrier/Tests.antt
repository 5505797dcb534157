-- ===== src/Carrier/Tests.antt =====
-- The theorems on carrier accounts, at a table with one account.
use shipping_core.Base.{String, true, false, ◌≡◌, refl, [], ◌∷◌}
use shipping_core.Base.Text.{trim_space, bytes, lower_is}
use shipping_core.Errors.{ok}
use shipping_core.Shipment.Model.{CarrierAccount}
use shipping_core.Carrier.Accounts.{
  CarrierAccountDto, CarrierTable, create_account, update_account, get_raw, mask_checkword,
  mask_account, created_account, is_unique_name, normalize_sign_mode, normalize_print_channel,
}
use shipping_core.Carrier.Unique.{
  HasUniqueNames, starts, by_create, by_update, Reached-HasUniqueNames,
}
use shipping_core.Carrier.Masked.{update_account-masked}

abbrev request : String → CarrierAccountDto
request secret = record {
  carrier_code = "";
  name = " main ";
  partner_id = "p";
  checkword = secret;
  use_monthly = false;
  cust_id = "";
  express_type = "";
  template_code = "";
  custom_template_code = "";
  sign_mode = "MD5";
  print_channel = "SCP";
  print_logo = false;
  env = "";
  enabled = true;
  remark = "";
}

abbrev no_accounts : CarrierTable
no_accounts = record { rows = []; next_id = 1 }

abbrev one_account : CarrierTable
one_account = record { rows = created_account 7 1 (request "abcdef") ∷ []; next_id = 2 }

sign_mode_test : normalize_sign_mode " MD5" ≡ "standard"
unfolding normalize_sign_mode trim_space lower_is
sign_mode_test = refl

print_channel_test : normalize_print_channel "SCP" ≡ "plugin"
unfolding normalize_print_channel trim_space lower_is
print_channel_test = refl

create_account_test : (create_account 7 (request "abcdef") no_accounts).1 ≡ one_account
unfolding create_account trim_space is_unique_name
create_account_test = refl

-- The last four of six characters are shown.
mask_test : mask_checkword "abcdef" ≡ bytes "****cdef"
unfolding mask_checkword trim_space bytes
mask_test = refl

Reached-HasUniqueNames_example :
    HasUniqueNames
      (update_account 7 1 (request "x") (create_account 7 (request "abcdef") no_accounts).1).1.rows
Reached-HasUniqueNames_example =
    Reached-HasUniqueNames (by_update 7 1 (request "x") (by_create 7 (request "abcdef") (starts 1)))

one_found : get_raw 7 1 one_account ≡ ok (created_account 7 1 (request "abcdef"))
unfolding get_raw
one_found = refl

abcdef_shown :
    bytes "****cdef" ≡ (mask_account (created_account 7 1 (request "abcdef"))).shown_checkword
unfolding mask_checkword trim_space bytes
abcdef_shown = refl

update_account-masked_example :
    (row : CarrierAccount) × (get_raw 7 1 (update_account 7 1 (request "****cdef") one_account).1
      ≡ ok row)
    × (row.checkword ≡ (created_account 7 1 (request "abcdef")).checkword)
update_account-masked_example =
    update_account-masked 7 1 (request "****cdef") one_account
      (created_account 7 1 (request "abcdef")) one_found abcdef_shown
