-- ===== src/Shipper/Tests.antt =====
-- The theorems on profiles at a tenant with two of them.
use shipping_core.Base.{◌≡◌, refl, Bool, true, false, []}
use shipping_core.Base.Text.{trim_space}
use shipping_core.Errors.{ok}
use shipping_core.Shipper.Profiles.{
  ShipperProfile, ShipperProfileDto, ShipperTable, get_profile, save_with_default, create_profile,
  created_row, dto_to_shipper_profile,
}
use shipping_core.Shipper.WellFormed.{IsWellFormed, Reached, Reached-IsWellFormed}

abbrev sender : Bool → ShipperProfileDto
sender is_default = record {
  name = "A";
  company = "";
  mobile = "1";
  province = "P";
  city = "C";
  county = "D";
  address = "E";
  is_default = is_default;
  enabled = false;
}

abbrev empty_table : ShipperTable
empty_table = record { rows = []; next_id = 1 }

abbrev one_sender : ShipperTable
one_sender = (create_profile 1 (sender true) empty_table).1

abbrev two_senders : ShipperTable
two_senders = (create_profile 1 (sender false) one_sender).1

reached : Reached 1 two_senders
reached =
    Reached.creates (sender false) one_sender
      (Reached.creates (sender true) empty_table Reached.empty)

abbrev second : ShipperProfile
second = created_row 2 (dto_to_shipper_profile 1 (sender false))

second_found : get_profile 1 2 two_senders ≡ ok second
unfolding get_profile create_profile save_with_default trim_space
second_found = refl

second_created : (create_profile 1 (sender false) one_sender).0 ≡ ok second
unfolding create_profile save_with_default trim_space
second_created = refl

Reached-IsWellFormed_example : IsWellFormed 1 two_senders
Reached-IsWellFormed_example = Reached-IsWellFormed 1 two_senders reached
