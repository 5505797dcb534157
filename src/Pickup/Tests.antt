-- ===== src/Pickup/Tests.antt =====
-- The theorems on pickups, at half past three in the afternoon.
use shipping_core.Base.{String, ℕ, ◌≡◌, ◌<◌, refl, none, some, [], ◌∷◌, arith, inl, inr}
use shipping_core.Base.Text.{trim_space, bytes, decimal, codes_eq, codes_prefix}
use mathlib.Core.List.{Memᴰ}
use shipping_core.Pickup.Slots.{
  LocalTime, PickupAppointSlotOption, Clock, parse_hhmm, slot_hours, slot_fuel, start_min, end_min,
  hour_slot, day_children,
}
use shipping_core.Pickup.Window.{resolve_sf_city_code, city_key, code_of}
use shipping_core.Pickup.Offered.{day_children_iff, window-bounds}

parse_test : parse_hhmm " 8:30" ≡ some 510
unfolding parse_hhmm trim_space bytes
parse_test = refl

parse_refused : parse_hhmm "2460" ≡ none
unfolding parse_hhmm trim_space bytes
parse_refused = refl

hours_test : slot_hours slot_fuel 960 1200 ≡ 16 ∷ 17 ∷ 18 ∷ 19 ∷ []
unfolding slot_hours
hours_test = refl

city_test : resolve_sf_city_code "广东" "深圳市" ≡ "755"
unfolding resolve_sf_city_code city_key code_of codes_eq codes_prefix trim_space
city_test = refl

abbrev afternoon : Clock
afternoon = record { now = record { day = 0; hour = 15; minute = 34; second = 0 }; nanosecond = 0 }

abbrev written : LocalTime → String
written t = decimal t.hour

abbrev today : ℕ
today = 0

abbrev four : PickupAppointSlotOption
four = hour_slot written 0 16

window-bounds_example :
    (start_min "0830" < 1440)
    × (start_min "0830" < end_min "0830" "0800")
    × (end_min "0830" "0800" < 1500)
window-bounds_example = window-bounds "0830" "0800"

-- The slot from 16 to 17 o'clock is offered.
four_offered : Memᴰ (hour_slot written 0 16) (day_children written afternoon 0 480 1200)
four_offered =
    (day_children_iff written afternoon 0 480 1200 (hour_slot written 0 16)).1
      (inr (16, (omega arith, omega arith, omega arith, λ _. inl (omega arith)), refl))
