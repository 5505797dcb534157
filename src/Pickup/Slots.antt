-- ===== src/Pickup/Slots.antt =====
-- `parseHHMM`, `pad2` and `buildPickupAppointOptions`: the hours that are offered today, tomorrow and
-- the day after. A moment is a day, counted from today, and a time of the day.
use shipping_core.Base.{
  ℕ, zero, suc, ◌+◌, ◌-◌, ◌*◌, ◌/◌, ◌%◌, String, Bool, not, ◌&&◌, ◌||◌, Option, none, some, List,
  [], ◌∷◌, ◌++◌, ◌==◌, leb, ltb, if◌then◌else◌, filter,
}
use shipping_core.Base.Text.{trim_space, bytes, decimal, ◌+++◌}

-- `int(b - '0')`, on a byte.
abbrev pub digit_value : ℕ → ℕ
digit_value b = (b + 208) % 256

abbrev pub in_range : ℕ → ℕ → Option ℕ
in_range h m = if ltb 23 h || ltb 59 m then none else some (h * 60 + m)

-- The minutes of three or four bytes.
abbrev pub minutes_of : List ℕ → Option ℕ
minutes_of (a ∷ b ∷ c ∷ d ∷ []) =
    in_range (digit_value a * 10 + digit_value b) (digit_value c * 10 + digit_value d)
minutes_of (b ∷ c ∷ d ∷ []) =
    in_range (digit_value 48 * 10 + digit_value b) (digit_value c * 10 + digit_value d)
minutes_of _ = none

unfoldable pub parse_hhmm : String → Option ℕ
parse_hhmm v = minutes_of (filter (λ b. not (b == 58)) (bytes (trim_space v)))

unfoldable pub pad2 : ℕ → String
pad2 n = if ltb n 10 then "0" +++ decimal n else decimal n

pub record LocalTime : Type 0 where
  pub day : ℕ
  pub hour : ℕ
  pub minute : ℕ
  pub second : ℕ

pub record PickupAppointSlotOption : Type 0 where
  pub value : String
  pub text : String
  pub slot_key : String
  pub send_start_tm : String

pub record PickupAppointDayOption : Type 0 where
  pub value : ℕ
  pub text : String
  pub children : List PickupAppointSlotOption

-- The clock: the time and its nanosecond.
pub record Clock : Type 0 where
  pub now : LocalTime
  pub nanosecond : ℕ

-- `now.Add(15 * time.Minute)`, where the clock is not changed in between.
abbrev pub within_at : Clock → LocalTime
within_at c =
    let m = c.now.hour * 60 + c.now.minute + 15 in
    record {
      day = c.now.day + m / 1440;
      hour = (m / 60) % 24;
      minute = m % 60;
      second = c.now.second;
    }

abbrev pub minutes_or : ℕ → Option ℕ → ℕ
minutes_or fallback none = fallback
minutes_or fallback (some m) = m

-- The window in minutes: from eight to twenty where the texts say nothing, and at least an hour.
unfoldable pub start_min : String → ℕ
start_min start_tm = minutes_or 480 (parse_hhmm start_tm)

unfoldable pub end_min : String → String → ℕ
end_min start_tm end_tm =
    let until = minutes_or 1200 (parse_hhmm end_tm) in
    if leb until (start_min start_tm) then start_min start_tm + 60 else until

-- The next whole hour, in minutes.
unfoldable pub next_hour : Clock → ℕ
next_hour c =
    if c.now.minute == 0 && c.now.second == 0 && c.nanosecond == 0
    then c.now.hour * 60
    else (c.now.hour + 1) * 60

abbrev pub align : ℕ → ℕ
align m = if m % 60 == 0 then m else m + (60 - m % 60)

unfoldable pub first_hour_start : Clock → ℕ → ℕ → ℕ
first_hour_start c day start =
    align (if day == 0 && ltb start (next_hour c) then next_hour c else start)

-- The hours at which slots begin, from `slot_start` on.
unfoldable pub slot_hours : ℕ → ℕ → ℕ → List ℕ
slot_hours zero slot_start until = []
slot_hours (suc fuel) slot_start until =
    let rest = slot_hours fuel (slot_start + 60) until in
    if not (ltb slot_start until)
    then []
    else if ltb 23 (slot_start / 60)
    then []
    else slot_start / 60 ∷ rest

-- A slot begins in each hour of a day at most.
abbrev pub slot_fuel : ℕ
slot_fuel = 25

-- The end of the slot that begins at an hour.
abbrev slot_end : ℕ → String
slot_end h = if ltb 23 (h + 1) then "23:59" else pad2 (h + 1) +++ ":" +++ pad2 0

-- Whether the time 15 minutes from now lies in the window.
abbrev pub is_within : Clock → ℕ → ℕ → Bool
is_within c start until =
    let m = (within_at c).hour * 60 + (within_at c).minute in leb start m && ltb m until

module _ (format_local_dt : LocalTime → String) where
  abbrev pub within_slot : ℕ → LocalTime → PickupAppointSlotOption
  within_slot day at = record {
    value = decimal day +++ "|within1h";
    text = "1小时内";
    slot_key = "within1h";
    send_start_tm = format_local_dt at;
  }

  abbrev pub hour_slot : ℕ → ℕ → PickupAppointSlotOption
  hour_slot day h = record {
    value = decimal day +++ "|" +++ pad2 h +++ ":00";
    text = pad2 h +++ ":00-" +++ slot_end h;
    slot_key = pad2 h +++ ":00";
    send_start_tm = format_local_dt (record { day = day; hour = h; minute = 0; second = 0 });
  }

  abbrev pub hour_slots : ℕ → List ℕ → List PickupAppointSlotOption
  hour_slots day [] = []
  hour_slots day (h ∷ hs) = hour_slot day h ∷ hour_slots day hs

  unfoldable pub day_children : Clock → ℕ → ℕ → ℕ → List PickupAppointSlotOption
  day_children c day start until =
      (if day == 0 && is_within c start until then within_slot day (within_at c) ∷ [] else [])
      ++ hour_slots day (slot_hours slot_fuel (first_hour_start c day start) until)

  abbrev day_option : ℕ → String → List PickupAppointSlotOption → List PickupAppointDayOption
  day_option day label [] = []
  day_option day label (x ∷ xs) = record { value = day; text = label; children = x ∷ xs } ∷ []

  unfoldable pub build_pickup_appoint_options :
      Clock → String → String → List PickupAppointDayOption
  build_pickup_appoint_options c start_tm end_tm =
      let children =
        λ (day : ℕ). day_children c day (start_min start_tm) (end_min start_tm end_tm) in
      day_option 0 "今天" (children 0)
      ++ day_option 1 "明天" (children 1)
      ++ day_option 2 "后天" (children 2)
