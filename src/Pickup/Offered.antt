-- ===== src/Pickup/Offered.antt =====
-- Which hours are offered for a pickup.
use shipping_core.Base.Text.{bytes, trim_space}
use shipping_core.Base.{
  filter, ℕ, zero, suc, ◌+◌, ◌*◌, ◌/◌, ◌%◌, ◌≤◌, ◌<◌, ◌≡◌, ◌↔◌, ◌⊎◌, refl, sym, ap, subst, String,
  true, false, not, ◌&&◌, some, List, [], ◌∷◌, ◌==◌, ltb, leb, Bool-cases, Option-cases, arith, inl,
  inr,
}
use mathlib.Core.List.{Memᴰ}
use mathlib.Core.List.Memᴰ
use shipping_core.Pickup.Slots.{
  digit_value, in_range, minutes_or, minutes_of, parse_hhmm, LocalTime, Clock,
  PickupAppointSlotOption, start_min, end_min, align, next_hour, first_hour_start, slot_hours,
  slot_fuel, within_at, hour_slot, hour_slots, is_within, within_slot, day_children,
}

Memᴰ-slot_hours :
    (fuel k s until h : ℕ)
    → s ≡ k * 60
    → Memᴰ h (slot_hours fuel s until)
    → (k ≤ h) × (h * 60 < until) × (h ≤ 23)
unfolding slot_hours
Memᴰ-slot_hours zero k s until h e m = elim m [ ]
Memᴰ-slot_hours (suc fuel) k s until h e m = elim (Bool-cases (not (ltb s until))) [
  | inl over ↦ absurd (Memᴰ.not-nil (rw over at m))
  | inr more ↦ elim (Bool-cases (ltb 23 (s / 60))) [
    | inl late ↦ absurd (Memᴰ.not-nil (rw (more, late) at m))
    | inr fine ↦ elim (Memᴰ.cases_cons (rw (more, fine) at m)) [
      | inl same ↦ (omega arith, ground arith, ground arith)
      | inr later ↦
          let (a, b, c) = Memᴰ-slot_hours fuel (suc k) (s + 60) until h (omega arith) later in
          (omega arith, b, c)
    ]
  ]
]

slot_hours-Memᴰ :
    (fuel k s until h : ℕ)
    → s ≡ k * 60
    → h < fuel + k
    → k ≤ h
    → h * 60 < until
    → h ≤ 23
    → Memᴰ h (slot_hours fuel s until)
unfolding slot_hours
slot_hours-Memᴰ zero k s until h e enough ge lt le = absurd (omega arith)
slot_hours-Memᴰ (suc fuel) k s until h e enough ge lt le =
    let more : not (ltb s until) ≡ false = ground arith in
    let fine : ltb 23 (s / 60) ≡ false = ground arith in
    rw (more, fine)
      (elim (Bool-cases (h == k)) [
        | inl at_k ↦ Memᴰ.head (ground arith)
        | inr after_k ↦ Memᴰ.tail (
            slot_hours-Memᴰ fuel (suc k) (s + 60) until h (omega arith) (omega arith) (ground arith)
              lt le)
      ])

-- The hour has not begun, or it begins at this very moment.
abbrev pub IsAhead : Clock → ℕ → Type 0
IsAhead c h =
    (c.now.hour < h)
    ⊎ ((c.now.hour ≡ h) × (c.now.minute ≡ 0) × (c.now.second ≡ 0) × (c.nanosecond ≡ 0))

next_hour-IsAhead : (c : Clock) (h : ℕ) → next_hour c ≤ h * 60 → IsAhead c h
unfolding next_hour
next_hour-IsAhead c h e =
    elim (Bool-cases (c.now.minute == 0 && c.now.second == 0 && c.nanosecond == 0)) [
      | inl sharp ↦
          let le : c.now.hour * 60 ≤ h * 60 = rw sharp at e in
          elim (Bool-cases (c.now.hour == h)) [
            | inl same ↦ inr (ground arith, ground arith, ground arith, ground arith)
            | inr other ↦ inl (ground arith)
          ]
      | inr late ↦ let le : (c.now.hour + 1) * 60 ≤ h * 60 = rw late at e in inl (omega (arith, le))
    ]

IsAhead-next_hour : (c : Clock) (h : ℕ) → IsAhead c h → next_hour c ≤ h * 60
unfolding next_hour
IsAhead-next_hour c h (inl later) =
    elim (Bool-cases (c.now.minute == 0 && c.now.second == 0 && c.nanosecond == 0)) [
      | inl e ↦ rw e (omega (arith, later))
      | inr e ↦ rw e (omega (arith, later))
    ]
IsAhead-next_hour c h (inr (a, b, d, e)) = rw (b, d, e) (omega (arith, a))

-- The hours that a day has slots for: whole hours in the window, and today none that has begun.
abbrev pub IsOffered : Clock → ℕ → ℕ → ℕ → ℕ → Type 0
IsOffered c day start until h =
    (start ≤ h * 60) × (h * 60 < until) × (h ≤ 23) × (day ≡ 0 → IsAhead c h)

-- The time of the day 15 minutes from now lies in the window.
abbrev pub IsSoon : Clock → ℕ → ℕ → Type 0
IsSoon c start until =
    let m = (c.now.hour * 60 + c.now.minute + 15) % 1440 in (start ≤ m) × (m < until)

within_at-minutes :
    (c : Clock)
    → (within_at c).hour * 60 + (within_at c).minute ≡ (c.now.hour * 60 + c.now.minute + 15) % 1440
within_at-minutes c = omega arith

is_within-IsSoon :
    (c : Clock) (start until : ℕ) → is_within c start until ≡ true → IsSoon c start until
is_within-IsSoon c start until h =
    let same = within_at-minutes c in let k = rw same at h in (ground arith, ground arith)

IsSoon-is_within :
    (c : Clock) (start until : ℕ) → IsSoon c start until → is_within c start until ≡ true
IsSoon-is_within c start until (a, b) = rw (within_at-minutes c) (ground arith)

aligned :
    (m : ℕ)
    → (k : ℕ) × (align m ≡ k * 60) × ((h : ℕ) → k ≤ h → m ≤ h * 60) × ((h : ℕ) → m ≤ h * 60 → k ≤ h)
aligned m = (
  (m + 59) / 60,
  elim (Bool-cases (m % 60 == 0)) [ inl e ↦ rw e (ground arith) | inr e ↦ rw e (ground arith) ],
  λ h k. omega arith,
  λ h k. omega arith,
)

-- The hour that the first slot begins with.
first_hour :
    (c : Clock) (day start : ℕ)
    → (k : ℕ) × (first_hour_start c day start ≡ k * 60)
      × ((h : ℕ) → k ≤ h → (start ≤ h * 60) × (day ≡ 0 → next_hour c ≤ h * 60))
      × ((h : ℕ) → start ≤ h * 60 → (day ≡ 0 → next_hour c ≤ h * 60) → k ≤ h)
unfolding first_hour_start
first_hour c day start = elim (Bool-cases (day == 0 && ltb start (next_hour c))) [
  | inl e ↦
      let (k, at, above, below) = aligned (next_hour c) in
      let today : day ≡ 0 = ground arith in
      let early : start < next_hour c = ground arith in
      (
        k,
        rw e at,
        λ h ge. (let m = above h ge in omega (arith, early, m), λ d. above h ge),
        λ h ge later. below h (later today),
      )
  | inr e ↦
      let (k, at, above, below) = aligned start in
      let not_early : day ≡ 0 → next_hour c ≤ start = λ d. ground arith in
      (
        k,
        rw e at,
        λ h ge. (above h ge, λ d. let a = not_early d in let b = above h ge in omega (arith, a, b)),
        λ h ge later. below h ge,
      )
]

Memᴰ-hour_slots :
    (format : LocalTime → String) (day : ℕ) (x : PickupAppointSlotOption) (hs : List ℕ)
    → Memᴰ x (hour_slots format day hs)
    → (h : ℕ) × (x ≡ hour_slot format day h) × Memᴰ h hs
Memᴰ-hour_slots format day x [] m = elim m [ ]
Memᴰ-hour_slots format day x (h ∷ hs) (Memᴰ.head e) = (h, e, Memᴰ.head refl)
Memᴰ-hour_slots format day x (h ∷ hs) (Memᴰ.tail m) =
    let (k, e, n) = Memᴰ-hour_slots format day x hs m in (k, e, Memᴰ.tail n)

hour_slots-Memᴰ :
    (format : LocalTime → String) (day h : ℕ) (hs : List ℕ)
    → Memᴰ h hs
    → Memᴰ (hour_slot format day h) (hour_slots format day hs)
hour_slots-Memᴰ format day h [] m = elim m [ ]
hour_slots-Memᴰ format day h (k ∷ hs) (Memᴰ.head e) = Memᴰ.head (ap (hour_slot format day) e)
hour_slots-Memᴰ format day h (k ∷ hs) (Memᴰ.tail m) = Memᴰ.tail (hour_slots-Memᴰ format day h hs m)

module _ (format : LocalTime → String) (c : Clock) (day start until : ℕ)
    (x : PickupAppointSlotOption) where
  -- The slots of the day's hours.
  abbrev hourly : List PickupAppointSlotOption
  hourly = hour_slots format day (slot_hours slot_fuel (first_hour_start c day start) until)

  -- The slot of an hour that is offered.
  abbrev IsOfferedSlot : Type 0
  IsOfferedSlot = (h : ℕ) × IsOffered c day start until h × (x ≡ hour_slot format day h)

  hourly-IsOffered : Memᴰ x hourly → IsOfferedSlot
  hourly-IsOffered m =
      let (k, at, above, below) = first_hour c day start in
      let (h, e, n) = Memᴰ-hour_slots format day x _ m in
      let (ge, lt, le) = Memᴰ-slot_hours slot_fuel k (first_hour_start c day start) until h at n in
      let (late, ready) = above h ge in (h, (late, lt, le, λ d. next_hour-IsAhead c h (ready d)), e)

  IsOffered-hourly : IsOfferedSlot → Memᴰ x hourly
  IsOffered-hourly (h, (late, lt, le, ready), e) =
      let (k, at, above, below) = first_hour c day start in
      subst (λ y. Memᴰ y hourly) (sym e)
        (hour_slots-Memᴰ format day h _ (
          slot_hours-Memᴰ slot_fuel k (first_hour_start c day start) until h at (omega arith)
            (below h late (λ d. IsAhead-next_hour c h (ready d))) lt le))

pub day_children_iff :
    (format : LocalTime → String) (c : Clock) (day start until : ℕ) (x : PickupAppointSlotOption)
    → Memᴰ x (day_children format c day start until) ↔ (
        ((day ≡ 0) × IsSoon c start until × (x ≡ within_slot format day (within_at c)))
        ⊎ ((h : ℕ) × IsOffered c day start until h × (x ≡ hour_slot format day h)))
unfolding day_children
day_children_iff format c day start until x =
    elim (Bool-cases (day == 0 && is_within c start until)) [
      | inl e ↦
          let today : day ≡ 0 = ground arith in
          let within : is_within c start until ≡ true = ground arith in
          rw e (
            λ m. elim (Memᴰ.cases_cons m) [
              | inl same ↦ inl (today, is_within-IsSoon c start until within, same)
              | inr later ↦ inr (hourly-IsOffered format c day start until x later)
            ],
            λ o. elim o [
              | inl (d, w, same) ↦ Memᴰ.head same
              | inr offered ↦ Memᴰ.tail (IsOffered-hourly format c day start until x offered)
            ],
          )
      | inr e ↦ rw e (
        λ m. inr (hourly-IsOffered format c day start until x m),
        λ o. elim o [
          | inl (d, w, same) ↦ let soon = IsSoon-is_within c start until w in absurd (ground arith)
          | inr offered ↦ IsOffered-hourly format c day start until x offered
        ],
      )
    ]

in_range-bound : (h m n : ℕ) → in_range h m ≡ some n → n < 1440
in_range-bound h m n e = ground arith

minutes_of-bound : (bs : List ℕ) (n : ℕ) → minutes_of bs ≡ some n → n < 1440
minutes_of-bound [] n e = cc
minutes_of-bound (a ∷ []) n e = cc
minutes_of-bound (a ∷ b ∷ []) n e = cc
minutes_of-bound (b ∷ c ∷ d ∷ []) n e =
    in_range-bound (digit_value 48 * 10 + digit_value b) (digit_value c * 10 + digit_value d) n e
minutes_of-bound (a ∷ b ∷ c ∷ d ∷ []) n e =
    in_range-bound (digit_value a * 10 + digit_value b) (digit_value c * 10 + digit_value d) n e
minutes_of-bound (a ∷ b ∷ c ∷ d ∷ f ∷ bs) n e = cc

minutes_or-bound :
    (fallback : ℕ) (v : String) → fallback < 1440 → minutes_or fallback (parse_hhmm v) < 1440
unfolding parse_hhmm
minutes_or-bound fallback v h = elim (Option-cases (parse_hhmm v)) [
  | inl e ↦ rw e h
  | inr (n, e) ↦ rw e (minutes_of-bound (filter (λ b. not (b == 58)) (bytes (trim_space v))) n e)
]

-- Whatever texts the carrier names as its window, the window that is used begins within the day, ends
-- after its beginning, and lasts at most until an hour after midnight.
pub window-bounds :
    (start_tm end_tm : String)
    → (start_min start_tm < 1440)
      × (start_min start_tm < end_min start_tm end_tm)
      × (end_min start_tm end_tm < 1500)
unfolding start_min end_min
window-bounds start_tm end_tm =
    let from = minutes_or-bound 480 start_tm (omega arith) in
    let to = minutes_or-bound 1200 end_tm (omega arith) in
    elim (Bool-cases
      (leb (minutes_or 1200 (parse_hhmm end_tm)) (minutes_or 480 (parse_hhmm start_tm)))) [
        | inl e ↦ rw e (from, omega arith, omega (arith, from))
        | inr e ↦ rw e (from, ground arith, omega (arith, to))
      ]
