-- ===== src/Slots.antt =====
-- service/booking/slots.ts: the times of a day that a shop offers for bookings. A time is a count of
-- milliseconds, a date the number of its day since 1970, and the key of a slot its minute.
pub mod Laws
use roadassistapp_be.Base.{
  ℕ, zero, suc, ◌+◌, ◌-◌, ◌*◌, ◌/◌, ◌%◌, min, Bool, false, ◌&&◌, ◌||◌, Option, none, some, List, [],
  ◌∷◌, ◌++◌, ltb, leb, ◌==◌, if◌then◌else◌, or_else,
}
use roadassistapp_be.Hours.{Text, ScheduleRange, is_empty, trim}
use roadassistapp_be.Hours.Open.{entries_of}

-- The fields of a provider's document that bookings read.
pub record BookingFields : Type 0 where
  pub booking_enabled : Bool
  pub booking_slot_minutes : Option ℕ
  pub booking_capacity : Option ℕ
  pub booking_lead_minutes : Option ℕ
  pub booking_horizon_days : Option ℕ
  pub booking_always_open : Bool
  pub booking_hours : Option Text
  pub open_hours : Option Text

pub record BookingSettings : Type 0 where
  pub booking_enabled : Bool
  pub slot_minutes : ℕ
  pub capacity : ℕ
  pub lead_minutes : ℕ
  pub horizon_days : ℕ
  pub always_open : Bool
  pub hours : Option Text

-- The hours for bookings, or those of the shop if they are blank.
unfoldable pub hours_of : Option Text → Option Text → Option Text
unfolding trim
hours_of none general = general
hours_of (some t) general = if is_empty (trim t) then general else some t

-- `bookingSettings`, with BOOKING_DEFAULTS.
unfoldable pub booking_settings : BookingFields → BookingSettings
unfolding hours_of
booking_settings p = record {
  booking_enabled = p.booking_enabled;
  slot_minutes = or_else p.booking_slot_minutes 30;
  capacity = or_else p.booking_capacity 1;
  lead_minutes = or_else p.booking_lead_minutes 60;
  horizon_days = or_else p.booking_horizon_days 7;
  always_open = p.booking_always_open;
  hours = hours_of p.booking_hours p.open_hours;
}

-- BOOKING_TIMEZONE_OFFSET_MINUTES, in milliseconds.
abbrev pub offset_ms : ℕ
offset_ms = 7 * 60 * 60000

abbrev pub day_ms : ℕ
day_ms = 24 * 60 * 60000

-- `dateKeyOf`
abbrev pub date_key_of : ℕ → ℕ
date_key_of at = (at + offset_ms) / day_ms

-- `minutesOfDay`, which is also the key of `slotKeyOf`.
abbrev pub minutes_of_day : ℕ → ℕ
minutes_of_day at = (at + offset_ms) / 60000 % 1440

-- `isoForLocal`
abbrev pub iso_for_local : ℕ → ℕ → ℕ
iso_for_local date minutes = date * day_ms + minutes * 60000 - offset_ms

pub record Range : Type 0 where
  pub opens : ℕ
  pub closes : ℕ

-- A range that runs past midnight ends with its day.
abbrev range_of : ScheduleRange → Range
range_of e = record {
  opens = e.opens;
  closes = if ltb e.opens e.closes then min e.closes 1440 else 1440;
}

unfoldable pub ranges_on_day : ℕ → List ScheduleRange → List Range
ranges_on_day day [] = []
ranges_on_day day (e ∷ es) =
    let rest = ranges_on_day day es in if e.day == day then range_of e ∷ rest else rest

-- `sort`, by when a range opens.
unfoldable pub insert_range : Range → List Range → List Range
insert_range r [] = r ∷ []
insert_range r (q ∷ rs) =
    let rest = insert_range r rs in if leb r.opens q.opens then r ∷ q ∷ rs else q ∷ rest

unfoldable pub sort_ranges : List Range → List Range
unfolding insert_range
sort_ranges [] = []
sort_ranges (r ∷ rs) = insert_range r (sort_ranges rs)

-- `rangesForDate`
unfoldable pub ranges_for_date : Option Text → ℕ → List Range
unfolding entries_of ranges_on_day sort_ranges
ranges_for_date hours date = sort_ranges (ranges_on_day ((date + 4) % 7) (entries_of hours))

-- The ranges of a date, the whole day for a shop that is always open.
unfoldable pub ranges_of : BookingSettings → ℕ → List Range
unfolding ranges_for_date
ranges_of s date =
    if s.always_open then record { opens = 0; closes = 1440 } ∷ [] else ranges_for_date s.hours date

abbrev in_range : ℕ → Range → Bool
in_range minutes r = leb r.opens minutes && ltb minutes r.closes

-- `withinRanges`
unfoldable pub within_ranges : ℕ → List Range → Bool
within_ranges minutes [] = false
within_ranges minutes (r ∷ rs) = in_range minutes r || within_ranges minutes rs

pub record Offer : Type 0 where
  pub at : ℕ
  pub slot : ℕ
  pub outside_hours : Bool
  pub remaining : ℕ

-- What `buildSlots` is given: the confirmed bookings of each slot, and the time.
pub record SlotInput : Type 0 where
  pub date : ℕ
  pub settings : BookingSettings
  pub confirmed_by_slot : ℕ → ℕ
  pub now : ℕ

abbrev pub earliest : SlotInput → ℕ
earliest i = i.now + i.settings.lead_minutes * 60000

abbrev offer_at : SlotInput → ℕ → Offer
offer_at i m = record {
  at = iso_for_local i.date m;
  slot = m;
  outside_hours = false;
  remaining = i.settings.capacity - i.confirmed_by_slot m;
}

abbrev add_offer : SlotInput → ℕ → Option (List Offer) → Option (List Offer)
add_offer i m none = none
add_offer i m (some os) =
    if ltb (iso_for_local i.date m) (earliest i) then some os else some (offer_at i m ∷ os)

-- The loop over a range from the minute `m`, for so many turns at most: none if it is not over then.
unfoldable pub slots_from : ℕ → SlotInput → ℕ → ℕ → Option (List Offer)
slots_from zero i m closes = if ltb m closes then none else some []
slots_from (suc turns) i m closes =
    let rest = slots_from turns i (m + i.settings.slot_minutes) closes in
    if ltb m closes then add_offer i m rest else some []

abbrev append_offers : Option (List Offer) → Option (List Offer) → Option (List Offer)
append_offers none b = none
append_offers (some xs) none = none
append_offers (some xs) (some ys) = some (xs ++ ys)

unfoldable pub slots_in : ℕ → SlotInput → List Range → Option (List Offer)
unfolding slots_from
slots_in turns i [] = some []
slots_in turns i (r ∷ rs) =
    append_offers (slots_from turns i r.opens r.closes) (slots_in turns i rs)

-- `buildSlots`
unfoldable pub build_slots : ℕ → SlotInput → Option (List Offer)
unfolding slots_in ranges_of
build_slots turns i = slots_in turns i (ranges_of i.settings i.date)
