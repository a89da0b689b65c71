-- ===== src/Examples/Hours.antt =====
-- Examples of the theorems on opening hours and slots: a shop that opens on Mondays from 8:00 to
-- 9:00, on Monday the 1st of January 2024.
use roadassistapp_be.Base.{
  ℕ, ◌+◌, ◌*◌, ◌≡◌, refl, true, false, some, List, [], ◌∷◌, ◌++◌, arith, All,
}
use roadassistapp_be.Hours.{
  Text, ScheduleRange, trim_start, trim_end, trim, split_commas, times_of, range_at, entry_ranges,
  all_ranges, day_line, normalized, parse_schedule, slot_key_for_minutes,
}
use roadassistapp_be.Hours.Open.{entries_of, is_open_now, least_left, next_transition}
use roadassistapp_be.Hours.Laws.{open_until_transition}
use roadassistapp_be.Hours.Print.{print_schedule, parse_schedule-print_schedule}
use roadassistapp_be.Slots.{BookingSettings, ranges_of, Offer, SlotInput, build_slots}
use roadassistapp_be.Slots.Laws.{Offered, build_slots-Offered}

abbrev pub monday : ScheduleRange
monday = range_at 480 540 1

abbrev pub monday_hours : Text
monday_hours = day_line (slot_key_for_minutes 480 ++ (b'-' ∷ slot_key_for_minutes 540)) 1

abbrev pub monday_date : ℕ
monday_date = 19723

-- 8:20 of that day, in milliseconds.
abbrev morning : ℕ
morning = 1704072000000

next_transition-morning : next_transition (some monday_hours) morning ≡ some 40
unfolding next_transition entries_of parse_schedule normalized trim trim_start trim_end times_of
    split_commas all_ranges entry_ranges least_left
next_transition-morning = refl

open_until_transition_example : is_open_now (some monday_hours) (morning + 39 * 60000) ≡ some true
open_until_transition_example =
    open_until_transition (some monday_hours) morning 40 39 next_transition-morning (omega arith)

parse_schedule-print_schedule_example :
    parse_schedule (print_schedule (monday ∷ range_at 1320 120 6 ∷ []))
    ≡ monday ∷ range_at 1320 120 6 ∷ []
parse_schedule-print_schedule_example =
    parse_schedule-print_schedule (monday ∷ range_at 1320 120 6 ∷ []) (
      (omega arith, omega arith, omega arith, omega arith),
      ((omega arith, omega arith, omega arith, omega arith), tt),
    )

abbrev pub monday_settings : BookingSettings
monday_settings = record {
  booking_enabled = true;
  slot_minutes = 30;
  capacity = 1;
  lead_minutes = 60;
  horizon_days = 7;
  always_open = false;
  hours = some monday_hours;
}

-- The day before, at 8:00.
abbrev pub sunday_morning : ℕ
sunday_morning = 1703984400000

abbrev pub monday_input : SlotInput
monday_input = record {
  date = monday_date;
  settings = monday_settings;
  confirmed_by_slot = λ m. 0;
  now = sunday_morning;
}

build_slots-Offered_example :
    (os : List Offer) × (build_slots 1440 monday_input ≡ some os)
    × All (Offered monday_input (ranges_of monday_settings monday_date)) os
build_slots-Offered_example = build_slots-Offered 1440 monday_input (omega arith) (omega arith)

abbrev pub monday_offers : List Offer
monday_offers =
    record { at = 1704070800000; slot = 480; outside_hours = false; remaining = 1 }
    ∷ record { at = 1704072600000; slot = 510; outside_hours = false; remaining = 1 }
    ∷ []
