-- ===== src/Examples/Bookings.antt =====
-- Examples of the theorems on bookings: one request at the shop of the example hours.
use roadassistapp_be.Base.{ℕ, ◌≤◌, ◌≡◌, refl, true, false, none, some, [], ◌∷◌, arith}
use roadassistapp_be.Base.Result.{ok}
use roadassistapp_be.Base.Store.{IsKeyed, total}
use roadassistapp_be.Hours.Open.{entries_of}
use roadassistapp_be.Hours.{
  trim_start, trim_end, trim, split_commas, times_of, entry_ranges, all_ranges, normalized,
  parse_schedule,
}
use roadassistapp_be.Slots.{
  BookingFields, hours_of, booking_settings, ranges_on_day, insert_range, sort_ranges,
  ranges_for_date, ranges_of, slots_from, slots_in, build_slots,
}
use roadassistapp_be.Booking.{BookingWorld, BookingCaller, claim_slot, write_booking, percent}
use roadassistapp_be.Booking.Handlers.{accept_booking, respond_booking}
use roadassistapp_be.Booking.Catalog.{BookingRequest}
use roadassistapp_be.Booking.Create.{confirmed_map, check_time, check_place, new_booking}
use roadassistapp_be.Booking.Laws.{held_count, capacity_of, IsCounted}
use roadassistapp_be.Booking.Steps.{booking_steps_within, responds, done, then}
use roadassistapp_be.Booking.Offers.{offered_slot_passes}
use roadassistapp_be.Examples.Hours.{
  monday_hours, monday_date, monday_settings, sunday_morning, monday_offers,
}

abbrev monday_fields : BookingFields
monday_fields = record {
  booking_enabled = true;
  booking_slot_minutes = none;
  booking_capacity = some 1;
  booking_lead_minutes = none;
  booking_horizon_days = none;
  booking_always_open = false;
  booking_hours = some monday_hours;
  open_hours = none;
}

abbrev booked_at : ℕ
booked_at = 1704070800000

abbrev asked : BookingWorld
asked = record {
  bookings = new_booking 50 1 20 booked_at false 0 ∷ [];
  slots = λ p d m. 0;
  shops =
      record {
        id = 20;
        operator_uid = some 9;
        is_active = true;
        is_suspended = false;
        is_shop = true;
        fields = monday_fields;
        services =
            record { code = 3; display_price = 90000; channels = []; vehicle_classes = [] } ∷ [];
        deposit_policy = percent;
        deposit_amount = none;
        deposit_percent = some 20;
      }
      ∷ [];
  vehicles = [];
  ticket_deposits = [];
}

abbrev operator : BookingCaller
operator = record { uid = 9; is_admin = false }

abbrev accepted : BookingWorld
accepted = (respond_booking 5000 operator 50 true asked).0

abbrev held_slot : ℕ
held_slot = 480

booking_steps_within_example :
    (held_count 20 19723 held_slot accepted.bookings ≡ accepted.slots 20 19723 held_slot)
    × (held_count 20 19723 held_slot accepted.bookings ≤ capacity_of 20 accepted)
unfolding IsCounted IsKeyed total new_booking
booking_steps_within_example =
    booking_steps_within asked accepted 20 19723 held_slot
      ((refl, tt), (refl, tt), λ p d m. (refl, omega arith))
      (then asked accepted accepted (responds 5000 operator 50 true asked) (done accepted))

-- The slot is taken once the request is accepted.
accepted_count : accepted.slots 20 19723 held_slot ≡ 1
unfolding respond_booking accept_booking claim_slot write_booking booking_settings hours_of
    new_booking
accepted_count = refl

abbrev plain_request : BookingRequest
plain_request = record {
  scheduled_at = booked_at;
  service_codes = 3 ∷ [];
  vehicle_id = none;
  by_tow = false;
  has_origin = false;
  has_note = false;
  long_note = false;
}

offered_slot_passes_example :
    (check_time monday_settings sunday_morning plain_request ≡ ok tt)
    × (check_place monday_settings 20 [] plain_request.scheduled_at ≡ ok tt)
unfolding entries_of parse_schedule normalized trim trim_start trim_end times_of split_commas
    all_ranges entry_ranges build_slots slots_in slots_from ranges_of ranges_for_date ranges_on_day
    sort_ranges insert_range confirmed_map
offered_slot_passes_example =
    offered_slot_passes monday_settings 1440 20 monday_date sunday_morning 0 [] plain_request
      {os = monday_offers} (omega arith) refl refl (omega arith) (omega arith) refl refl
      (omega arith) (omega arith)
