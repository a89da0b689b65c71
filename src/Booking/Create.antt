-- ===== src/Booking/Create.antt =====
-- `createBooking` of service/bookingService.ts: the checks of a request, and the booking that it
-- opens. It runs the checks of Booking/Catalog between its own.
use roadassistapp_be.Base.{
  ℕ, ◌+◌, ◌*◌, Bool, true, false, not, ◌&&◌, ◌||◌, none, some, List, [], ◌∷◌, ltb, leb, ◌==◌,
  if◌then◌else◌,
}
use roadassistapp_be.Base.Result.{
  Result, ◌>>=◌, ◌>>◌, throw_if, require, validation, not_found, conflict, ok, err,
}
use roadassistapp_be.Slots.{
  BookingSettings, booking_settings, day_ms, date_key_of, minutes_of_day, iso_for_local, Range,
  ranges_of, within_ranges,
}
use roadassistapp_be.Booking.{
  Booking, is_confirmed, BookingShop, BookingWorld, BookingReply, find_shop, requested_booking,
  no_deposit, deposit_due,
}
use roadassistapp_be.Booking.Catalog.{BookingRequest, deposit_of}

-- The times of the shop that are confirmed on the date of a time (`confirmedMap`).
unfoldable pub confirmed_map : ℕ → ℕ → List Booking → ℕ → ℕ
confirmed_map provider date [] minute = 0
confirmed_map provider date (b ∷ bs) minute =
    (if b.provider_id == provider
        && is_confirmed b.status
        && leb (iso_for_local date 0) b.scheduled_at
        && ltb b.scheduled_at (iso_for_local date 1440)
        && minutes_of_day b.scheduled_at == minute
      then 1
      else 0)
    + confirmed_map provider date bs minute

abbrev pub no_ranges : List Range → Bool
no_ranges [] = true
no_ranges (r ∷ rs) = false

unfoldable pub is_outside : BookingSettings → ℕ → Bool
unfolding ranges_of within_ranges
is_outside s at =
    not s.always_open && not (within_ranges (minutes_of_day at) (ranges_of s (date_key_of at)))

abbrev pub check_shop : BookingShop → BookingSettings → Result (Unit {0})
check_shop shop s =
    throw_if (not shop.is_active || shop.is_suspended)
      (validation "This shop is not taking bookings")
    >> require s.booking_enabled (validation "This shop does not take bookings")
    >> require shop.is_shop (validation "Bookings are available at shops only")

-- The checks of the time: the lead, the horizon, and a note outside the hours.
unfoldable pub check_time : BookingSettings → ℕ → BookingRequest → Result (Unit {0})
unfolding is_outside ranges_of
check_time s now r =
    throw_if (ltb r.scheduled_at (now + s.lead_minutes * 60000)) (validation "Book further ahead")
    >> throw_if (ltb (now + s.horizon_days * day_ms) r.scheduled_at)
        (validation "That date is too far ahead")
    >> throw_if
        (is_outside s r.scheduled_at
          && not (no_ranges (ranges_of s (date_key_of r.scheduled_at)))
          && not r.has_note)
        (validation "Add a note when requesting a time outside open hours")
    >> throw_if r.long_note (validation "Booking note is too long")

-- Within the hours, a place that is left.
unfoldable pub check_place : BookingSettings → ℕ → List Booking → ℕ → Result (Unit {0})
unfolding is_outside ranges_of confirmed_map
check_place s provider bookings at =
    throw_if
      (not (is_outside s at)
        && not (no_ranges (ranges_of s (date_key_of at)))
        && leb s.capacity (confirmed_map provider (date_key_of at) bookings (minutes_of_day at)))
      (conflict "That time was just taken")

unfoldable pub new_booking : ℕ → ℕ → ℕ → ℕ → Bool → ℕ → Booking
new_booking id rider provider at outside deposit = record {
  id = id;
  rider_uid = rider;
  provider_id = provider;
  scheduled_at = at;
  slot_key = minutes_of_day at;
  status = requested_booking;
  outside_hours = outside;
  deposit_amount = deposit;
  deposit_status = if ltb 0 deposit then deposit_due else no_deposit;
  deposit_collected_at = none;
  deposit_collected_by = none;
  confirmed_at = none;
  declined_at = none;
  cancelled_at = none;
  cancelled_by = none;
  arrived_at = none;
  completed_at = none;
  no_show_at = none;
  ticket_id = none;
}

-- `createBooking`
unfoldable pub create_booking : ℕ → ℕ → ℕ → ℕ → BookingRequest → BookingWorld → BookingReply Booking
unfolding check_time check_place new_booking booking_settings is_outside deposit_of
create_booking id now rider provider r w = elim (find_shop provider w) [
  | none ↦ (w, err (not_found "Provider not found"))
  | some shop ↦
      let s = booking_settings shop.fields in
      elim (check_shop shop s
        >> check_time s now r
        >> deposit_of shop rider r w.vehicles
        >>= λ amount. check_place s provider w.bookings r.scheduled_at >> ok amount) [
          | err e ↦ (w, err e)
          | ok amount ↦
              let b =
                new_booking id rider provider r.scheduled_at (is_outside s r.scheduled_at) amount in
              (record w { bookings = b ∷ w.bookings }, ok b)
        ]
]
