-- ===== src/Booking/Offers.antt =====
-- A slot that is offered can be asked for.
-- The shop's day of a slot, and its minute.
use roadassistapp_be.Base.{
  ℕ, ◌+◌, ◌-◌, ◌*◌, ◌≤◌, ◌<◌, ◌≡◌, refl, sym, subst, ◌∙◌, true, false, not, ◌&&◌, some, List, [],
  ◌∷◌, arith, ltb, leb, All, nth, nth-All,
}
use roadassistapp_be.Base.Result.{ok}
use roadassistapp_be.Booking.{Booking}
use roadassistapp_be.Booking.Catalog.{BookingRequest}
use roadassistapp_be.Booking.Create.{confirmed_map, no_ranges, is_outside, check_time, check_place}
use roadassistapp_be.Slots.{
  BookingSettings, day_ms, date_key_of, minutes_of_day, iso_for_local, Range, ranges_of,
  within_ranges, Offer, SlotInput, build_slots,
}
use roadassistapp_be.Slots.Laws.{InDay, ranges_of-All, Offered, build_slots-Offered}

iso_for_local_date : (date m : ℕ) → 1 ≤ date → m < 1440 → date_key_of (iso_for_local date m) ≡ date
iso_for_local_date date m h l = omega arith

iso_for_local_minute :
    (date m : ℕ) → 1 ≤ date → m < 1440 → minutes_of_day (iso_for_local date m) ≡ m
iso_for_local_minute date m h l = omega arith

within_day : (m : ℕ) (rs : List Range) → All InDay rs → within_ranges m rs ≡ true → m < 1440
unfolding within_ranges
within_day m [] all h = cc h
within_day m (r ∷ rs) all h = ground (arith, all.0, within_day m rs all.1)

some_ranges : (m : ℕ) (rs : List Range) → within_ranges m rs ≡ true → no_ranges rs ≡ false
unfolding within_ranges
some_ranges m [] h = cc h
some_ranges m (r ∷ rs) h = refl

-- What `getAvailability` gives to `buildSlots`.
abbrev pub slot_input : BookingSettings → ℕ → ℕ → List Booking → ℕ → SlotInput
slot_input s provider date bookings now = record {
  date = date;
  settings = s;
  confirmed_by_slot = confirmed_map provider date bookings;
  now = now;
}

is_outside_within :
    (s : BookingSettings) (at date m : ℕ)
    → date_key_of at ≡ date
    → minutes_of_day at ≡ m
    → within_ranges m (ranges_of s date) ≡ true
    → is_outside s at ≡ false
unfolding is_outside
is_outside_within s at date m d k within =
    let here : within_ranges (minutes_of_day at) (ranges_of s (date_key_of at)) ≡ true =
      cc (d, k, within) in
    rw (here, is_outside)
      (elim s.always_open as (λ b. (not b && false) ≡ false) [ true ↦ refl | false ↦ refl ])

checks_pass :
    (s : BookingSettings) (provider now : ℕ) (bookings : List Booking) (r : BookingRequest)
    (date m left : ℕ)
    → r.long_note ≡ false
    → date_key_of r.scheduled_at ≡ date
    → minutes_of_day r.scheduled_at ≡ m
    → within_ranges m (ranges_of s date) ≡ true
    → now + s.lead_minutes * 60000 ≤ r.scheduled_at
    → left ≡ s.capacity - confirmed_map provider date bookings m
    → 0 < left
    → r.scheduled_at ≤ now + s.horizon_days * day_ms
    → (check_time s now r ≡ ok tt) × (check_place s provider bookings r.scheduled_at ≡ ok tt)
unfolding check_time check_place
checks_pass s provider now bookings r date m left short d k within lead eq room near =
    let listed = some_ranges m (ranges_of s date) within in
    let early : ltb r.scheduled_at (now + s.lead_minutes * 60000) ≡ false = ground arith in
    let late : ltb (now + s.horizon_days * day_ms) r.scheduled_at ≡ false = ground arith in
    let free : leb s.capacity (confirmed_map provider date bookings m) ≡ false = ground arith in
    let inside : is_outside s r.scheduled_at ≡ false =
      is_outside_within s r.scheduled_at date m d k within in
    (
      rw (early, late, inside, short, check_time) refl,
      rw (inside, d, k, listed, free, check_place) refl,
    )

-- With a step of at least one minute, on a date after the first of 1970: a slot that is offered with
-- a place left, and not past the horizon, passes the checks of the time and the place of a request
-- for its time, with a note that is not too long or none.
pub offered_slot_passes :
    (s : BookingSettings) (turns provider date now n : ℕ) (bookings : List Booking)
    (r : BookingRequest) {os : List Offer} {o : Offer}
    → 1 ≤ s.slot_minutes
    → r.scheduled_at ≡ o.at
    → r.long_note ≡ false
    → 1440 ≤ turns
    → 1 ≤ date
    → build_slots turns (slot_input s provider date bookings now) ≡ some os
    → nth n os ≡ some o
    → 0 < o.remaining
    → o.at ≤ now + s.horizon_days * day_ms
    → (check_time s now r ≡ ok tt) × (check_place s provider bookings r.scheduled_at ≡ ok tt)
offered_slot_passes s turns provider date now n bookings r {os} {o} step time short t d built g room
      near =
    let i = slot_input s provider date bookings now in
    let all = build_slots-Offered turns i step t in
    let same : some all.0 ≡ some os = sym all.1 ∙ built in
    let eq : all.0 ≡ os = cc same in
    let offered : Offered i (ranges_of s date) o =
      nth-All (Offered i (ranges_of s date)) n os g
        (subst (λ x. All (Offered i (ranges_of s date)) x) eq all.2) in
    let minute : o.slot < 1440 =
      within_day o.slot (ranges_of s date) (ranges_of-All s date) offered.0 in
    let on_date : date_key_of r.scheduled_at ≡ date =
      rw (time, offered.1) (iso_for_local_date date o.slot d minute) in
    let at_minute : minutes_of_day r.scheduled_at ≡ o.slot =
      rw (time, offered.1) (iso_for_local_minute date o.slot d minute) in
    checks_pass s provider now bookings r date o.slot o.remaining short on_date at_minute offered.0
      (rw time offered.2) offered.3 room (rw time near)
