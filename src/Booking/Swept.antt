-- ===== src/Booking/Swept.antt =====
-- The sweep of the bookings keeps the counters of the slots right.
-- A step that keeps the counters right, and leaves the other bookings, may run for each of some
-- bookings.
use roadassistapp_be.Base.{
  ℕ, ◌-◌, ◌*◌, ◌≡◌, refl, sym, ◌∙◌, ◌≢◌, inl, inr, Bool, true, ◌||◌, some, List, [], ◌∷◌, arith,
  ◌==◌, Bool-cases, is_some, All, All-map, All-zip, find-All, select, select-All, for_each,
}
use roadassistapp_be.Base.Store.{
  get_row-update_row_ne, IsKeyed, IsKeyed-All, fresh-All, select-IsKeyed,
}
use roadassistapp_be.Slots.{date_key_of, minutes_of_day}
use roadassistapp_be.Booking.{
  Booking, booking_id, is_confirmed, is_arrived, BookingWorld, find_booking, release_slot,
  write_booking,
}
use roadassistapp_be.Booking.Handlers.{
  complete_fields, no_show_due, arrived_before, no_show_fields, mark_no_show, complete_arrived,
  sweep_bookings,
}
use roadassistapp_be.Booking.Laws.{
  IsCounted, write_booking-IsCounted, release_moved, kept-IsCounted,
}
use roadassistapp_be.Booking.Handled.{confirmed_holds, arrived_holds}

for_each-IsCounted :
    (step : Booking → BookingWorld → BookingWorld) (test : Booking → Bool)
    → ((b : Booking) (w : BookingWorld)
        → find_booking b.id w ≡ some b
        → test b ≡ true
        → IsCounted w
        → IsCounted (step b w))
    → ((b : Booking) (w : BookingWorld) (other : ℕ)
        → other ≢ b.id
        → find_booking other (step b w) ≡ find_booking other w)
    → (bs : List Booking) (w : BookingWorld) → IsKeyed booking_id bs
    → All (λ b. (find_booking b.id w ≡ some b) × (test b ≡ true)) bs
    → IsCounted w
    → IsCounted (for_each step bs w)
unfolding for_each IsKeyed
for_each-IsCounted step test keep other [] w k all h = h
for_each-IsCounted step test keep other (b ∷ bs) w k all h =
    for_each-IsCounted step test keep other bs (step b w) k.1
      (All-map (λ q. (q.id ≢ b.id) × ((find_booking q.id w ≡ some q) × (test q ≡ true)))
        (λ q. (find_booking q.id (step b w) ≡ some q) × (test q ≡ true))
        (λ q e. (other b w q.id e.0 ∙ e.1.0, e.1.1)) bs
        (All-zip (λ q. q.id ≢ b.id) (λ q. (find_booking q.id w ≡ some q) × (test q ≡ true)) bs
          (fresh-All booking_id b.id bs k.0) all.1))
      (keep b w all.0.0 all.0.1 h)

mark_no_show-IsCounted :
    (now before : ℕ) (b : Booking) (w : BookingWorld)
    → find_booking b.id w ≡ some b
    → no_show_due before b ≡ true
    → IsCounted w
    → IsCounted (mark_no_show now b w)
unfolding mark_no_show IsCounted
mark_no_show-IsCounted now before b w found due h = elim (Bool-cases (is_some b.arrived_at)) [
  | inl e ↦ rw (e, mark_no_show) h
  | inr d ↦
      let confirmed : is_confirmed b.status ≡ true = ground arith in
      let key : b.slot_key ≡ minutes_of_day b.scheduled_at =
        find-All (λ r. booking_id r == b.id) (λ q. q.slot_key ≡ minutes_of_day q.scheduled_at)
          w.bookings found h.1 in
      rw (d, mark_no_show, key)
        (write_booking-IsCounted b.id (no_show_fields now) w
          (record w {
            slots =
                release_slot b.provider_id (date_key_of b.scheduled_at)
                  (minutes_of_day b.scheduled_at) w.slots;
          })
          found (λ q. (refl, refl, refl, refl)) refl refl h
          (λ p d m.
            (release_moved b (no_show_fields now b) w found h.2 (confirmed_holds b.status confirmed)
              refl p d m).0)
          (λ p d m.
            (release_moved b (no_show_fields now b) w found h.2 (confirmed_holds b.status confirmed)
              refl p d m).1))
]

mark_no_show_ne :
    (now : ℕ) (b : Booking) (w : BookingWorld) (other : ℕ)
    → other ≢ b.id
    → find_booking other (mark_no_show now b w) ≡ find_booking other w
unfolding mark_no_show write_booking
mark_no_show_ne now b w other ne = elim (Bool-cases (is_some b.arrived_at)) [
  | inl e ↦ rw (e, mark_no_show) refl
  | inr d ↦
      rw (d, mark_no_show)
        (get_row-update_row_ne booking_id b.id other (no_show_fields now) w.bookings (λ q. refl) ne)
]

complete_arrived-IsCounted :
    (now before : ℕ) (b : Booking) (w : BookingWorld)
    → find_booking b.id w ≡ some b
    → arrived_before before b ≡ true
    → IsCounted w
    → IsCounted (complete_arrived now b w)
complete_arrived-IsCounted now before b w found due h =
    let here : (is_arrived b.status || is_confirmed b.status) ≡ true = ground arith in
    kept-IsCounted b.id (complete_fields now) w w found (λ q. (refl, refl, refl, refl)) refl refl
      refl (sym (arrived_holds b.status here)) h

complete_arrived_ne :
    (now : ℕ) (b : Booking) (w : BookingWorld) (other : ℕ)
    → other ≢ b.id
    → find_booking other (complete_arrived now b w) ≡ find_booking other w
unfolding write_booking
complete_arrived_ne now b w other ne =
    get_row-update_row_ne booking_id b.id other (complete_fields now) w.bookings (λ q. refl) ne

pub sweep_bookings-IsCounted :
    (now : ℕ) (w : BookingWorld) → IsCounted w → IsCounted (sweep_bookings now w)
unfolding sweep_bookings IsCounted
sweep_bookings-IsCounted now w h =
    let before = now - 30 * 60000 in
    let marked = for_each (mark_no_show now) (select (no_show_due before) 200 w.bookings) w in
    let k : IsCounted marked =
      for_each-IsCounted (mark_no_show now) (no_show_due before) (mark_no_show-IsCounted now before)
        (mark_no_show_ne now) (select (no_show_due before) 200 w.bookings) w
        (select-IsKeyed booking_id (no_show_due before) 200 w.bookings h.0)
        (select-All (λ b. find_booking b.id w ≡ some b) (no_show_due before) 200 w.bookings
          (IsKeyed-All booking_id w.bookings h.0))
        h in
    let arrived = arrived_before (now - 6 * 60 * 60000) in
    for_each-IsCounted (complete_arrived now) arrived
      (complete_arrived-IsCounted now (now - 6 * 60 * 60000)) (complete_arrived_ne now)
      (select arrived 200 marked.bookings) marked
      (select-IsKeyed booking_id arrived 200 marked.bookings k.0)
      (select-All (λ b. find_booking b.id marked ≡ some b) arrived 200 marked.bookings
        (IsKeyed-All booking_id marked.bookings k.0))
      k
