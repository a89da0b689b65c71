-- ===== src/Booking/Handlers.antt =====
-- service/bookingService.ts and service/booking/sweep.ts: what the shop and the rider do with a
-- booking, and the sweep.
use roadassistapp_be.Base.{
  ℕ, ◌+◌, ◌-◌, ◌*◌, Bool, false, ◌&&◌, ◌||◌, none, some, ◌∷◌, ltb, leb, ◌==◌, if◌then◌else◌,
  is_some, is_id, select, for_each,
}
use roadassistapp_be.Base.Result.{
  Result, ◌>>◌, throw_if, require, validation, not_found, forbidden, ok, err,
}
use roadassistapp_be.Base.Store.{update_row}
use roadassistapp_be.Slots.{booking_settings, date_key_of, minutes_of_day}
use roadassistapp_be.Booking.{
  Booking, is_requested, is_confirmed, is_arrived, BookingShop, TicketDeposit, ticket_deposit_id,
  BookingWorld, BookingReply, find_booking, find_shop, BookingCaller, require_operator, claim_slot,
  release_slot, write_booking, confirmed_booking, declined_booking, cancelled_booking,
  arrived_booking, completed_booking, no_show, deposit_collected, deposit_waived,
}

abbrev pub decline_fields : ℕ → Booking → Booking
decline_fields now b = record b { status = declined_booking; declined_at = some now }

abbrev pub confirm_fields : ℕ → Booking → Booking
confirm_fields now b = record b { status = confirmed_booking; confirmed_at = some now }

unfoldable pub accept_booking : ℕ → BookingShop → Booking → BookingWorld → BookingReply Booking
unfolding claim_slot write_booking booking_settings
accept_booking now s b w =
    elim (claim_slot b.provider_id (date_key_of b.scheduled_at) (minutes_of_day b.scheduled_at)
      (booking_settings s.fields).capacity w.slots) [
        | err e ↦ (w, err e)
        | ok counts ↦ (
          write_booking b.id (confirm_fields now) (record w { slots = counts }),
          ok (confirm_fields now b),
        )
      ]

-- `respondBooking`
unfoldable pub respond_booking : ℕ → BookingCaller → ℕ → Bool → BookingWorld → BookingReply Booking
unfolding accept_booking write_booking
respond_booking now c id accept w = elim (find_booking id w) [
  | none ↦ (w, err (not_found "Booking not found"))
  | some b ↦ elim (find_shop b.provider_id w) [
    | none ↦ (w, err (not_found "Provider not found"))
    | some s ↦
        elim (require_operator s c
          >> require (is_requested b.status) (validation "This booking was already handled")) [
            | err e ↦ (w, err e)
            | ok u ↦
                if accept
                then accept_booking now s b w
                else (write_booking b.id (decline_fields now) w, ok (decline_fields now b))
          ]
  ]
]

abbrev pub cancel_fields : ℕ → ℕ → Booking → Booking
cancel_fields now uid b = record b {
  status = cancelled_booking;
  cancelled_at = some now;
  cancelled_by = some uid;
}

-- A confirmed booking gives its place back.
unfoldable pub give_back : Booking → BookingWorld → BookingWorld
unfolding release_slot
give_back b w =
    if is_confirmed b.status
    then record w {
      slots =
          release_slot b.provider_id (date_key_of b.scheduled_at) (minutes_of_day b.scheduled_at)
            w.slots;
    }
    else w

-- `cancelBooking`
unfoldable pub cancel_booking : ℕ → ℕ → ℕ → BookingWorld → BookingReply Booking
unfolding give_back write_booking
cancel_booking now uid id w = elim (find_booking id w) [
  | none ↦ (w, err (not_found "Booking not found"))
  | some b ↦ elim (find_shop b.provider_id w) [
    | none ↦ (w, err (not_found "Provider not found"))
    | some s ↦
        elim (require (b.rider_uid == uid || is_id s.operator_uid uid)
            (forbidden "Only the rider or shop cancels this booking")
          >> require (is_requested b.status || is_confirmed b.status)
              (validation "This booking cannot be cancelled")) [
                | err e ↦ (w, err e)
                | ok u ↦ (
                  write_booking b.id (cancel_fields now uid) (give_back b w),
                  ok (cancel_fields now uid b),
                )
              ]
  ]
]

-- BOOKING_ARRIVAL_GRACE_MINUTES
abbrev pub arrival_grace : ℕ
arrival_grace = 120 * 60000

abbrev pub arrive_fields : ℕ → ℕ → Booking → Booking
arrive_fields now ticket b = record b {
  status = arrived_booking;
  arrived_at = some now;
  ticket_id = some ticket;
}

abbrev pub check_arrival : ℕ → ℕ → Booking → Result (Unit {0})
check_arrival now uid b =
    require (b.rider_uid == uid) (forbidden "Only the rider checks in")
    >> require (is_confirmed b.status) (validation "This booking is not confirmed")
    >> throw_if (ltb (now + arrival_grace) b.scheduled_at)
        (validation "It is too early to check in")
    >> throw_if (ltb (b.scheduled_at + arrival_grace) now) (validation "Check-in window has passed")

-- The ticket's deposit, if the booking has one.
abbrev pub put_deposit : ℕ → Booking → TicketDeposit → TicketDeposit
put_deposit amount b t =
    if leb amount 0
    then t
    else record t { deposit_amount = amount; deposit_status = b.deposit_status }

-- `arriveBooking`. `created` is what `createDispatch` answers: the ticket that it opens, or an error.
unfoldable pub arrive_booking : ℕ → ℕ → ℕ → Result TicketDeposit → BookingWorld → BookingReply ℕ
unfolding write_booking
arrive_booking now uid id created w = elim (find_booking id w) [
  | none ↦ (w, err (not_found "Booking not found"))
  | some b ↦ elim (check_arrival now uid b) [
    | err e ↦ (w, err e)
    | ok u ↦ elim (find_shop b.provider_id w) [
      | none ↦ (w, err (not_found "Provider not found"))
      | some s ↦ elim created [
        | err e ↦ (w, err e)
        | ok t ↦ (
          write_booking b.id (arrive_fields now t.id)
              (record w { ticket_deposits = put_deposit b.deposit_amount b t ∷ w.ticket_deposits }),
          ok t.id,
        )
      ]
    ]
  ]
]

abbrev pub complete_fields : ℕ → Booking → Booking
complete_fields now b = record b { status = completed_booking; completed_at = some now }

-- `completeBooking`
unfoldable pub complete_booking : ℕ → BookingCaller → ℕ → BookingWorld → BookingReply Booking
unfolding write_booking
complete_booking now c id w = elim (find_booking id w) [
  | none ↦ (w, err (not_found "Booking not found"))
  | some b ↦ elim (find_shop b.provider_id w) [
    | none ↦ (w, err (not_found "Provider not found"))
    | some s ↦
        elim (require_operator s c
          >> require (is_arrived b.status || is_confirmed b.status)
              (validation "This booking cannot be completed")) [
                | err e ↦ (w, err e)
                | ok u ↦ (write_booking b.id (complete_fields now) w, ok (complete_fields now b))
              ]
  ]
]

abbrev pub collect_fields : ℕ → ℕ → Bool → Booking → Booking
collect_fields now uid collected b = record b {
  deposit_status = if collected then deposit_collected else deposit_waived;
  deposit_collected_at = some now;
  deposit_collected_by = some uid;
}

abbrev collect_ticket : ℕ → ℕ → Bool → ℕ → TicketDeposit → TicketDeposit
collect_ticket now uid collected amount t =
    if collected
    then record t {
      deposit_amount = amount;
      deposit_status = deposit_collected;
      deposit_paid_at = some now;
      deposit_collected_by = some uid;
    }
    else record t { deposit_amount = amount; deposit_status = deposit_waived }

abbrev pub collect_on_ticket : ℕ → ℕ → Bool → Booking → BookingWorld → BookingWorld
collect_on_ticket now uid collected b w = elim b.ticket_id [
  | none ↦ w
  | some t ↦ record w {
    ticket_deposits =
        update_row ticket_deposit_id t (collect_ticket now uid collected b.deposit_amount)
          w.ticket_deposits;
  }
]

-- `collectDeposit`
unfoldable pub collect_deposit : ℕ → BookingCaller → ℕ → Bool → BookingWorld → BookingReply Booking
unfolding write_booking
collect_deposit now c id collected w = elim (find_booking id w) [
  | none ↦ (w, err (not_found "Booking not found"))
  | some b ↦ elim (find_shop b.provider_id w) [
    | none ↦ (w, err (not_found "Provider not found"))
    | some s ↦
        elim (require_operator s c
          >> throw_if (leb b.deposit_amount 0) (validation "This booking has no deposit")
          >> require (is_confirmed b.status || is_arrived b.status)
              (validation "This booking cannot update a deposit")) [
                | err e ↦ (w, err e)
                | ok u ↦ (
                  write_booking b.id (collect_fields now c.uid collected)
                      (collect_on_ticket now c.uid collected b w),
                  ok (collect_fields now c.uid collected b),
                )
              ]
  ]
]

-- `findNoShowDue`: confirmed, and scheduled before a time.
abbrev pub no_show_due : ℕ → Booking → Bool
no_show_due before b = is_confirmed b.status && leb b.scheduled_at before

-- `findArrivedBefore`
abbrev pub arrived_before : ℕ → Booking → Bool
arrived_before before b =
    is_arrived b.status && elim b.arrived_at [ none ↦ false | some t ↦ leb t before ]

abbrev pub no_show_fields : ℕ → Booking → Booking
no_show_fields now b = record b { status = no_show; no_show_at = some now }

-- A booking that is due is released and marked, unless its rider has arrived.
unfoldable pub mark_no_show : ℕ → Booking → BookingWorld → BookingWorld
unfolding release_slot write_booking
mark_no_show now b w =
    if is_some b.arrived_at
    then w
    else write_booking b.id (no_show_fields now) (record w {
      slots = release_slot b.provider_id (date_key_of b.scheduled_at) b.slot_key w.slots;
    })

abbrev pub complete_arrived : ℕ → Booking → BookingWorld → BookingWorld
complete_arrived now b w = write_booking b.id (complete_fields now) w

-- `sweepBookings`, but for the reminders. A query returns at most 200 bookings.
unfoldable pub sweep_bookings : ℕ → BookingWorld → BookingWorld
unfolding mark_no_show select for_each
sweep_bookings now w =
    let marked =
      for_each (mark_no_show now) (select (no_show_due (now - 30 * 60000)) 200 w.bookings) w in
    for_each (complete_arrived now)
      (select (arrived_before (now - 6 * 60 * 60000)) 200 marked.bookings) marked
