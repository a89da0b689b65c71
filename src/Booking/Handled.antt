-- ===== src/Booking/Handled.antt =====
-- Each handler of a booking keeps the counters of the slots right.
use roadassistapp_be.Base.{
  ℕ, ◌≡◌, refl, sym, subst, inl, inr, Bool, true, false, ◌||◌, none, some, ◌∷◌, arith, leb, ◌==◌,
  Bool-cases, Option-cases, is_id,
}
use roadassistapp_be.Base.Result.{
  Result, ◌>>=◌, ◌>>◌, throw_if, require, Result-cases, validation, ok,
}
use roadassistapp_be.Base.Store.{get_row-id, IsKeyed, total}
use roadassistapp_be.Slots.{booking_settings, date_key_of, minutes_of_day}
use roadassistapp_be.Booking.{
  BookingStatus, Booking, booking_id, is_requested, is_confirmed, is_arrived, BookingShop,
  TicketDeposit, BookingWorld, find_booking, find_shop, BookingCaller, require_operator, claim_slot,
  release_slot, write_booking,
}
use roadassistapp_be.Booking.Handlers.{
  decline_fields, confirm_fields, accept_booking, respond_booking, cancel_fields, give_back,
  cancel_booking, arrive_fields, check_arrival, put_deposit, arrive_booking, complete_fields,
  complete_booking, collect_fields, collect_on_ticket, collect_deposit,
}
use roadassistapp_be.Booking.Create.{
  check_shop, check_time, check_place, new_booking, create_booking,
}
use roadassistapp_be.Booking.Catalog.{BookingRequest, deposit_of}
use roadassistapp_be.Booking.Laws.{
  is_holding, IsCounted, write_booking-IsCounted, claim_moved, release_moved, kept-IsCounted,
}

requested_idle : (s : BookingStatus) → is_requested s ≡ true → is_holding s ≡ false
requested_idle s h = ground arith

pub confirmed_holds : (s : BookingStatus) → is_confirmed s ≡ true → is_holding s ≡ true
confirmed_holds s h = ground arith

pub arrived_holds :
    (s : BookingStatus) → (is_arrived s || is_confirmed s) ≡ true → is_holding s ≡ true
arrived_holds s h = ground arith

found_booking :
    (id : ℕ) (w : BookingWorld) {b : Booking}
    → find_booking id w ≡ some b
    → find_booking b.id w ≡ some b
found_booking id w {b} f =
    subst (λ x. find_booking x w ≡ some b) (sym (get_row-id booking_id id w.bookings f)) f

accept_booking-IsCounted :
    (now : ℕ) (s : BookingShop) (b : Booking) (w : BookingWorld)
    → find_booking b.id w ≡ some b
    → find_shop b.provider_id w ≡ some s
    → is_requested b.status ≡ true
    → IsCounted w
    → IsCounted (accept_booking now s b w).0
unfolding accept_booking IsCounted
accept_booking-IsCounted now s b w found g asked h =
    elim (Result-cases (
      claim_slot b.provider_id (date_key_of b.scheduled_at) (minutes_of_day b.scheduled_at)
        (booking_settings s.fields).capacity w.slots)) [
          | inr (e, r) ↦ rw (r, accept_booking) h
          | inl (counts, r) ↦
              rw (r, accept_booking)
                (write_booking-IsCounted b.id (confirm_fields now) w (record w { slots = counts })
                  found (λ q. (refl, refl, refl, refl)) refl refl h
                  (λ p d m.
                    (claim_moved b (confirm_fields now b) s w g r h.2
                      (requested_idle b.status asked) refl p d m refl).0)
                  (λ p d m.
                    (claim_moved b (confirm_fields now b) s w g r h.2
                      (requested_idle b.status asked) refl p d m refl).1))
        ]

pub respond_booking-IsCounted :
    (now : ℕ) (c : BookingCaller) (id : ℕ) (accept : Bool) (w : BookingWorld)
    → IsCounted w
    → IsCounted (respond_booking now c id accept w).0
unfolding respond_booking
respond_booking-IsCounted now c id accept w h = elim (Option-cases (find_booking id w)) [
  | inl n ↦ rw (n, respond_booking) h
  | inr (b, n) ↦ elim (Option-cases (find_shop b.provider_id w)) [
    | inl g ↦ rw (n, g, respond_booking) h
    | inr (s, g) ↦ elim (Bool-cases (is_id s.operator_uid c.uid || c.is_admin)) [
      | inr d ↦ rw (n, g, d, respond_booking) h
      | inl d ↦ elim (Bool-cases (is_requested b.status)) [
        | inr a ↦ rw (n, g, d, a, respond_booking) h
        | inl a ↦ elim (Bool-cases accept) [
          | inl y ↦
              rw (n, g, d, a, y, respond_booking)
                (accept_booking-IsCounted now s b w (found_booking id w n) g a h)
          | inr y ↦
              rw (n, g, d, a, y, respond_booking)
                (kept-IsCounted b.id (decline_fields now) w w (found_booking id w n)
                  (λ q. (refl, refl, refl, refl)) refl refl refl (sym (requested_idle b.status a))
                  h)
        ]
      ]
    ]
  ]
]

cancelled-IsCounted :
    (now uid : ℕ) (b : Booking) (w : BookingWorld)
    → find_booking b.id w ≡ some b
    → (is_requested b.status || is_confirmed b.status) ≡ true
    → IsCounted w
    → IsCounted (write_booking b.id (cancel_fields now uid) (give_back b w))
unfolding give_back IsCounted
cancelled-IsCounted now uid b w found a h = elim (Bool-cases (is_confirmed b.status)) [
  | inr d ↦
      let asked : is_requested b.status ≡ true = ground arith in
      rw (d, give_back)
        (kept-IsCounted b.id (cancel_fields now uid) w w found (λ q. (refl, refl, refl, refl)) refl
          refl refl (sym (requested_idle b.status asked)) h)
  | inl e ↦
      rw (e, give_back)
        (write_booking-IsCounted b.id (cancel_fields now uid) w
          (record w {
            slots =
                release_slot b.provider_id (date_key_of b.scheduled_at)
                  (minutes_of_day b.scheduled_at) w.slots;
          })
          found (λ q. (refl, refl, refl, refl)) refl refl h
          (λ p d m.
            (release_moved b (cancel_fields now uid b) w found h.2 (confirmed_holds b.status e) refl
              p d m).0)
          (λ p d m.
            (release_moved b (cancel_fields now uid b) w found h.2 (confirmed_holds b.status e) refl
              p d m).1))
]

pub cancel_booking-IsCounted :
    (now uid id : ℕ) (w : BookingWorld) → IsCounted w → IsCounted (cancel_booking now uid id w).0
unfolding cancel_booking
cancel_booking-IsCounted now uid id w h = elim (Option-cases (find_booking id w)) [
  | inl n ↦ rw (n, cancel_booking) h
  | inr (b, n) ↦ elim (Option-cases (find_shop b.provider_id w)) [
    | inl g ↦ rw (n, g, cancel_booking) h
    | inr (s, g) ↦ elim (Bool-cases (b.rider_uid == uid || is_id s.operator_uid uid)) [
      | inr d ↦ rw (n, g, d, cancel_booking) h
      | inl d ↦ elim (Bool-cases (is_requested b.status || is_confirmed b.status)) [
        | inr a ↦ rw (n, g, d, a, cancel_booking) h
        | inl a ↦
            rw (n, g, d, a, cancel_booking)
              (cancelled-IsCounted now uid b w (found_booking id w n) a h)
      ]
    ]
  ]
]

check_arrival_confirmed :
    (now uid : ℕ) (b : Booking) → check_arrival now uid b ≡ ok tt → is_confirmed b.status ≡ true
check_arrival_confirmed now uid b h = ground arith

pub arrive_booking-IsCounted :
    (now uid id : ℕ) (created : Result TicketDeposit) (w : BookingWorld)
    → IsCounted w
    → IsCounted (arrive_booking now uid id created w).0
unfolding arrive_booking
arrive_booking-IsCounted now uid id created w h = elim (Option-cases (find_booking id w)) [
  | inl n ↦ rw (n, arrive_booking) h
  | inr (b, n) ↦ elim (Result-cases (check_arrival now uid b)) [
    | inr (e, r) ↦ rw (n, r, arrive_booking) h
    | inl (u, r) ↦ elim (Option-cases (find_shop b.provider_id w)) [
      | inl g ↦ rw (n, r, g, arrive_booking) h
      | inr (s, g) ↦ elim (Result-cases created) [
        | inr (e, c) ↦ rw (n, r, g, c, arrive_booking) h
        | inl (t, c) ↦
            rw (n, r, g, c, arrive_booking)
              (kept-IsCounted b.id (arrive_fields now t.id) w
                (record w {
                  ticket_deposits = put_deposit b.deposit_amount b t ∷ w.ticket_deposits;
                })
                (found_booking id w n) (λ q. (refl, refl, refl, refl)) refl refl refl
                (sym (confirmed_holds b.status (check_arrival_confirmed now uid b r))) h)
      ]
    ]
  ]
]

pub complete_booking-IsCounted :
    (now : ℕ) (c : BookingCaller) (id : ℕ) (w : BookingWorld)
    → IsCounted w
    → IsCounted (complete_booking now c id w).0
unfolding complete_booking
complete_booking-IsCounted now c id w h = elim (Option-cases (find_booking id w)) [
  | inl n ↦ rw (n, complete_booking) h
  | inr (b, n) ↦ elim (Option-cases (find_shop b.provider_id w)) [
    | inl g ↦ rw (n, g, complete_booking) h
    | inr (s, g) ↦ elim (Bool-cases (is_id s.operator_uid c.uid || c.is_admin)) [
      | inr d ↦ rw (n, g, d, complete_booking) h
      | inl d ↦ elim (Bool-cases (is_arrived b.status || is_confirmed b.status)) [
        | inr a ↦ rw (n, g, d, a, complete_booking) h
        | inl a ↦
            rw (n, g, d, a, complete_booking)
              (kept-IsCounted b.id (complete_fields now) w w (found_booking id w n)
                (λ q. (refl, refl, refl, refl)) refl refl refl (sym (arrived_holds b.status a)) h)
      ]
    ]
  ]
]

collect_on_ticket_rest :
    (now uid : ℕ) (collected : Bool) (b : Booking) (w : BookingWorld)
    → ((collect_on_ticket now uid collected b w).bookings ≡ w.bookings)
      × ((collect_on_ticket now uid collected b w).shops ≡ w.shops)
      × ((collect_on_ticket now uid collected b w).slots ≡ w.slots)
collect_on_ticket_rest now uid collected b w = elim (Option-cases b.ticket_id) [
  | inl n ↦ rw n (refl, refl, refl)
  | inr (t, n) ↦ rw n (refl, refl, refl)
]

pub collect_deposit-IsCounted :
    (now : ℕ) (c : BookingCaller) (id : ℕ) (collected : Bool) (w : BookingWorld)
    → IsCounted w
    → IsCounted (collect_deposit now c id collected w).0
unfolding collect_deposit
collect_deposit-IsCounted now c id collected w h = elim (Option-cases (find_booking id w)) [
  | inl n ↦ rw (n, collect_deposit) h
  | inr (b, n) ↦ elim (Option-cases (find_shop b.provider_id w)) [
    | inl g ↦ rw (n, g, collect_deposit) h
    | inr (s, g) ↦
        elim (Result-cases (
          require_operator s c
          >> throw_if (leb b.deposit_amount 0) (validation "This booking has no deposit")
          >> require (is_confirmed b.status || is_arrived b.status)
              (validation "This booking cannot update a deposit"))) [
                | inr (e, r) ↦ rw (n, g, r, collect_deposit) h
                | inl (u, r) ↦
                    let rest = collect_on_ticket_rest now c.uid collected b w in
                    rw (n, g, r, collect_deposit)
                      (kept-IsCounted b.id (collect_fields now c.uid collected) w
                        (collect_on_ticket now c.uid collected b w) (found_booking id w n)
                        (λ q. (refl, refl, refl, refl)) rest.0 rest.1 rest.2 refl h)
              ]
  ]
]

pub create_booking-IsCounted :
    (id now rider provider : ℕ) (r : BookingRequest) (w : BookingWorld)
    → find_booking id w ≡ none
    → IsCounted w
    → IsCounted (create_booking id now rider provider r w).0
unfolding create_booking IsCounted new_booking IsKeyed total
create_booking-IsCounted id now rider provider r w new h =
    elim (Option-cases (find_shop provider w)) [
      | inl n ↦ rw (n, create_booking) h
      | inr (shop, n) ↦
          let s = booking_settings shop.fields in
          elim (Result-cases (
            check_shop shop s
            >> check_time s now r
            >> deposit_of shop rider r w.vehicles
            >>= λ amount. check_place s provider w.bookings r.scheduled_at >> ok amount)) [
              | inr (e, c) ↦ rw (n, c, create_booking) h
              | inl (amount, c) ↦
                  rw (n, c, create_booking)
                    (
                      (new, h.0),
                      (refl, h.1),
                      λ p d m. (let o = (h.2 p d m).0 in omega (arith, o), (h.2 p d m).1),
                    )
            ]
    ]
