-- ===== src/Booking/Steps.antt =====
-- Bookings over time: each step runs one handler, or the sweep.
use roadassistapp_be.Base.{ℕ, ◌≤◌, ◌≡◌, sym, Bool, none, arith}
use roadassistapp_be.Base.Result.{Result}
use roadassistapp_be.Booking.{TicketDeposit, BookingWorld, find_booking, BookingCaller}
use roadassistapp_be.Booking.Handlers.{
  respond_booking, cancel_booking, arrive_booking, complete_booking, collect_deposit,
  sweep_bookings,
}
use roadassistapp_be.Booking.Create.{create_booking}
use roadassistapp_be.Booking.Catalog.{BookingRequest}
use roadassistapp_be.Booking.Laws.{held_count, capacity_of, IsCounted}
use roadassistapp_be.Booking.Handled.{
  respond_booking-IsCounted, cancel_booking-IsCounted, arrive_booking-IsCounted,
  complete_booking-IsCounted, collect_deposit-IsCounted, create_booking-IsCounted,
}
use roadassistapp_be.Booking.Swept.{sweep_bookings-IsCounted}

pub data BookingStep : BookingWorld → BookingWorld → Type 0 where
  asks :
      (id now rider provider : ℕ) (r : BookingRequest) (w : BookingWorld)
      → find_booking id w ≡ none
      → BookingStep w (create_booking id now rider provider r w).0
  responds :
      (now : ℕ) (c : BookingCaller) (id : ℕ) (accept : Bool) (w : BookingWorld)
      → BookingStep w (respond_booking now c id accept w).0
  cancels : (now uid id : ℕ) (w : BookingWorld) → BookingStep w (cancel_booking now uid id w).0
  arrives :
      (now uid id : ℕ) (created : Result TicketDeposit) (w : BookingWorld)
      → BookingStep w (arrive_booking now uid id created w).0
  completes :
      (now : ℕ) (c : BookingCaller) (id : ℕ) (w : BookingWorld)
      → BookingStep w (complete_booking now c id w).0
  collects :
      (now : ℕ) (c : BookingCaller) (id : ℕ) (collected : Bool) (w : BookingWorld)
      → BookingStep w (collect_deposit now c id collected w).0
  sweeps : (now : ℕ) (w : BookingWorld) → BookingStep w (sweep_bookings now w)

pub data BookingSteps : BookingWorld → BookingWorld → Type 0 where
  done : (w : BookingWorld) → BookingSteps w w
  then : (a b c : BookingWorld) → BookingStep a b → BookingSteps b c → BookingSteps a c

step-IsCounted : (a b : BookingWorld) → IsCounted a → BookingStep a b → IsCounted b
step-IsCounted a b h (asks id now rider provider r w new) =
    create_booking-IsCounted id now rider provider r w new h
step-IsCounted a b h (responds now c id accept w) = respond_booking-IsCounted now c id accept w h
step-IsCounted a b h (cancels now uid id w) = cancel_booking-IsCounted now uid id w h
step-IsCounted a b h (arrives now uid id created w) =
    arrive_booking-IsCounted now uid id created w h
step-IsCounted a b h (completes now c id w) = complete_booking-IsCounted now c id w h
step-IsCounted a b h (collects now c id collected w) =
    collect_deposit-IsCounted now c id collected w h
step-IsCounted a b h (sweeps now w) = sweep_bookings-IsCounted now w h

steps-IsCounted : (a b : BookingWorld) → IsCounted a → BookingSteps a b → IsCounted b
steps-IsCounted a b h (done w) = h
steps-IsCounted a b h (then w v u s ss) = steps-IsCounted v u (step-IsCounted w v h s) ss

-- From a state whose counters are right, whatever the shop, the riders and the sweep do in whatever
-- order: the bookings that hold a place in a slot are as many as its counter says, and never more
-- than the capacity of the shop.
pub booking_steps_within :
    (a b : BookingWorld) (p d m : ℕ)
    → IsCounted a
    → BookingSteps a b
    → (held_count p d m b.bookings ≡ b.slots p d m)
      × (held_count p d m b.bookings ≤ capacity_of p b)
unfolding IsCounted
booking_steps_within a b p d m h s =
    let k = (steps-IsCounted a b h s).2 p d m in (sym k.0, omega (arith, k))
