-- ===== src/Booking.antt =====
-- service/bookingService.ts, service/booking/sweep.ts and repository/bookingRepository.ts: bookings
-- at a shop and the counters of its slots. Texts, places, vehicles and reminders that a booking
-- only stores are left out.
pub mod Handlers
pub mod Catalog
pub mod Create
pub mod Laws
pub mod Handled
pub mod Swept
pub mod Steps
pub mod Offers
use roadassistapp_be.Base.{
  ℕ, ◌+◌, ◌-◌, Bool, true, false, ◌&&◌, ◌||◌, Option, List, leb, ◌==◌, if◌then◌else◌, is_id,
}
use roadassistapp_be.Base.Result.{Result, require, forbidden, conflict, ok, err}
use roadassistapp_be.Base.Store.{get_row, update_row}
use roadassistapp_be.Slots.{BookingFields}

-- BOOKING_STATUS
pub data BookingStatus : Type 0 where
  requested_booking confirmed_booking declined_booking : BookingStatus
  cancelled_booking arrived_booking completed_booking no_show : BookingStatus

-- BOOKING_DEPOSIT_STATUS
pub data BookingDeposit : Type 0 where
  no_deposit deposit_due deposit_requested deposit_collected : BookingDeposit
  deposit_confirmed deposit_applied deposit_waived : BookingDeposit

pub record Booking : Type 0 where
  pub id : ℕ
  pub rider_uid : ℕ
  pub provider_id : ℕ
  pub scheduled_at : ℕ
  pub slot_key : ℕ
  pub status : BookingStatus
  pub outside_hours : Bool
  pub deposit_amount : ℕ
  pub deposit_status : BookingDeposit
  pub deposit_collected_at : Option ℕ
  pub deposit_collected_by : Option ℕ
  pub confirmed_at : Option ℕ
  pub declined_at : Option ℕ
  pub cancelled_at : Option ℕ
  pub cancelled_by : Option ℕ
  pub arrived_at : Option ℕ
  pub completed_at : Option ℕ
  pub no_show_at : Option ℕ
  pub ticket_id : Option ℕ

abbrev pub booking_id : Booking → ℕ
booking_id b = b.id

abbrev pub is_requested : BookingStatus → Bool
is_requested requested_booking = true
is_requested _ = false

abbrev pub is_confirmed : BookingStatus → Bool
is_confirmed confirmed_booking = true
is_confirmed _ = false

abbrev pub is_arrived : BookingStatus → Bool
is_arrived arrived_booking = true
is_arrived _ = false

-- SERVICE_CHANNEL
pub data ServiceChannel : Type 0 where
  booking_channel assist_channel : ServiceChannel

-- VEHICLE_CLASS
pub data VehicleClass : Type 0 where
  car solo_bike : VehicleClass

-- A service of a shop; a list that is missing is empty.
pub record ShopService : Type 0 where
  pub code : ℕ
  pub display_price : ℕ
  pub channels : List ServiceChannel
  pub vehicle_classes : List VehicleClass

-- BOOKING_DEPOSIT_POLICY
pub data DepositPolicy : Type 0 where
  no_policy fixed percent : DepositPolicy

-- A vehicle of a user.
pub record Vehicle : Type 0 where
  pub id : ℕ
  pub owner : ℕ
  pub is_car : Bool

-- A provider's document, as bookings read it.
pub record BookingShop : Type 0 where
  pub id : ℕ
  pub operator_uid : Option ℕ
  pub is_active : Bool
  pub is_suspended : Bool
  pub is_shop : Bool
  pub fields : BookingFields
  pub services : List ShopService
  pub deposit_policy : DepositPolicy
  pub deposit_amount : Option ℕ
  pub deposit_percent : Option ℕ

abbrev pub shop_id : BookingShop → ℕ
shop_id s = s.id

-- The deposit fields of a dispatch ticket.
pub record TicketDeposit : Type 0 where
  pub id : ℕ
  pub deposit_amount : ℕ
  pub deposit_status : BookingDeposit
  pub deposit_paid_at : Option ℕ
  pub deposit_collected_by : Option ℕ

abbrev pub ticket_deposit_id : TicketDeposit → ℕ
ticket_deposit_id t = t.id

-- The counters are a function of provider, date and minute, 0 where there is no document.
pub record BookingWorld : Type 0 where
  pub bookings : List Booking
  pub slots : ℕ → ℕ → ℕ → ℕ
  pub shops : List BookingShop
  pub vehicles : List Vehicle
  pub ticket_deposits : List TicketDeposit

abbrev pub BookingReply : Type 0 → Type 0
BookingReply A = BookingWorld × Result A

abbrev pub find_booking : ℕ → BookingWorld → Option Booking
find_booking id w = get_row booking_id id w.bookings

abbrev pub find_shop : ℕ → BookingWorld → Option BookingShop
find_shop id w = get_row shop_id id w.shops

-- The user who calls, and whether it is an admin.
pub record BookingCaller : Type 0 where
  pub uid : ℕ
  pub is_admin : Bool

-- `requireOperator`
abbrev pub require_operator : BookingShop → BookingCaller → Result (Unit {0})
require_operator s c =
    require (is_id s.operator_uid c.uid || c.is_admin)
      (forbidden "Only the shop handles its bookings")

abbrev pub set_count : ℕ → ℕ → ℕ → ℕ → (ℕ → ℕ → ℕ → ℕ) → ℕ → ℕ → ℕ → ℕ
set_count p d m n old p' d' m' = if p == p' && (d == d' && m == m') then n else old p' d' m'

-- `claimSlot`
unfoldable pub claim_slot : ℕ → ℕ → ℕ → ℕ → (ℕ → ℕ → ℕ → ℕ) → Result (ℕ → ℕ → ℕ → ℕ)
claim_slot p d m capacity counts =
    if leb capacity (counts p d m)
    then err (conflict "That time was just taken")
    else ok (set_count p d m (counts p d m + 1) counts)

-- `releaseSlot`
unfoldable pub release_slot : ℕ → ℕ → ℕ → (ℕ → ℕ → ℕ → ℕ) → ℕ → ℕ → ℕ → ℕ
release_slot p d m counts = set_count p d m (counts p d m - 1) counts

-- `update`
unfoldable pub write_booking : ℕ → (Booking → Booking) → BookingWorld → BookingWorld
write_booking id f w = record w { bookings = update_row booking_id id f w.bookings }
