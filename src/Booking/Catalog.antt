-- ===== src/Booking/Catalog.antt =====
-- The vehicle, the pickup point, the services and the deposit of a request for a booking, in
-- service/bookingService.ts.
use roadassistapp_be.Base.{
  ℕ, ◌+◌, ◌*◌, min, Bool, true, false, not, ◌&&◌, ◌||◌, Option, none, some, List, [], ◌∷◌, ltb,
  ◌==◌, if◌then◌else◌, or_else, find,
}
use roadassistapp_be.Base.Int.{round_div}
use roadassistapp_be.Base.Result.{
  Result, ◌>>=◌, ◌>>◌, throw_if, require, validation, not_found, ok, err,
}
use roadassistapp_be.Booking.{
  ServiceChannel, VehicleClass, ShopService, DepositPolicy, Vehicle, BookingShop, booking_channel,
  assist_channel, car, solo_bike, no_policy, fixed, percent,
}

-- A request: its time, its services and vehicle, whether it asks for a tow and names a pickup point,
-- and whether it has a note that is not blank, or one that is too long.
pub record BookingRequest : Type 0 where
  pub scheduled_at : ℕ
  pub service_codes : List ℕ
  pub vehicle_id : Option ℕ
  pub by_tow : Bool
  pub has_origin : Bool
  pub has_note : Bool
  pub long_note : Bool

abbrev is_of : ℕ → ℕ → Vehicle → Bool
is_of user id v = v.owner == user && v.id == id

abbrev class_of : Vehicle → VehicleClass
class_of v = if v.is_car then car else solo_bike

abbrev class_found : Option Vehicle → Result (Option VehicleClass)
class_found none = err (not_found "Vehicle not found")
class_found (some v) = ok (some (class_of v))

-- `assertBookingVehicle`
unfoldable pub assert_booking_vehicle : ℕ → Option ℕ → List Vehicle → Result (Option VehicleClass)
assert_booking_vehicle user none vehicles = ok none
assert_booking_vehicle user (some id) vehicles = class_found (find (is_of user id) vehicles)

-- `bookingPlanFor`
abbrev booking_plan_for : BookingRequest → Result (Unit {0})
booking_plan_for r =
    throw_if (r.by_tow && not r.has_origin) (validation "A tow booking needs a pickup point")

abbrev has_booking : List ServiceChannel → Bool
has_booking [] = false
has_booking (booking_channel ∷ cs) = true
has_booking (assist_channel ∷ cs) = has_booking cs

-- A service with no channels has both.
abbrev is_bookable : List ServiceChannel → Bool
is_bookable [] = true
is_bookable (c ∷ cs) = has_booking (c ∷ cs)

abbrev same_class : VehicleClass → VehicleClass → Bool
same_class car car = true
same_class solo_bike solo_bike = true
same_class _ _ = false

abbrev has_class : VehicleClass → List VehicleClass → Bool
has_class v [] = false
has_class v (c ∷ cs) = same_class c v || has_class v cs

-- A service with no vehicle classes is for every vehicle.
abbrev serves_class : Option VehicleClass → List VehicleClass → Bool
serves_class none cs = true
serves_class (some v) [] = true
serves_class (some v) (c ∷ cs) = has_class v (c ∷ cs)

abbrev check_service : Option VehicleClass → Option ShopService → Result ℕ
check_service vehicle none = err (validation "Unknown service")
check_service vehicle (some s) =
    require (is_bookable s.channels) (validation "Service is not bookable")
    >> require (serves_class vehicle s.vehicle_classes)
        (validation "Service is not available for this vehicle")
    >> ok s.display_price

-- The prices of `serviceSnapshot`.
unfoldable pub service_snapshot : List ShopService → Option VehicleClass → List ℕ → Result (List ℕ)
service_snapshot services vehicle [] = ok []
service_snapshot services vehicle (code ∷ codes) =
    check_service vehicle (find (λ s. s.code == code) services) >>= λ price.
    service_snapshot services vehicle codes >>= λ prices. ok (price ∷ prices)

unfoldable pub sum_prices : List ℕ → ℕ
sum_prices [] = 0
sum_prices (p ∷ ps) = p + sum_prices ps

-- BOOKING_DEPOSIT_MAX
abbrev pub booking_deposit_max : ℕ
booking_deposit_max = 5000000

-- What a policy asks for before it is capped.
unfoldable pub policy_amount : DepositPolicy → BookingShop → List ℕ → ℕ
unfolding sum_prices
policy_amount no_policy shop prices = 0
policy_amount fixed shop prices = or_else shop.deposit_amount 0
policy_amount percent shop prices =
    round_div (sum_prices prices * or_else shop.deposit_percent 0) 100

-- `depositFor`
unfoldable pub deposit_for : BookingShop → List ℕ → ℕ
unfolding policy_amount
deposit_for shop prices = min booking_deposit_max (policy_amount shop.deposit_policy shop prices)

abbrev count_of : List ℕ → ℕ
count_of [] = 0
count_of (c ∷ cs) = 1 + count_of cs

-- `bookingCatalogFor`: the deposit for the services that are asked for, at most BOOKING_SERVICE_MAX.
unfoldable pub booking_catalog_for : BookingShop → Option VehicleClass → List ℕ → Result ℕ
unfolding service_snapshot deposit_for
booking_catalog_for shop vehicle codes =
    throw_if (ltb 10 (count_of codes)) (validation "Too many services selected")
    >> service_snapshot shop.services vehicle codes
    >>= λ prices. ok (deposit_for shop prices)

-- The deposit that a request comes to, or why it is refused.
unfoldable pub deposit_of : BookingShop → ℕ → BookingRequest → List Vehicle → Result ℕ
unfolding assert_booking_vehicle booking_catalog_for
deposit_of shop rider r vehicles = assert_booking_vehicle rider r.vehicle_id vehicles >>= λ vehicle.
    booking_plan_for r >> booking_catalog_for shop vehicle r.service_codes
