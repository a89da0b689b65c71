-- ===== src/Dispatch/Tow.antt =====
-- The fares, legs and towers of a tow whose status changes: transition.ts, helpers.ts and fare.ts.
use roadassistapp_be.Base.{
  ℕ, ◌+◌, ◌*◌, min, Bool, true, false, not, ◌&&◌, Option, none, some, List, [], ◌∷◌, ◌++◌, ◌==◌,
  if◌then◌else◌, or_else, is_some, find,
}
use roadassistapp_be.Base.Int.{round_div}
use roadassistapp_be.Status.{is_tow, pending}
use roadassistapp_be.Ticket.{VehicleClass, TowFare, Ticket, solo_bike}
use roadassistapp_be.Fare.{
  TowRates, is_night_fare, quote_tow_fare, partial_tow_fare, tow_rates_for_provider,
}
use roadassistapp_be.Dispatch.{
  ShopKind, Place, Fix, TowLeg, Job, DispatchWorld, Env, shop_at, on_ticket, on_job, on_provider,
  write_status, tow_provider, other_provider,
}
use roadassistapp_be.Dispatch.Guards.{is_fresh}

-- `kind === PROVIDER_KIND.TOW`
abbrev pub is_tow_provider : ShopKind → Bool
is_tow_provider tow_provider = true
is_tow_provider other_provider = false

-- `towFareRates`
unfoldable pub tow_fare_rates : Env → Ticket → DispatchWorld → TowRates
tow_fare_rates env t w = elim t.assigned_shop_id [
  | none ↦ env.rates
  | some shop ↦
      if is_tow t.ticket_type && is_some (shop_at shop w) && is_tow_provider (w.providers shop).kind
      then tow_rates_for_provider env.rates (w.providers shop).tow_base_fee
          (w.providers shop).tow_per_km_fee
      else env.rates
]

abbrev tow_class : Ticket → VehicleClass
tow_class t = or_else t.vehicle_class solo_bike

abbrev estimate_on : Option TowFare → ℕ
estimate_on none = 0
estimate_on (some fare) = or_else fare.estimate 0

abbrev ceiling_on : Option TowFare → ℕ
ceiling_on none = 0
ceiling_on (some fare) = or_else fare.ceiling 0

abbrev loaded_on : Option TowFare → ℕ
loaded_on none = 0
loaded_on (some fare) = or_else fare.loaded_m 0

abbrev deadhead_on : Option TowFare → ℕ
deadhead_on none = 0
deadhead_on (some fare) = or_else fare.deadhead_m 0

abbrev class_on : Option TowFare → VehicleClass → VehicleClass
class_on none cls = cls
class_on (some fare) cls = or_else fare.fare_class cls

abbrev per_km_on : Option TowFare → Option ℕ
per_km_on none = none
per_km_on (some fare) = fare.per_km_fee

-- The fare of a tow that ends early: the price of the way to the pickup point.
unfoldable pub partial_fare : ℕ → ℕ → Bool → VehicleClass → Option TowFare → TowFare
partial_fare final deadhead night cls prior = record {
  estimate = some (estimate_on prior);
  ceiling = some (ceiling_on prior);
  final = some final;
  base_fee = none;
  per_km_fee = none;
  included_m = none;
  billable_hkm = none;
  deadhead_m = some deadhead;
  loaded_m = some (loaded_on prior);
  night = night;
  night_multiplier = none;
  fare_class = some (class_on prior cls);
  partial = true;
  waiting_fee = none;
}

abbrev pub put_fare : (Option TowFare → TowFare) → Ticket → Ticket
put_fare f t = record t { tow_fare = some (f t.tow_fare) }

-- The fare that a rider's cancellation writes first, from the quoted way to the pickup point.
unfoldable pub quoted_way : Env → Ticket → DispatchWorld → Option TowFare → TowFare
unfolding is_night_fare partial_tow_fare partial_fare tow_fare_rates
quoted_way env t w prior =
    let night = is_night_fare env.rates env.minutes in
    partial_fare
      (partial_tow_fare (some (tow_class t)) night (deadhead_on t.tow_fare) none
        (tow_fare_rates env t w))
      (deadhead_on t.tow_fare) night (tow_class t) prior

unfoldable pub cancel_quoted : Env → ℕ → Ticket → DispatchWorld → DispatchWorld
unfolding on_ticket quoted_way
cancel_quoted env id t w =
    if is_tow t.ticket_type && is_some t.assigned_shop_id
    then on_ticket id (put_fare (quoted_way env t w)) w
    else w

abbrev leg_of : Env → Option ℕ → Option ℕ → Place → Option Fix → TowLeg
leg_of env dest tracked place none = record {
  to_shop = dest;
  leg_m = 0;
  traveled_m = or_else tracked 0;
  actual = false;
  at = env.now;
}
leg_of env dest tracked place (some fix) = record {
  to_shop = dest;
  leg_m = env.meters fix.place place;
  traveled_m = or_else tracked 0;
  actual = is_fresh env.now fix;
  at = env.now;
}

abbrev pub add_leg : TowLeg → Job → Job
add_leg leg j = record j {
  tow_legs = j.tow_legs ++ (leg ∷ []);
  tow_distance_m = some (or_else j.tow_distance_m 0 + leg.leg_m);
}

unfoldable pub last_leg : Env → ℕ → ℕ → Ticket → DispatchWorld → TowLeg
last_leg env id tower t w =
    leg_of env t.destination_shop_id (env.tracked_m id) (w.jobs id).place (w.fixes tower)

-- `freezeTowLeg`, of a ticket with a tower.
unfoldable pub freeze_tow_leg : Env → ℕ → ℕ → Ticket → DispatchWorld → DispatchWorld
unfolding on_job last_leg
freeze_tow_leg env id tower t w = on_job id (add_leg (last_leg env id tower t w)) w

-- `actualDeadheadKm`, in metres.
unfoldable pub actual_deadhead_m : List TowLeg → ℕ
actual_deadhead_m [] = 0
actual_deadhead_m (leg ∷ legs) = (if leg.actual then leg.traveled_m else 0) + actual_deadhead_m legs

unfoldable pub made_way : Env → Ticket → ℕ → DispatchWorld → Option TowFare → TowFare
unfolding is_night_fare partial_tow_fare partial_fare tow_fare_rates
made_way env t deadhead w prior =
    let night = is_night_fare env.rates env.minutes in
    partial_fare
      (partial_tow_fare t.vehicle_class night deadhead (per_km_on t.tow_fare)
        (tow_fare_rates env t w))
      deadhead night (tow_class t) prior

-- The leg is frozen, and the way that the tower really made is the fare. Prices are those of the
-- ticket `t` as it was read first.
unfoldable pub freeze_fare : Env → ℕ → ℕ → Ticket → DispatchWorld → DispatchWorld
unfolding freeze_tow_leg on_ticket made_way actual_deadhead_m
freeze_fare env id tower t w =
    let frozen = freeze_tow_leg env id tower t w in
    on_ticket id (put_fare (made_way env t (actual_deadhead_m (frozen.jobs id).tow_legs) w)) frozen

-- A tower that took the job accepts requests again.
unfoldable pub reopen_tower : ℕ → DispatchWorld → DispatchWorld
unfolding on_provider
reopen_tower shop w =
    if is_some (shop_at shop w)
      && is_tow_provider (w.providers shop).kind
      && not (w.providers shop).accepting
    then on_provider shop (λ p. record p { accepting = true }) w
    else w

-- `arrayUnion` of an id.
abbrev union_id : ℕ → List ℕ → List ℕ
union_id id ids = elim (find (λ x. x == id) ids) [ none ↦ ids ++ (id ∷ []) | some x ↦ ids ]

abbrev pub unassign : ℕ → ℕ → Ticket → Ticket
unassign user actual t = record t {
  tow_actual_m = some actual;
  assigned_shop_id = none;
  assigned_uid = none;
  cancelled_by = some user;
}

abbrev pub requeue_fields : Env → ℕ → ℕ → Place → Option ℕ → Job → Job
requeue_fields env user tower place reason j = record j {
  place = place;
  pickup_history = j.pickup_history ++ (record { place = place; at = env.now } ∷ []);
  former_shops = union_id tower j.former_shops;
  tow_cancels =
      j.tow_cancels ++ (record { shop = tower; by = user; at = env.now; reason = reason } ∷ []);
  searching = true;
  candidates = [];
  eta_pickup = none;
  eta_dropoff = none;
  eta_notified = none;
}

abbrev pub offer_to : ℕ → List ℕ → DispatchWorld → DispatchWorld
offer_to id [] w = w
offer_to id (o ∷ operators) w = on_job id (λ j. record j { candidates = o ∷ operators }) w

-- The tower is paid for the way it made, and leaves the ticket.
unfoldable pub give_back :
    Env → ℕ → ℕ → ℕ → Place → Option ℕ → Ticket → DispatchWorld → DispatchWorld
unfolding freeze_fare on_ticket on_job actual_deadhead_m
give_back env id user tower place reason t w =
    let frozen = freeze_fare env id tower t w in
    let actual = round_div (actual_deadhead_m (frozen.jobs id).tow_legs) 100 * 100 in
    on_job id (requeue_fields env user tower place reason)
      (on_ticket id (unassign user actual) frozen)

-- The tower gives the job back, and the ticket waits for another.
unfoldable pub requeue : Env → ℕ → ℕ → ℕ → Place → Option ℕ → Ticket → DispatchWorld → DispatchWorld
unfolding give_back write_status reopen_tower
requeue env id user tower place reason t w =
    let freed = give_back env id user tower place reason t w in
    offer_to id (env.operators place)
      (reopen_tower tower (write_status id pending user env.now freed))

-- The quote for the way really made, in place of the fare on file.
unfoldable pub settled_fare : ℕ → TowRates → TowFare → TowFare
unfolding quote_tow_fare
settled_fare billable rates quote =
    let again =
      quote_tow_fare quote.fare_class quote.night (or_else quote.deadhead_m 0) billable rates in
    record {
      estimate = some again.estimate;
      ceiling = some (or_else quote.ceiling again.ceiling);
      -- `Math.min` with a missing ceiling is no number.
      final = elim quote.ceiling [ none ↦ none | some ceiling ↦ some (min again.estimate ceiling) ];
      base_fee = some again.base_fee;
      per_km_fee = some again.per_km_fee;
      included_m = some again.included_m;
      billable_hkm = some again.billable_hkm;
      deadhead_m = some again.deadhead_m;
      loaded_m = some again.loaded_m;
      night = again.night;
      night_multiplier = some again.night_multiplier;
      fare_class = some again.vehicle_class;
      partial = false;
      waiting_fee = none;
    }

abbrev pub put_settled : Env → ℕ → TowRates → TowFare → Ticket → Ticket
put_settled env id rates quote t = record t {
  tow_fare = some (settled_fare (env.billable_m id) rates quote);
  tow_actual_m = some (round_div (env.billable_m id) 10 * 10);
}

-- The fare of a tow that is delivered, once it was quoted.
unfoldable pub settle_delivered : Env → ℕ → Ticket → DispatchWorld → DispatchWorld
unfolding on_ticket settled_fare tow_fare_rates
settle_delivered env id t w = elim t.tow_fare [
  | none ↦ w
  | some quote ↦
      if is_some quote.estimate
      then on_ticket id (put_settled env id (tow_fare_rates env t w) quote) w
      else w
]
