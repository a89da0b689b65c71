-- ===== src/Dispatch.antt =====
-- service/dispatch/tickets: what a change of a ticket's status reads and writes besides the
-- payments and refunds. A document is a row of the collection (the ticket, the shop), with the
-- rest of its fields in a function from the id. Distances are whole metres, times milliseconds.
pub mod Waiting
pub mod Guards
pub mod Money
pub mod Tow
pub mod Update
pub mod Edits
pub mod Effects
pub mod FollowUp
pub mod Handled
pub mod Change
pub mod Outcome
pub mod Unpaid
pub mod Requests
pub mod Freed
pub mod Stranger
pub mod Closed
use roadassistapp_be.Base.{
  ℕ, ◌==◌, Bool, false, Option, none, some, List, ◌∷◌, if◌then◌else◌, is_id,
}
use roadassistapp_be.Base.Int.{ℤ}
use roadassistapp_be.Base.Store.{get_row}
use roadassistapp_be.Status.{TicketStatus, is_terminal}
use roadassistapp_be.Ticket.{Ticket}
use roadassistapp_be.Fare.{TowRates}
use roadassistapp_be.Payment.World.{
  TicketRow, Shop, shop_id, RefundPolicy, find_ticket, update_ticket,
}
use roadassistapp_be.Refund.{RefundWorld}

-- Coordinates, in millionths of a degree.
pub record Place : Type 0 where
  pub lat : ℤ
  pub lng : ℤ

-- The last known position of a provider.
pub record Fix : Type 0 where
  pub place : Place
  pub last_seen : ℕ

-- PROVIDER_KIND, as far as the handler tells the kinds apart.
pub data ShopKind : Type 0 where
  tow_provider other_provider : ShopKind

-- The rest of a shop's document.
pub record Provider : Type 0 where
  pub kind : ShopKind
  -- `status === PROVIDER_STATUS.ACTIVE`
  pub is_active : Bool
  pub suspended : Bool
  -- `accepting !== false`
  pub accepting : Bool
  pub place : Option Place
  pub tow_base_fee : Option ℕ
  pub tow_per_km_fee : Option ℕ

-- A row of `towLegs`.
pub record TowLeg : Type 0 where
  pub to_shop : Option ℕ
  pub leg_m : ℕ
  pub traveled_m : ℕ
  pub actual : Bool
  pub at : ℕ

-- A row of `pickupHistory`.
pub record Pickup : Type 0 where
  pub place : Place
  pub at : ℕ

-- A row of `towCancelHistory`.
pub record TowCancel : Type 0 where
  pub shop : ℕ
  pub by : ℕ
  pub at : ℕ
  pub reason : Option ℕ

-- A row of `statusHistory`.
pub record StatusChange : Type 0 where
  pub status : TicketStatus
  pub at : ℕ
  pub by : ℕ

pub data OfferStatus : Type 0 where
  offer_pending offer_accepted offer_other : OfferStatus

-- `returnTowOffer`
pub record ReturnOffer : Type 0 where
  pub status : OfferStatus
  pub shop : Option ℕ
  pub by : ℕ
  pub at : ℕ

-- The rest of a ticket's document.
pub record Job : Type 0 where
  pub place : Place
  pub destination_point : Option Place
  pub destination_snapshot : Option Place
  -- `towKind === "RETURN"`
  pub is_return : Bool
  pub linked : List ℕ
  pub hold : Option ℕ
  pub status_history : List StatusChange
  pub tow_legs : List TowLeg
  pub tow_distance_m : Option ℕ
  pub pickup_history : List Pickup
  pub former_shops : List ℕ
  pub tow_cancels : List TowCancel
  pub searching : Bool
  pub candidates : List ℕ
  pub eta_pickup : Option ℕ
  pub eta_dropoff : Option ℕ
  pub eta_notified : Option ℕ
  pub waiting_active : Bool
  pub waiting_fee : Option ℕ
  -- `deliveredAt` and `deliveredBy`.
  pub delivered : Option (ℕ × ℕ)
  pub received_at : Option ℕ
  pub fulfilled_by : Option ℕ
  pub return_offer : Option ReturnOffer

pub record DispatchWorld : Type 0 where
  pub money : RefundWorld
  pub jobs : ℕ → Job
  pub providers : ℕ → Provider
  pub fixes : ℕ → Option Fix

-- What a request is answered with: the clock, the platform's configuration, an id that the database
-- gives a new refund request, and what floating-point geometry measures.
pub record Env : Type 0 where
  pub now : ℕ
  -- The minute of the day in Vietnam.
  pub minutes : ℕ
  pub rates : TowRates
  pub refund_policy : RefundPolicy
  pub fresh : RefundWorld → ℕ
  -- `Math.round(haversineMeters(...))`
  pub meters : Place → Place → ℕ
  -- `haversineMeters(...) <= radius`
  pub is_within : ℕ → Place → Place → Bool
  -- `trackedDeadheadKm`, from the job's track.
  pub tracked_m : ℕ → Option ℕ
  -- `billableKm`: the track's length past the pickup, at most 115 % of the quoted one.
  pub billable_m : ℕ → ℕ
  -- `findTowOperators` near a place.
  pub operators : Place → List ℕ
  -- The rules of `waitingRules`; the rate is a whole number of VND for a minute.
  pub grace_ms : ℕ
  pub cap_ms : ℕ
  pub rate_per_min : ℕ
  pub radius_m : ℕ

abbrev pub find_row : ℕ → DispatchWorld → Option TicketRow
find_row id w = find_ticket id w.money.world

abbrev pub shop_at : ℕ → DispatchWorld → Option Shop
shop_at id w = get_row shop_id id w.money.world.shops

-- `dispatchRepository.update` of fields of the ticket.
unfoldable pub on_ticket : ℕ → (Ticket → Ticket) → DispatchWorld → DispatchWorld
on_ticket id f w = record w {
  money = record (w.money) {
    world = update_ticket id (λ r. record r { ticket = f r.ticket }) w.money.world;
  };
}

-- `dispatchRepository.update` of the other fields.
unfoldable pub on_job : ℕ → (Job → Job) → DispatchWorld → DispatchWorld
on_job id f w = record w { jobs = λ x. if x == id then f (w.jobs x) else w.jobs x }

-- `providerRepository.update`
unfoldable pub on_provider : ℕ → (Provider → Provider) → DispatchWorld → DispatchWorld
on_provider id f w = record w {
  providers = λ x. if x == id then f (w.providers x) else w.providers x;
}

abbrev pub with_status : TicketStatus → Ticket → Ticket
with_status s t = record t { status = s }

-- `updateStatus`
unfoldable pub write_status : ℕ → TicketStatus → ℕ → ℕ → DispatchWorld → DispatchWorld
unfolding on_ticket on_job
write_status id s by now w =
    on_job id
      (λ j. record j {
        hold = if is_terminal s then none else j.hold;
        status_history = record { status = s; at = now; by = by } ∷ j.status_history;
      })
      (on_ticket id (with_status s) w)

-- Who calls.
abbrev operates : ℕ → Option ℕ → DispatchWorld → Bool
operates user none w = false
operates user (some shop) w = elim (shop_at shop w) [
  | none ↦ false
  | some s ↦ is_id s.operator_uid user
]
