-- ===== src/Dispatch/Guards.antt =====
-- service/dispatch/tickets/transition.ts, the checks before anything is written, in their order,
-- with deliveryGuard.ts and `assertCashConfirmedForResolve` of service/paymentService.ts.
use roadassistapp_be.Base.{
  ℕ, ◌+◌, Bool, true, false, not, ◌&&◌, ◌||◌, Option, none, some, List, ltb, ◌==◌, if◌then◌else◌,
  is_some, is_id, find,
}
use roadassistapp_be.Base.Result.{Result, ◌>>◌, throw_if, require, validation, forbidden, ok}
use roadassistapp_be.Status.{
  TicketStatus, TicketType, ◌=ˢ◌, is_tow, is_sos, arrived, resolved, in_progress, ready,
}
use roadassistapp_be.Ticket.{DepositStatus, Approval, Ticket, requested, approval_pending}
use roadassistapp_be.PaymentStatus.{is_cash, same_status, confirmed}
use roadassistapp_be.Transition.{View, Caller, assert_transition}
use roadassistapp_be.Payment.{Payment, find_by_ticket}
use roadassistapp_be.Payment.World.{first_some}
use roadassistapp_be.Dispatch.{Place, Fix, Job, DispatchWorld, Env, shop_at, operates}

-- `shopIds` of the ticket: its operator is the caller.
unfoldable pub is_operator_of : ℕ → Ticket → DispatchWorld → Bool
is_operator_of user t w = operates user t.assigned_shop_id w || operates user t.provider_id w

-- What the caller is to the ticket; `admin` is the role of a user that exists.
unfoldable pub caller_for : ℕ → Bool → Ticket → DispatchWorld → Caller
unfolding is_operator_of
caller_for user admin t w = record {
  is_rider = t.user_id == user;
  is_operator = is_operator_of user t w;
  is_assignee = is_id t.assigned_uid user;
  is_admin = admin;
}

-- A mobile shop was assigned and no fix fee is set.
abbrev lacks_fee : Ticket → Bool
lacks_fee t = is_sos t.ticket_type && is_some t.assigned_shop_id && not (is_some t.final_amount)

abbrev asks_deposit : Option DepositStatus → Bool
asks_deposit (some requested) = true
asks_deposit _ = false

abbrev pub awaits_approval : Option Approval → Bool
awaits_approval (some approval_pending) = true
awaits_approval _ = false

abbrev is_available : ℕ → DispatchWorld → Bool
is_available shop w = elim (shop_at shop w) [
  | none ↦ false
  | some s ↦ (w.providers shop).is_active && not (w.providers shop).suspended
]

abbrev check_destination : Option ℕ → DispatchWorld → Result (Unit {0})
check_destination none w = ok tt
check_destination (some shop) w =
    require (is_available shop w)
      (validation "Destination shop is no longer available — choose another drop-off")

-- `ARRIVAL_RADIUS_M`
abbrev arrival_radius_m : ℕ
arrival_radius_m = 200

-- `PROVIDER_FRESH_MS`
abbrev provider_fresh_ms : ℕ
provider_fresh_ms = 900000

abbrev pub is_fresh : ℕ → Fix → Bool
is_fresh now fix = ltb now (fix.last_seen + provider_fresh_ms)

-- A fresh position of the provider that is farther off than the radius.
abbrev is_far : Env → Option ℕ → Place → DispatchWorld → Bool
is_far env none place w = false
is_far env (some shop) place w = elim (w.fixes shop) [
  | none ↦ false
  | some fix ↦ is_fresh env.now fix && ltb arrival_radius_m (env.meters fix.place place)
]

abbrev shop_place : Option ℕ → DispatchWorld → Option Place
shop_place none w = none
shop_place (some shop) w = elim (shop_at shop w) [ none ↦ none | some s ↦ (w.providers shop).place ]

-- `dest`
abbrev drop_off : Ticket → Job → DispatchWorld → Option Place
drop_off t j w =
    first_some (shop_place t.destination_shop_id w)
      (first_some j.destination_point j.destination_snapshot)

-- `assertNearTowDestination`
unfoldable pub assert_near_tow_destination : Env → Ticket → Job → DispatchWorld → Result (Unit {0})
assert_near_tow_destination env t j w = elim (drop_off t j w) [
  | none ↦ ok tt
  | some place ↦
      throw_if
        (is_tow t.ticket_type && is_far env (first_some t.assigned_shop_id t.provider_id) place w)
        (validation "Too far from the drop-off point to mark delivered")
]

abbrev cash_confirmed : Option Payment → Bool
cash_confirmed none = true
cash_confirmed (some p) = same_status p.status confirmed

-- `assertCashConfirmedForResolve`; the payments are kept latest first.
unfoldable pub assert_cash_confirmed : ℕ → TicketType → Bool → List Payment → Result (Unit {0})
unfolding find_by_ticket
assert_cash_confirmed ticket ty admin payments =
    if admin || is_tow ty
    then ok tt
    else require (cash_confirmed (find (λ p. is_cash p.method) (find_by_ticket ticket payments)))
        (validation "Confirm cash received before resolving")

-- What is checked for RESOLVED.
abbrev check_resolve : Env → ℕ → Bool → Ticket → DispatchWorld → Result (Unit {0})
check_resolve env id admin t w =
    (if is_tow t.ticket_type then check_destination t.destination_shop_id w else ok tt)
    >> throw_if (awaits_approval t.invoice_approval)
        (validation "Approve the updated invoice first")
    >> assert_near_tow_destination env t (w.jobs id) w
    >> assert_cash_confirmed id t.ticket_type admin w.money.world.store.payments

abbrev pub view_of : Ticket → View
view_of t = record {
  status = t.status;
  ticket_type = t.ticket_type;
  quoted_amount = is_some t.shop_quoted_amount;
}

-- The arrivals that the tower's or the mobile shop's position is checked for.
abbrev is_placed_arrival : Ticket → Caller → Bool
is_placed_arrival t c =
    is_sos t.ticket_type && c.is_rider
    || is_tow t.ticket_type && (c.is_rider || (c.is_operator || c.is_assignee))

abbrev is_participant : Caller → Bool
is_participant c = c.is_rider || (c.is_assignee || (c.is_operator || c.is_admin))

-- What is checked before the transition, for a ticket and a user that exist.
unfoldable pub check_before :
    Env → ℕ → TicketStatus → Ticket → Caller → DispatchWorld → Result (Unit {0})
unfolding assert_near_tow_destination assert_cash_confirmed
check_before env id s t c w =
    throw_if (c.is_rider && s =ˢ resolved && lacks_fee t)
      (validation "The mobile shop must set the fix fee first")
    >> throw_if (t.dispute_hold && not c.is_admin) (forbidden "Dispute under review")
    >> throw_if (s =ˢ in_progress && asks_deposit t.deposit_status && not c.is_admin)
        (validation "Settle or waive the deposit before starting work")
    >> require (is_participant c) (forbidden "Only the rider, helper, or operator updates")
    >> (if s =ˢ resolved then check_resolve env id c.is_admin t w else ok tt)

-- What is checked after the transition.
unfoldable pub check_after :
    Env → ℕ → TicketStatus → Ticket → Caller → DispatchWorld → Result (Unit {0})
check_after env id s t c w =
    throw_if
      (s =ˢ resolved
        && is_tow t.ticket_type
        && t.status =ˢ arrived
        && not c.is_admin
        && not (is_some t.loaded_at))
      (validation "Mark loaded before delivering")
    >> throw_if
        (s =ˢ arrived
          && is_placed_arrival t c
          && is_far env (first_some t.assigned_shop_id t.provider_id) (w.jobs id).place w)
        (validation "Too far from the pickup point to mark arrival")
    >> throw_if (s =ˢ ready && is_sos t.ticket_type && not (is_some t.final_amount))
        (validation "The mobile shop must set the fix fee first")

-- The checks of `updateDispatchStatus`.
unfoldable pub check_update :
    Env → ℕ → TicketStatus → Ticket → Caller → DispatchWorld → Result (Unit {0})
unfolding check_before check_after assert_transition
check_update env id s t c w =
    check_before env id s t c w >> assert_transition (view_of t) s c >> check_after env id s t c w
