-- ===== src/Transition.antt =====
-- service/dispatch/tickets/assertTransition.ts: which status a caller may set on a ticket.
pub mod Edges
use roadassistapp_be.Base.{Bool, not, ◌&&◌, ◌||◌, if◌then◌else◌}
use roadassistapp_be.Base.Result.{Result, ok, err, validation, forbidden}
use roadassistapp_be.Status.{
  TicketStatus, pending, matched, arrived, resolved, cancelled, in_progress, ready, declined,
  quoted, in_shop, final_quoted, resolved_unfixable, estimated, est_approved, unfixable, TicketType,
  is_tow, is_sos, is_walk_in, is_terminal, ◌=ˢ◌,
}

-- The part of a ticket that the check reads; `quoted_amount` says that `shopQuotedAmount` is a
-- number.
pub record View : Type 0 where
  pub status : TicketStatus
  pub ticket_type : TicketType
  pub quoted_amount : Bool

pub record Caller : Type 0 where
  pub is_rider : Bool
  pub is_operator : Bool
  pub is_assignee : Bool
  pub is_admin : Bool

abbrev done : Result (Unit {0})
done = ok tt

abbrev is_shop_ticket : TicketType → Bool
is_shop_ticket ty = not (is_sos ty || is_tow ty)

-- The tests on the requested status, once the caller is no admin and the ticket is open.
check_target : TicketStatus → View → Caller → Result (Unit {0})
check_target matched t c = err (validation "Use accept to match a ticket")
check_target arrived t c =
    if t.status =ˢ matched
      && (is_tow t.ticket_type && (c.is_operator || c.is_assignee)
          || not (is_tow t.ticket_type) && c.is_rider)
    then done
    else err (
        forbidden (
          if is_tow t.ticket_type
          then "Only the assigned tower marks arrival"
          else "Only the rider marks arrival"))
check_target quoted t c = err (validation "Quotes are sent, not set")
check_target estimated t c = err (validation "Quotes are sent, not set")
check_target est_approved t c = err (validation "Quotes are sent, not set")
check_target final_quoted t c = err (validation "Quotes are sent, not set")
check_target unfixable t c = err (validation "Quotes are sent, not set")
check_target resolved_unfixable t c = err (validation "Quotes are sent, not set")
check_target in_shop t c =
    if not (is_shop_ticket t.ticket_type)
    then err (forbidden "Work states are shop-ticket only")
    else if (t.status =ˢ arrived
          || t.status =ˢ matched
          || t.status =ˢ quoted
          || t.status =ˢ est_approved)
        && c.is_operator
    then done
    else err (forbidden "Only the helper receives the vehicle")
check_target in_progress t c =
    if not (is_shop_ticket t.ticket_type)
    then err (forbidden "Work states are shop-ticket only")
    else if t.status =ˢ quoted
    then err (forbidden "Quote needs rider approval")
    else if t.status =ˢ final_quoted
    then err (forbidden "Quote needs rider approval")
    else if (t.status =ˢ arrived
          || t.status =ˢ matched && is_walk_in t.ticket_type && not t.quoted_amount)
        && c.is_operator
    then done
    else err (forbidden "Only the helper starts work")
check_target ready t c =
    if is_sos t.ticket_type
    then (if t.status =ˢ arrived && c.is_operator
        then done
        else err (forbidden "Only the mobile shop marks the fix complete"))
    else if is_tow t.ticket_type
    then err (forbidden "Work states are shop-ticket only")
    else if t.status =ˢ in_progress && c.is_operator
    then done
    else err (forbidden "Only the helper marks work ready")
check_target resolved t c =
    if t.status =ˢ arrived && is_tow t.ticket_type && (c.is_operator || c.is_assignee)
    then done
    else if not (is_tow t.ticket_type) && (t.status =ˢ arrived || t.status =ˢ ready) && c.is_rider
    then done
    else err (
        forbidden (
          if is_tow t.ticket_type
          then "Only the assigned tower completes the tow"
          else "Only the rider resolves a ticket"))
check_target cancelled t c =
    if c.is_rider && is_sos t.ticket_type && t.status =ˢ ready
    then err (forbidden "The mobile shop has completed the fix")
    else if c.is_rider && not (t.status =ˢ in_progress) && not (t.status =ˢ in_shop)
    then done
    else if (c.is_operator || c.is_assignee)
        && is_tow t.ticket_type
        && (t.status =ˢ matched || t.status =ˢ arrived)
    then done
    else if c.is_operator && is_sos t.ticket_type && t.status =ˢ matched
    then done
    else err (forbidden "Cannot cancel once work is underway")
check_target declined t c =
    if t.status =ˢ pending && is_walk_in t.ticket_type && c.is_operator
    then done
    else err (forbidden "Only the shop declines a walk-in")
check_target pending t c = err (validation "Invalid dispatch status")

-- `assertTransition`
unfoldable pub assert_transition : View → TicketStatus → Caller → Result (Unit {0})
unfolding check_target
assert_transition t status c =
    if c.is_admin
    then done
    else if is_terminal t.status
    then err (validation "Ticket is already closed")
    else check_target status t c
