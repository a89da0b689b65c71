-- ===== src/Dispatch/Update.antt =====
-- service/dispatch/tickets/transition.ts: `updateDispatchStatus`, what it writes once its checks
-- have passed, in its order.
use roadassistapp_be.Base.{
  ℕ, Bool, true, false, not, ◌&&◌, ◌||◌, Option, none, some, List, [], ◌∷◌, if◌then◌else◌, or_else,
  is_some, is_id,
}
use roadassistapp_be.Base.Int.{ℤ}
use roadassistapp_be.Base.Result.{Result, validation, not_found, ok, err}
use roadassistapp_be.Status.{
  TicketStatus, ◌=ˢ◌, is_tow, is_sos, is_walk_in, matched, arrived, resolved, cancelled,
  in_progress, ready, unfixable,
}
use roadassistapp_be.Ticket.{Ticket}
use roadassistapp_be.Transition.{Caller}
use roadassistapp_be.Dispatch.{
  Place, ReturnOffer, Job, DispatchWorld, Env, find_row, on_ticket, on_job, write_status,
  offer_pending, offer_accepted,
}
use roadassistapp_be.Dispatch.Waiting.{start_waiting, stop_waiting}
use roadassistapp_be.Dispatch.Guards.{
  awaits_approval, caller_for, assert_cash_confirmed, check_update,
}
use roadassistapp_be.Dispatch.Money.{close_payments}
use roadassistapp_be.Dispatch.Tow.{
  cancel_quoted, freeze_fare, reopen_tower, requeue, settle_delivered,
}

abbrev pub when : Bool → (DispatchWorld → DispatchWorld) → DispatchWorld → DispatchWorld
when b f w = if b then f w else w

abbrev pub is_on_tow : Caller → Bool
is_on_tow c = c.is_operator || c.is_assignee

-- `towerCancel`
abbrev pub is_tower_cancel : TicketStatus → Ticket → Caller → Bool
is_tower_cancel s t c =
    is_on_tow c
    && not c.is_rider
    && is_tow t.ticket_type
    && is_some t.assigned_shop_id
    && (t.status =ˢ matched || t.status =ˢ arrived)
    && s =ˢ cancelled

-- The rider, or the mobile shop on its way, cancels.
abbrev pub closes_payments : TicketStatus → Ticket → Caller → Bool
closes_payments s t c =
    (c.is_rider || c.is_operator && is_sos t.ticket_type && t.status =ˢ matched) && s =ˢ cancelled

abbrev pub closed_money : Env → ℕ → Bool → ℕ → DispatchWorld → DispatchWorld
closed_money env user admin id w = record w { money = close_payments env user admin id w.money }

abbrev pub mark_delivered : Env → ℕ → Job → Job
mark_delivered env user j = record j { delivered = some (env.now, user); received_at = none }

abbrev offer_return : Env → ℕ → Ticket → Option ReturnOffer
offer_return env user t =
    some (record { status = offer_pending; shop = t.assigned_shop_id; by = user; at = env.now })

abbrev pub mark_ready : Env → ℕ → Ticket → Job → Job
mark_ready env user t j = record j {
  fulfilled_by = t.assigned_shop_id;
  return_offer = if is_walk_in t.ticket_type then offer_return env user t else j.return_offer;
}

abbrev pub passes : Result (Unit {0}) → Bool
passes (ok u) = true
passes (err e) = false

-- A walk-in that is ready, has its invoice settled, and its cash confirmed.
unfoldable pub is_resolvable : ℕ → Bool → Ticket → DispatchWorld → Bool
unfolding assert_cash_confirmed
is_resolvable id admin t w =
    is_walk_in t.ticket_type
    && t.status =ˢ ready
    && not (awaits_approval t.invoice_approval)
    && passes (assert_cash_confirmed id t.ticket_type admin w.money.world.store.payments)

unfoldable pub resolve_one : Env → ℕ → Bool → ℕ → DispatchWorld → DispatchWorld
unfolding is_resolvable write_status
resolve_one env user admin id w = elim (find_row id w) [
  | none ↦ w
  | some r ↦
      if is_resolvable id admin r.ticket w then write_status id resolved user env.now w else w
]

-- The walk-ins linked to a tow are resolved with it.
unfoldable pub resolve_linked : Env → ℕ → Bool → List ℕ → DispatchWorld → DispatchWorld
unfolding resolve_one
resolve_linked env user admin [] w = w
resolve_linked env user admin (id ∷ ids) w =
    resolve_linked env user admin ids (resolve_one env user admin id w)

abbrev pub clear_etas : Job → Job
clear_etas j = record j { eta_pickup = none; eta_dropoff = none; eta_notified = none }

abbrev pub was_accepted : Option ReturnOffer → Bool
was_accepted none = false
was_accepted (some offer) = elim offer.status [ offer_accepted ↦ true | _ ↦ false ]

abbrev pub offer_again : ℕ → Job → Job
offer_again now j = elim j.return_offer [
  | none ↦ j
  | some offer ↦ record j {
    return_offer = some (record offer { status = offer_pending; at = now });
  }
]

unfoldable pub reset_offer : Env → ℕ → DispatchWorld → DispatchWorld
unfolding on_job
reset_offer env id w = elim (find_row id w) [
  | none ↦ w
  | some r ↦
      if is_walk_in r.ticket.ticket_type
        && (r.ticket.status =ˢ ready || r.ticket.status =ˢ unfixable)
        && was_accepted (w.jobs id).return_offer
      then on_job id (offer_again env.now) w
      else w
]

-- The return tows that the linked walk-ins had accepted are offered again.
unfoldable pub reset_offers : Env → List ℕ → DispatchWorld → DispatchWorld
unfolding reset_offer
reset_offers env [] w = w
reset_offers env (id ∷ ids) w = reset_offers env ids (reset_offer env id w)

-- `preserveTowerCancel`
abbrev pub keeps_canceller : ℕ → Ticket → Bool
keeps_canceller user t =
    is_tow t.ticket_type
    && not (is_some t.assigned_shop_id)
    && is_some t.cancelled_by
    && not (is_id t.cancelled_by user)

abbrev pub put_canceller : ℕ → Ticket → Ticket
put_canceller user t = record t { cancelled_by = some user }

unfoldable pub freeze_engaged : Env → ℕ → Ticket → DispatchWorld → DispatchWorld
unfolding freeze_fare
freeze_engaged env id t w = elim t.assigned_shop_id [
  | none ↦ w
  | some tower ↦ freeze_fare env id tower t w
]

unfoldable pub reopen_assigned : Ticket → DispatchWorld → DispatchWorld
unfolding reopen_tower
reopen_assigned t w = elim t.assigned_shop_id [ none ↦ w | some shop ↦ reopen_tower shop w ]

-- What else CANCELLED writes.
unfoldable pub cancel_rest : Env → ℕ → ℕ → Ticket → DispatchWorld → DispatchWorld
unfolding on_ticket freeze_engaged reset_offers
cancel_rest env id user t w =
    let fared = when (is_tow t.ticket_type) (freeze_engaged env id t) w in
    let named = when (not (keeps_canceller user t)) (on_ticket id (put_canceller user)) fared in
    when (is_tow t.ticket_type && (w.jobs id).is_return && not (t.status =ˢ arrived))
      (reset_offers env (w.jobs id).linked) named

abbrev pub ends : TicketStatus → Bool
ends s = s =ˢ resolved || s =ˢ cancelled

-- What follows once the status is written, up to the tower and the fare; `t` is the ticket as it was read first.
unfoldable pub follow_up :
    Env → ℕ → ℕ → Bool → TicketStatus → Ticket → Caller → DispatchWorld → DispatchWorld
unfolding on_job resolve_linked stop_waiting start_waiting cancel_rest
follow_up env id user admin s t c w =
    let j = w.jobs id in
    let delivered =
      when (s =ˢ resolved && is_tow t.ticket_type && is_on_tow c)
        (on_job id (mark_delivered env user)) w in
    let readied = when (s =ˢ ready) (on_job id (mark_ready env user t)) delivered in
    let linked =
      when (s =ˢ resolved && is_tow t.ticket_type) (resolve_linked env user admin j.linked)
        readied in
    let cleared = when (ends s) (on_job id clear_etas) linked in
    let stopped = when (ends s || (s =ˢ in_progress || s =ˢ ready)) (stop_waiting env id) cleared in
    let started =
      when (s =ˢ arrived && is_tow t.ticket_type && not j.is_return && is_some t.assigned_shop_id)
        (start_waiting env id) stopped in
    when (s =ˢ cancelled) (cancel_rest env id user t) started

-- What follows once the status is written.
unfoldable pub finish :
    Env → ℕ → ℕ → Bool → TicketStatus → Ticket → Caller → DispatchWorld → DispatchWorld
unfolding follow_up settle_delivered reopen_assigned
finish env id user admin s t c w =
    let before = follow_up env id user admin s t c w in
    let reopened = when (ends s) (reopen_assigned t) before in
    when (s =ˢ resolved && is_tow t.ticket_type) (settle_delivered env id t) reopened

-- The ticket's payments, before its status is written.
unfoldable pub before_status :
    Env → ℕ → ℕ → Bool → TicketStatus → Ticket → Caller → DispatchWorld → DispatchWorld
unfolding cancel_quoted close_payments
before_status env id user admin s t c w =
    let b = closes_payments s t c in
    when b (closed_money env user admin id) (when b (cancel_quoted env id t) w)

-- A change of status that is no tower's cancellation.
unfoldable pub change :
    Env → ℕ → ℕ → Bool → TicketStatus → Ticket → Caller → DispatchWorld → DispatchWorld
unfolding before_status write_status finish
change env id user admin s t c w =
    finish env id user admin s t c
      (write_status id s user env.now (before_status env id user admin s t c w))

-- The body of a request.
pub record UpdateInput : Type 0 where
  -- A status that is not one of `VALID_STATUSES` is none.
  pub status : Option TicketStatus
  pub lat : Option ℤ
  pub lng : Option ℤ
  pub reason : Option ℕ

abbrev pub next_place : UpdateInput → Place → Place
next_place input place = record {
  lat = or_else input.lat place.lat;
  lng = or_else input.lng place.lng;
}

-- `o` is the tower of the ticket.
unfoldable pub perform_for :
    Env
    → ℕ
    → ℕ
    → Bool
    → UpdateInput
    → TicketStatus
    → Ticket
    → Caller
    → Option ℕ
    → DispatchWorld
    → DispatchWorld
unfolding requeue change
perform_for env id user admin input s t c none w = change env id user admin s t c w
perform_for env id user admin input s t c (some tower) w =
    if is_tower_cancel s t c
    then requeue env id user tower (next_place input (w.jobs id).place) input.reason t w
    else change env id user admin s t c w

unfoldable pub perform :
    Env
    → ℕ
    → ℕ
    → Bool
    → UpdateInput
    → TicketStatus
    → Ticket
    → Caller
    → DispatchWorld
    → DispatchWorld
unfolding perform_for
perform env id user admin input s t c w =
    perform_for env id user admin input s t c t.assigned_shop_id w

-- The reply says whether the ticket is searching again.
abbrev pub DispatchReply : Type 0
DispatchReply = DispatchWorld × Result Bool

unfoldable pub update_found :
    Env → ℕ → ℕ → Bool → UpdateInput → TicketStatus → Ticket → DispatchWorld → DispatchReply
unfolding caller_for check_update perform
update_found env id user admin input s t w =
    let c = caller_for user admin t w in
    elim (check_update env id s t c w) [
      | err e ↦ (w, err e)
      | ok u ↦ (perform env id user admin input s t c w, ok (is_tower_cancel s t c))
    ]

-- `updateDispatchStatus`; `caller` is whether the user is an admin, for a user that exists.
unfoldable pub update_dispatch_status :
    Env → ℕ → ℕ → Option Bool → UpdateInput → DispatchWorld → DispatchReply
unfolding update_found
update_dispatch_status env id user caller input w = elim input.status [
  | none ↦ (w, err (validation "Invalid dispatch status"))
  | some s ↦ elim (find_row id w) [
    | none ↦ (w, err (not_found "Dispatch ticket not found"))
    | some r ↦ elim caller [
      | none ↦ (w, err (not_found "User not found"))
      | some admin ↦ update_found env id user admin input s r.ticket w
    ]
  ]
]
