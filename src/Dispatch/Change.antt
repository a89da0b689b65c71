-- ===== src/Dispatch/Change.antt =====
-- That the status handler's branches are handled updates, and what they do to the payments.
use roadassistapp_be.Base.Int.{round_div}
use roadassistapp_be.Base.{
  ℕ, ◌*◌, ◌≡◌, refl, ap, ◌∙◌, inl, inr, Bool, true, false, Option, none, some, List, [], ◌∷◌, arith,
  if◌then◌else◌, Bool-cases,
}
use roadassistapp_be.Status.{TicketStatus, is_tow, pending, resolved, tow}
use roadassistapp_be.Ticket.{Ticket}
use roadassistapp_be.Transition.{Caller}
use roadassistapp_be.Payment.World.{TicketRow}
use roadassistapp_be.Refund.{RefundWorld, find_request}
use roadassistapp_be.Refund.Steps.{RefundSteps}
use roadassistapp_be.Payment.Settle.Tickets.{KeepsTickets, KeepsTickets-refl}
use roadassistapp_be.Dispatch.{
  Place, DispatchWorld, Env, find_row, on_ticket, on_job, with_status, write_status,
}
use roadassistapp_be.Dispatch.Money.{close_payments}
use roadassistapp_be.Dispatch.Money.Steps.{close_payments-RefundSteps, close_payments-KeepsTickets}
use roadassistapp_be.Dispatch.Tow.{
  cancel_quoted, actual_deadhead_m, freeze_fare, reopen_tower, unassign, requeue_fields, offer_to,
  give_back, requeue, settle_delivered,
}
use roadassistapp_be.Dispatch.Update.{
  when, is_tower_cancel, closes_payments, closed_money, reopen_assigned, follow_up, finish,
  before_status, change, UpdateInput, next_place, perform_for, perform,
}
use roadassistapp_be.Dispatch.Edits.{
  Edits, one, Edits-append, ledger, Edits-ledger, Edits-IsLike, writes_ticket, writes_job,
}
use roadassistapp_be.Dispatch.Effects.{
  when-Edits, cancel_quoted-Edits, freeze_fare-Edits, reopen_tower-Edits,
}
use roadassistapp_be.Dispatch.FollowUp.{reopen_assigned-Edits, follow_up-Edits, finish-Edits}
use roadassistapp_be.Dispatch.Handled.{Handled, writes_status_row, handled}

offer_to-Edits :
    (id : ℕ) (operators : List ℕ) (w : DispatchWorld) → Edits id w (offer_to id operators w)
offer_to-Edits id [] w = Edits.done w
offer_to-Edits id (o ∷ operators) w =
    one id _ _ (writes_job (λ j. record j { candidates = o ∷ operators }) id w)

pub give_back-Edits :
    (env : Env) (id user tower : ℕ) (place : Place) (reason : Option ℕ) (t : Ticket)
    (w : DispatchWorld)
    → Edits id w (give_back env id user tower place reason t w)
unfolding give_back
give_back-Edits env id user tower place reason t w =
    let frozen = freeze_fare env id tower t w in
    let actual = round_div (actual_deadhead_m (frozen.jobs id).tow_legs) 100 * 100 in
    let left = on_ticket id (unassign user actual) frozen in
    Edits-append id w frozen _ (freeze_fare-Edits env id tower t w) (
      Edits.then frozen left _
        (writes_ticket (unassign user actual) id frozen (λ t. refl) (λ t. refl) (λ t. refl))
        (one id left _ (writes_job (requeue_fields env user tower place reason) id left)))

-- A tower's cancellation makes the ticket wait again.
requeue-Handled :
    (env : Env) (id user tower : ℕ) (place : Place) (reason : Option ℕ) (t : Ticket)
    (w : DispatchWorld)
    → Handled id pending w (requeue env id user tower place reason t w)
unfolding requeue
requeue-Handled env id user tower place reason t w =
    let freed = give_back env id user tower place reason t w in
    let again = write_status id pending user env.now freed in
    handled w freed freed.money user env.now _ (give_back-Edits env id user tower place reason t w)
      (RefundSteps.done freed.money) (KeepsTickets-refl freed.money.world)
      (Edits-append id again _ _ (reopen_tower-Edits id tower again)
        (offer_to-Edits id (env.operators place) (reopen_tower tower again)))

closed-Handled :
    (env : Env) (id user : ℕ) (admin : Bool) (b : Bool) (s : TicketStatus) (v a w : DispatchWorld)
    → ((x : RefundWorld) → find_request (env.fresh x) x ≡ none)
    → Edits id v a
    → Edits id (write_status id s user env.now (when b (closed_money env user admin id) a)) w
    → Handled id s v w
closed-Handled env id user admin true s v a w new e f =
    handled v a (close_payments env user admin id a.money) user env.now w e
      (close_payments-RefundSteps env user admin id a.money new)
      (close_payments-KeepsTickets env user admin id a.money) f
closed-Handled env id user admin false s v a w new e f =
    handled v a a.money user env.now w e (RefundSteps.done a.money)
      (KeepsTickets-refl a.money.world) f

closed_row :
    (env : Env) (id user : ℕ) (admin : Bool) (b : Bool) (w : DispatchWorld) (q : TicketRow)
    → find_row id w ≡ some q
    → (r : TicketRow) × ((find_row id (when b (closed_money env user admin id) w) ≡ some r)
        × (r.ticket ≡ q.ticket))
unfolding KeepsTickets
closed_row env id user admin true w q h =
    close_payments-KeepsTickets env user admin id w.money id q h
closed_row env id user admin false w q h = (q, (h, refl))

pub quoted-Edits :
    (env : Env) (id : ℕ) (b : Bool) (t : Ticket) (w : DispatchWorld)
    → Edits id w (when b (cancel_quoted env id t) w)
quoted-Edits env id b t w =
    when-Edits id b (cancel_quoted env id t) w (λ _. cancel_quoted-Edits env id t w)

-- The ticket, once its status is written.
pub written_row :
    (env : Env) (id user : ℕ) (admin : Bool) (s : TicketStatus) (c : Caller) (w : DispatchWorld)
    (q : TicketRow)
    → find_row id w ≡ some q
    → (r : TicketRow) × ((find_row id
            (write_status id s user env.now (before_status env id user admin s q.ticket c w))
          ≡ some r)
        × (r.ticket.ticket_type ≡ q.ticket.ticket_type))
unfolding before_status
written_row env id user admin s c w q h =
    let t = q.ticket in
    let b = closes_payments s t c in
    let quoted = when b (cancel_quoted env id t) w in
    let (x, hx) = Edits-IsLike id w quoted q (quoted-Edits env id b t w) h in
    let (y, hy) = closed_row env id user admin b quoted x hx.0 in
    (
      record y { ticket = with_status s y.ticket },
      (
        writes_status_row id s user env.now (when b (closed_money env user admin id) quoted) y hy.0,
        ap (λ z. z.ticket_type) hy.1 ∙ hx.1.0,
      ),
    )

change-Handled :
    (env : Env) (id user : ℕ) (admin : Bool) (s : TicketStatus) (c : Caller) (w : DispatchWorld)
    (q : TicketRow)
    → ((x : RefundWorld) → find_request (env.fresh x) x ≡ none)
    → find_row id w ≡ some q
    → Handled id s w (change env id user admin s q.ticket c w)
unfolding change before_status
change-Handled env id user admin s c w q new h =
    let t = q.ticket in
    let b = closes_payments s t c in
    let (r, hr) = written_row env id user admin s c w q h in
    closed-Handled env id user admin b s w (when b (cancel_quoted env id t) w) _ new
      (quoted-Edits env id b t w)
      (finish-Edits env id user admin s t c
        (write_status id s user env.now (before_status env id user admin s t c w)) r hr.0 hr.1)

-- The payments and requests that a change leaves are those that closing the payments leaves.
pub change_ledger :
    (env : Env) (id user : ℕ) (admin : Bool) (s : TicketStatus) (c : Caller) (w : DispatchWorld)
    (q : TicketRow)
    → find_row id w ≡ some q
    → ledger (change env id user admin s q.ticket c w)
      ≡ ledger (
          when
            (closes_payments s q.ticket c)
            (closed_money env user admin id)
            (when (closes_payments s q.ticket c) (cancel_quoted env id q.ticket) w))
unfolding change before_status write_status on_job on_ticket
change_ledger env id user admin s c w q h =
    let t = q.ticket in
    let written = write_status id s user env.now (before_status env id user admin s t c w) in
    let (r, hr) = written_row env id user admin s c w q h in
    Edits-ledger id written _ (finish-Edits env id user admin s t c written r hr.0 hr.1)

-- A tow that is resolved ends with its fare settled.
pub change_settled :
    (env : Env) (id user : ℕ) (admin : Bool) (c : Caller) (w : DispatchWorld) (q : TicketRow)
    → find_row id w ≡ some q
    → q.ticket.ticket_type ≡ tow
    → (x : DispatchWorld) × ((y : TicketRow) × ((find_row id x ≡ some y)
          × (change env id user admin resolved q.ticket c w ≡ settle_delivered env id q.ticket x)))
unfolding change finish
change_settled env id user admin c w q h ty =
    let t = q.ticket in
    let written =
      write_status id resolved user env.now (before_status env id user admin resolved t c w) in
    let (r, hr) = written_row env id user admin resolved c w q h in
    let before = follow_up env id user admin resolved t c written in
    let last = reopen_assigned t before in
    let steps =
      Edits-append id written before last
        (follow_up-Edits env id user admin resolved t c written r hr.0 hr.1)
        (reopen_assigned-Edits id t before) in
    let (y, hy) = Edits-IsLike id written last r steps hr.0 in
    (last, (y, (hy.0, ap (λ z. when (is_tow z) (settle_delivered env id t) last) ty)))

pub quoted_ledger :
    (env : Env) (id : ℕ) (t : Ticket) (w : DispatchWorld)
    → ledger (cancel_quoted env id t w) ≡ ledger w
quoted_ledger env id t w = Edits-ledger id w _ (cancel_quoted-Edits env id t w)

pub perform_change :
    (env : Env) (id user : ℕ) (admin : Bool) (input : UpdateInput) (s : TicketStatus) (t : Ticket)
    (c : Caller) (o : Option ℕ) (w : DispatchWorld)
    → is_tower_cancel s t c ≡ false
    → perform_for env id user admin input s t c o w ≡ change env id user admin s t c w
unfolding perform_for
perform_change env id user admin input s t c none w calm = refl
perform_change env id user admin input s t c (some tower) w calm = rw calm refl

-- The status that an accepted update leaves.
abbrev pub landed : TicketStatus → Ticket → Caller → TicketStatus
landed s t c = if is_tower_cancel s t c then pending else s

perform_for-Handled :
    (env : Env) (id user : ℕ) (admin : Bool) (input : UpdateInput) (s : TicketStatus) (c : Caller)
    (o : Option ℕ) (w : DispatchWorld) (q : TicketRow)
    → ((x : RefundWorld) → find_request (env.fresh x) x ≡ none)
    → find_row id w ≡ some q
    → o ≡ q.ticket.assigned_shop_id
    → Handled id (landed s q.ticket c) w (perform_for env id user admin input s q.ticket c o w)
unfolding perform_for
perform_for-Handled env id user admin input s c none w q new h n =
    let no : is_tower_cancel s q.ticket c ≡ false = ground (arith, n) in
    rw no (change-Handled env id user admin s c w q new h)
perform_for-Handled env id user admin input s c (some tower) w q new h n =
    elim (Bool-cases (is_tower_cancel s q.ticket c)) [
      | inl e ↦ rw e (
          requeue-Handled env id user tower (next_place input (w.jobs id).place) input.reason
            q.ticket w)
      | inr d ↦ rw d (change-Handled env id user admin s c w q new h)
    ]

pub perform-Handled :
    (env : Env) (id user : ℕ) (admin : Bool) (input : UpdateInput) (s : TicketStatus) (c : Caller)
    (w : DispatchWorld) (q : TicketRow)
    → ((x : RefundWorld) → find_request (env.fresh x) x ≡ none)
    → find_row id w ≡ some q
    → Handled id (landed s q.ticket c) w (perform env id user admin input s q.ticket c w)
unfolding perform
perform-Handled env id user admin input s c w q new h =
    perform_for-Handled env id user admin input s c q.ticket.assigned_shop_id w q new h refl
