-- ===== src/Dispatch/Handled.antt =====
-- A status update as a whole: edits, steps of the payment and refund handlers, one change of the
-- ticket's status, and edits.
use roadassistapp_be.Base.{ℕ, ◌≡◌, refl, sym, ap, subst, ◌∙◌, ◌≢◌, inl, some}
use roadassistapp_be.Base.Store.{get_row-update_row, get_row-update_row_ne}
use roadassistapp_be.Status.{TicketStatus}
use roadassistapp_be.Payment.World.{TicketRow, row_id}
use roadassistapp_be.Refund.{RefundWorld}
use roadassistapp_be.Refund.Laws.{IsSingle}
use roadassistapp_be.Payment.Guarded.{IsSound}
use roadassistapp_be.Refund.Steps.{RefundSteps, IsFair, steps-IsFair}
use roadassistapp_be.Payment.Settle.Tickets.{KeepsTickets}
use roadassistapp_be.Dispatch.{
  DispatchWorld, find_row, on_ticket, on_job, with_status, write_status,
}
use roadassistapp_be.Dispatch.Edits.{
  Edits, ledger, Edits-ledger, IsMoved, Edits-IsLike, IsMoved-trans, Edits-IsMoved,
}

-- The ticket `id` gets the status `s`.
pub data Handled (id : ℕ) (s : TicketStatus) : DispatchWorld → DispatchWorld → Type 0 where
  handled :
      (v a : DispatchWorld) (m : RefundWorld) (by now : ℕ) (w : DispatchWorld)
      → Edits id v a
      → RefundSteps a.money m
      → KeepsTickets a.money.world m.world
      → Edits id (write_status id s by now (record a { money = m })) w
      → Handled id s v w

pub writes_status_row :
    (id : ℕ) (s : TicketStatus) (by now : ℕ) (w : DispatchWorld) (q : TicketRow)
    → find_row id w ≡ some q
    → find_row id (write_status id s by now w) ≡ some (record q { ticket = with_status s q.ticket })
unfolding write_status on_job on_ticket
writes_status_row id s by now w q h =
    get_row-update_row row_id id (λ r. record r { ticket = with_status s r.ticket })
      w.money.world.tickets (λ r. refl) h

writes_status_other :
    (id other : ℕ) (s : TicketStatus) (by now : ℕ) (w : DispatchWorld)
    → other ≢ id
    → find_row other (write_status id s by now w) ≡ find_row other w
unfolding write_status on_job on_ticket
writes_status_other id other s by now w ne =
    get_row-update_row_ne row_id id other (λ r. record r { ticket = with_status s r.ticket })
      w.money.world.tickets (λ r. refl) ne

pub Handled-status :
    (id : ℕ) (s : TicketStatus) (v w : DispatchWorld) (q : TicketRow)
    → Handled id s v w
    → find_row id v ≡ some q
    → (r : TicketRow) × ((find_row id w ≡ some r)
        × ((r.ticket.ticket_type ≡ q.ticket.ticket_type) × (r.ticket.status ≡ s)))
unfolding KeepsTickets
Handled-status id s _ _ q (handled v a m by now w e k t f) h =
    let (x, hx) = Edits-IsLike id v a q e h in
    let (y, hy) = t id x hx.0 in
    let (r, hr) =
      Edits-IsLike id _ w _ f (writes_status_row id s by now (record a { money = m }) y hy.0) in
    (r, (hr.0, (hr.1.0 ∙ (ap (λ z. z.ticket_type) hy.1 ∙ hx.1.0), hr.1.1)))

pub Handled-others :
    (id other : ℕ) (s : TicketStatus) (v w : DispatchWorld) (q : TicketRow)
    → Handled id s v w
    → other ≢ id
    → find_row other v ≡ some q
    → (r : TicketRow) × ((find_row other w ≡ some r) × IsMoved q r)
unfolding KeepsTickets
Handled-others id other s _ _ q (handled v a m by now w e k t f) ne h =
    let (x, hx) = Edits-IsMoved id other v a q e h in
    let (y, hy) = t other x hx.0 in
    let (r, hr) =
      Edits-IsMoved id other _ w y f
        (writes_status_other id other s by now (record a { money = m }) ne ∙ hy.0) in
    let like : IsMoved x y = (ap (λ z. z.ticket_type) hy.1, inl (ap (λ z. z.status) hy.1)) in
    (r, (hr.0, IsMoved-trans q x r hx.1 (IsMoved-trans x y r like hr.1)))

pub IsFair-ledger : (v w : DispatchWorld) → ledger w ≡ ledger v → IsFair v.money → IsFair w.money
unfolding IsFair
IsFair-ledger v w e h = subst (λ l. IsSingle l.0 × IsSound l.1) (sym e) h

pub Handled-IsFair :
    (id : ℕ) (s : TicketStatus) (v w : DispatchWorld)
    → Handled id s v w
    → IsFair v.money
    → IsFair w.money
unfolding write_status on_job on_ticket
Handled-IsFair id s _ _ (handled v a m by now w e k t f) h =
    IsFair-ledger (record a { money = m }) w (Edits-ledger id _ w f)
      (steps-IsFair a.money m k (IsFair-ledger v a (Edits-ledger id v a e) h))
