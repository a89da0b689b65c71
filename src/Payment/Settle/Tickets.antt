-- ===== src/Payment/Settle/Tickets.antt =====
-- The tickets' own documents, less the payment stamped on them, when a ticket's pending payments
-- are cancelled.
use roadassistapp_be.Base.{
  ℕ, ◌≡◌, refl, sym, ap, subst, ◌∙◌, inl, inr, Option, none, some, List, [], ◌∷◌, ◌==◌, ==_iff,
  Bool-cases,
}
use roadassistapp_be.Base.Store.{get_row, update_row, get_row-update_row, get_row-update_row_ne}
use roadassistapp_be.PaymentStatus.{is_pending, cancelled}
use roadassistapp_be.Base.{arith}
use roadassistapp_be.Payment.{clear_guard, is_deposit, Payment, find_by_ticket, update_status}
use roadassistapp_be.Payment.World.{
  stamp, TicketRow, row_id, World, find_ticket, update_ticket, stamp_ticket_payment,
}
use roadassistapp_be.Payment.Settle.{
  cancel_stamped, cancel_one, cancel_each, has_pending, cancel_pending_payments,
}

-- Every ticket is still there, and only its stamp may differ.
unfoldable pub KeepsTickets : World → World → Type 0
KeepsTickets v w =
    (x : ℕ) (q : TicketRow)
    → find_ticket x v ≡ some q
    → (r : TicketRow) × ((find_ticket x w ≡ some r) × (r.ticket ≡ q.ticket))

pub KeepsTickets-refl : (w : World) → KeepsTickets w w
unfolding KeepsTickets
KeepsTickets-refl w x q h = (q, (h, refl))

KeepsTickets-trans : (a b c : World) → KeepsTickets a b → KeepsTickets b c → KeepsTickets a c
unfolding KeepsTickets
KeepsTickets-trans a b c h k x q f =
    let (m, hm) = h x q f in let (r, hr) = k x m hm.0 in (r, (hr.0, hr.1 ∙ hm.1))

-- A write of the payment's stamp keeps the tickets.
update_ticket-KeepsTickets :
    (id : ℕ) (f : TicketRow → TicketRow) (w : World)
    → ((r : TicketRow) → (f r).ticket ≡ r.ticket)
    → KeepsTickets w (update_ticket id f w)
unfolding KeepsTickets
update_ticket-KeepsTickets id f w k x q h = elim (Bool-cases (x == id)) [
  | inl e ↦
      let same : x ≡ id = (==_iff x id).0 e in
      let at : get_row row_id id w.tickets ≡ some q =
        subst (λ y. get_row row_id y w.tickets ≡ some q) same h in
      let found = get_row-update_row row_id id f w.tickets (λ r. ap (λ t. t.id) (k r)) at in
      (
        f q,
        (
          subst (λ y. get_row row_id y (update_row row_id id f w.tickets) ≡ some (f q)) (sym same)
              found,
          k q,
        ),
      )
  | inr d ↦ (
    q,
    (
      get_row-update_row_ne row_id id x f w.tickets (λ r. ap (λ t. t.id) (k r))
            (λ e. cc (d, (==_iff x id).1 e))
          ∙ h,
      refl,
    ),
  )
]

stamp_ticket_payment-KeepsTickets :
    (id : ℕ) (p : Payment) (url : Option ℕ) (w : World)
    → KeepsTickets w (stamp_ticket_payment id p url w)
unfolding stamp_ticket_payment
stamp_ticket_payment-KeepsTickets id p url w = elim (Bool-cases (is_deposit p.purpose)) [
  | inl e ↦ rw (e, stamp_ticket_payment) (KeepsTickets-refl w)
  | inr d ↦ rw (d, stamp_ticket_payment) (update_ticket-KeepsTickets id (stamp p url) w (λ r. refl))
]

cancel_stamped-KeepsTickets :
    (id : ℕ) (p : Payment) (found : Option Payment) (w : World)
    → KeepsTickets w (cancel_stamped id p found w)
unfolding KeepsTickets
cancel_stamped-KeepsTickets id p none w = KeepsTickets-refl w
cancel_stamped-KeepsTickets id p (some u) w = stamp_ticket_payment-KeepsTickets id u none w

cancel_one-KeepsTickets : (id : ℕ) (p : Payment) (w : World) → KeepsTickets w (cancel_one id p w)
unfolding cancel_one KeepsTickets
cancel_one-KeepsTickets id p w =
    let (after, found) = update_status p.id cancelled (λ q. q) w.store in
    cancel_stamped-KeepsTickets id p found (record w { store = after })

cancel_each-KeepsTickets :
    (id : ℕ) (rows : List Payment) (w : World) → KeepsTickets w (cancel_each id rows w)
unfolding cancel_each
cancel_each-KeepsTickets id [] w = KeepsTickets-refl w
cancel_each-KeepsTickets id (p ∷ rows) w = elim (Bool-cases (is_pending p.status)) [
  | inl e ↦ rw e (
      KeepsTickets-trans w (cancel_one id p w) _ (cancel_one-KeepsTickets id p w)
        (cancel_each-KeepsTickets id rows (cancel_one id p w)))
  | inr d ↦ rw d (cancel_each-KeepsTickets id rows w)
]

pub cancel_pending_payments-KeepsTickets :
    (id : ℕ) (w : World) → KeepsTickets w (cancel_pending_payments id w)
unfolding cancel_pending_payments
cancel_pending_payments-KeepsTickets id w =
    let existing = find_by_ticket id w.store.payments in
    let after = cancel_each id existing w in
    let closed = cancel_each-KeepsTickets id existing w in
    elim (Bool-cases (has_pending existing)) [
      | inl e ↦
          rw (e, cancel_pending_payments)
            (KeepsTickets-trans w after _ closed (
              update_ticket-KeepsTickets id (λ r. record r { checkout_url = none }) after
                (λ r. refl)))
      | inr d ↦ rw (d, cancel_pending_payments) closed
    ]

cancel_one_shops : (id : ℕ) (p : Payment) (w : World) → (cancel_one id p w).shops ≡ w.shops
unfolding cancel_one update_status clear_guard stamp_ticket_payment
cancel_one_shops id p w = ground arith

cancel_each_shops :
    (id : ℕ) (rows : List Payment) (w : World) → (cancel_each id rows w).shops ≡ w.shops
unfolding cancel_each
cancel_each_shops id [] w = refl
cancel_each_shops id (p ∷ rows) w = elim (Bool-cases (is_pending p.status)) [
  | inl e ↦ rw e (cancel_each_shops id rows (cancel_one id p w) ∙ cancel_one_shops id p w)
  | inr d ↦ rw d (cancel_each_shops id rows w)
]

pub cancel_pending_payments_shops :
    (id : ℕ) (w : World) → (cancel_pending_payments id w).shops ≡ w.shops
unfolding cancel_pending_payments
cancel_pending_payments_shops id w =
    let existing = find_by_ticket id w.store.payments in
    let same = cancel_each_shops id existing w in
    elim (Bool-cases (has_pending existing)) [
      | inl e ↦ rw (e, cancel_pending_payments) same
      | inr d ↦ rw (d, cancel_pending_payments) same
    ]
