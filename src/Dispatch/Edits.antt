-- ===== src/Dispatch/Edits.antt =====
-- Writes of the status handler that leave the payments alone, as a step relation, and what such
-- writes keep of every ticket.
use roadassistapp_be.Base.{
  ℕ, ◌≡◌, refl, ap, sym, subst, ◌∙◌, ◌≢◌, ◌⊎◌, inl, inr, some, List, arith, ◌==◌, ==_iff,
  Bool-cases,
}
use roadassistapp_be.Base.Store.{get_row, update_row, get_row-update_row, get_row-update_row_ne}
use roadassistapp_be.Status.{resolved, ready, walk_in}
use roadassistapp_be.Ticket.{Ticket}
use roadassistapp_be.Payment.{Store}
use roadassistapp_be.Payment.World.{Shop, TicketRow, row_id}
use roadassistapp_be.Refund.{RefundRequest}
use roadassistapp_be.Dispatch.{
  ShopKind, Provider, Job, DispatchWorld, find_row, on_ticket, on_job, on_provider, with_status,
  write_status,
}

-- A step of a handler that works on the ticket `id`: fields other than the status, or a linked
-- walk-in that is ready is resolved.
pub data Edit (id : ℕ) : DispatchWorld → DispatchWorld → Type 0 where
  writes_ticket :
      (f : Ticket → Ticket) (x : ℕ) (w : DispatchWorld)
      → ((t : Ticket) → (f t).id ≡ t.id)
      → ((t : Ticket) → (f t).ticket_type ≡ t.ticket_type)
      → ((t : Ticket) → (f t).status ≡ t.status)
      → Edit id w (on_ticket x f w)
  writes_job : (f : Job → Job) (x : ℕ) (w : DispatchWorld) → Edit id w (on_job x f w)
  writes_provider :
      (f : Provider → Provider) (x : ℕ) (w : DispatchWorld)
      → ((p : Provider) → (f p).kind ≡ p.kind)
      → Edit id w (on_provider x f w)
  resolves :
      (x by now : ℕ) (w : DispatchWorld) (r : TicketRow)
      → x ≢ id
      → find_row x w ≡ some r
      → r.ticket.ticket_type ≡ walk_in
      → r.ticket.status ≡ ready
      → Edit id w (write_status x resolved by now w)

pub data Edits (id : ℕ) : DispatchWorld → DispatchWorld → Type 0 where
  done : (w : DispatchWorld) → Edits id w w
  then : (a b c : DispatchWorld) → Edit id a b → Edits id b c → Edits id a c

pub one : (id : ℕ) (a b : DispatchWorld) → Edit id a b → Edits id a b
one id a b e = then a b b e (done b)

pub Edits-append : (id : ℕ) (a b c : DispatchWorld) → Edits id a b → Edits id b c → Edits id a c
Edits-append id _ _ c (done w) k = k
Edits-append id _ b c (then a x _ s rest) k = then a x c s (Edits-append id x b c rest k)

-- What is owed and paid.
abbrev pub ledger : DispatchWorld → List RefundRequest × Store
ledger w = (w.money.refunds, w.money.world.store)

Edit-ledger : (id : ℕ) (v w : DispatchWorld) → Edit id v w → ledger w ≡ ledger v
unfolding on_ticket on_job on_provider write_status
Edit-ledger id _ _ (writes_ticket f x w ki kt ks) = refl
Edit-ledger id _ _ (writes_job f x w) = refl
Edit-ledger id _ _ (writes_provider f x w kk) = refl
Edit-ledger id _ _ (resolves x by now w r ne g t s) = refl

pub Edits-ledger : (id : ℕ) (v w : DispatchWorld) → Edits id v w → ledger w ≡ ledger v
Edits-ledger id _ _ (done w) = refl
Edits-ledger id _ _ (then a b c s rest) = Edits-ledger id b c rest ∙ Edit-ledger id a b s

-- The shops' documents, and a provider's kind.
abbrev pub yard : ℕ → DispatchWorld → List Shop × ShopKind
yard x w = (w.money.world.shops, (w.providers x).kind)

kind_kept :
    (x y : ℕ) (f : Provider → Provider) (w : DispatchWorld)
    → ((p : Provider) → (f p).kind ≡ p.kind)
    → ((on_provider y f w).providers x).kind ≡ (w.providers x).kind
unfolding on_provider
kind_kept x y f w k = elim (Bool-cases (x == y)) [
  | inl e ↦ rw e (k (w.providers x))
  | inr d ↦ rw d refl
]

Edit-yard : (id x : ℕ) (v w : DispatchWorld) → Edit id v w → yard x w ≡ yard x v
unfolding on_ticket on_job write_status on_provider
Edit-yard id x _ _ (writes_ticket f y w ki kt ks) = refl
Edit-yard id x _ _ (writes_job f y w) = refl
Edit-yard id x _ _ (writes_provider f y w kk) =
    ap (λ k. (w.money.world.shops, k)) (kind_kept x y f w kk)
Edit-yard id x _ _ (resolves y by now w r ne g t s) = refl

pub Edits-yard : (id x : ℕ) (v w : DispatchWorld) → Edits id v w → yard x w ≡ yard x v
Edits-yard id x _ _ (done w) = refl
Edits-yard id x _ _ (then a b c s rest) = Edits-yard id x b c rest ∙ Edit-yard id x a b s

-- The same kind of ticket in the same status.
abbrev pub IsLike : TicketRow → TicketRow → Type 0
IsLike q r = (r.ticket.ticket_type ≡ q.ticket.ticket_type) × (r.ticket.status ≡ q.ticket.status)

-- The same, or a walk-in that was ready is resolved.
abbrev pub IsMoved : TicketRow → TicketRow → Type 0
IsMoved q r =
    (r.ticket.ticket_type ≡ q.ticket.ticket_type)
    × ((r.ticket.status ≡ q.ticket.status)
        ⊎ ((q.ticket.ticket_type ≡ walk_in)
            × ((q.ticket.status ≡ ready) × (r.ticket.status ≡ resolved))))

pub write_row :
    (x id : ℕ) (f : Ticket → Ticket) (rows : List TicketRow) (q : TicketRow)
    → ((t : Ticket) → (f t).id ≡ t.id)
    → ((t : Ticket) → (f t).ticket_type ≡ t.ticket_type)
    → ((t : Ticket) → (f t).status ≡ t.status)
    → get_row row_id id rows ≡ some q
    → (r : TicketRow) × ((get_row row_id id
            (update_row row_id x (λ r. record r { ticket = f r.ticket }) rows)
          ≡ some r)
        × IsLike q r)
write_row x id f rows q ki kt ks h = elim (Bool-cases (id == x)) [
  | inl e ↦
      let same : id ≡ x = (==_iff id x).0 e in
      let at : get_row row_id x rows ≡ some q =
        subst (λ y. get_row row_id y rows ≡ some q) same h in
      let found =
        get_row-update_row row_id x (λ r. record r { ticket = f r.ticket }) rows (λ r. ki r.ticket)
          at in
      (
        record q { ticket = f q.ticket },
        (
          subst
              (λ y.
                get_row row_id y (update_row row_id x (λ r. record r { ticket = f r.ticket }) rows)
                ≡ some (record q { ticket = f q.ticket }))
              (sym same) found,
          (kt q.ticket, ks q.ticket),
        ),
      )
  | inr d ↦ (
    q,
    (
      get_row-update_row_ne row_id x id (λ r. record r { ticket = f r.ticket }) rows
            (λ r. ki r.ticket) (λ e. cc (d, (==_iff id x).1 e))
          ∙ h,
      (refl, refl),
    ),
  )
]

-- An edit keeps the kind and the status of the handler's ticket.
Edit-IsLike :
    (id : ℕ) (v w : DispatchWorld) (q : TicketRow)
    → Edit id v w
    → find_row id v ≡ some q
    → (r : TicketRow) × ((find_row id w ≡ some r) × IsLike q r)
unfolding on_ticket on_job on_provider write_status
Edit-IsLike id _ _ q (writes_ticket f x w ki kt ks) h =
    write_row x id f w.money.world.tickets q ki kt ks h
Edit-IsLike id _ _ q (writes_job f x w) h = (q, (h, (refl, refl)))
Edit-IsLike id _ _ q (writes_provider f x w kk) h = (q, (h, (refl, refl)))
Edit-IsLike id _ _ q (resolves x by now w r ne g t s) h = (
  q,
  (
    get_row-update_row_ne row_id x id (λ r. record r { ticket = with_status resolved r.ticket })
          w.money.world.tickets (λ r. refl) (λ e. ne (sym e))
        ∙ h,
    (refl, refl),
  ),
)

pub Edits-IsLike :
    (id : ℕ) (v w : DispatchWorld) (q : TicketRow)
    → Edits id v w
    → find_row id v ≡ some q
    → (r : TicketRow) × ((find_row id w ≡ some r) × IsLike q r)
Edits-IsLike id _ _ q (done w) h = (q, (h, (refl, refl)))
Edits-IsLike id _ _ q (then a b c s rest) h =
    let (m, hm) = Edit-IsLike id a b q s h in
    let (r, hr) = Edits-IsLike id b c m rest hm.0 in (r, (hr.0, (hr.1.0 ∙ hm.1.0, hr.1.1 ∙ hm.1.1)))

Edit-IsMoved :
    (id other : ℕ) (v w : DispatchWorld) (q : TicketRow)
    → Edit id v w
    → find_row other v ≡ some q
    → (r : TicketRow) × ((find_row other w ≡ some r) × IsMoved q r)
unfolding on_ticket on_job on_provider write_status
Edit-IsMoved id other _ _ q (writes_ticket f x w ki kt ks) h =
    let (r, hr) = write_row x other f w.money.world.tickets q ki kt ks h in
    (r, (hr.0, (hr.1.0, inl hr.1.1)))
Edit-IsMoved id other _ _ q (writes_job f x w) h = (q, (h, (refl, inl refl)))
Edit-IsMoved id other _ _ q (writes_provider f x w kk) h = (q, (h, (refl, inl refl)))
Edit-IsMoved id other _ _ q (resolves x by now w r ne g t s) h = elim (Bool-cases (other == x)) [
  | inl e ↦
      let same : other ≡ x = (==_iff other x).0 e in
      let eq : some q ≡ some r = cc (h, g, same) in
      let found =
        get_row-update_row row_id x (λ y. record y { ticket = with_status resolved y.ticket })
          w.money.world.tickets (λ y. refl) g in
      let tq : q.ticket.ticket_type ≡ walk_in = cc (eq, t) in
      let sq : q.ticket.status ≡ ready = cc (eq, s) in
      let tr : r.ticket.ticket_type ≡ q.ticket.ticket_type = cc in
      (
        record r { ticket = with_status resolved r.ticket },
        (
          subst
              (λ y.
                get_row row_id y (
                  update_row row_id x (λ z. record z { ticket = with_status resolved z.ticket })
                    w.money.world.tickets)
                ≡ some (record r { ticket = with_status resolved r.ticket }))
              (sym same) found,
          (tr, inr (tq, (sq, refl))),
        ),
      )
  | inr d ↦ (
    q,
    (
      get_row-update_row_ne row_id x other
            (λ y. record y { ticket = with_status resolved y.ticket }) w.money.world.tickets
            (λ y. refl) (λ e. cc (d, (==_iff other x).1 e))
          ∙ h,
      (refl, inl refl),
    ),
  )
]

pub IsMoved-trans : (a b c : TicketRow) → IsMoved a b → IsMoved b c → IsMoved a c
IsMoved-trans a b c h k = grind arith

-- Edits move the status of another ticket from READY to RESOLVED, for a walk-in, or not at all.
pub Edits-IsMoved :
    (id other : ℕ) (v w : DispatchWorld) (q : TicketRow)
    → Edits id v w
    → find_row other v ≡ some q
    → (r : TicketRow) × ((find_row other w ≡ some r) × IsMoved q r)
Edits-IsMoved id other _ _ q (done w) h = (q, (h, (refl, inl refl)))
Edits-IsMoved id other _ _ q (then a b c s rest) h =
    let (m, hm) = Edit-IsMoved id other a b q s h in
    let (r, hr) = Edits-IsMoved id other b c m rest hm.0 in
    (r, (hr.0, IsMoved-trans q m r hm.1 hr.1))
