-- ===== src/Dispatch/FollowUp.antt =====
-- What transition.ts writes after a change of status, as edits.
use roadassistapp_be.Base.{
  ℕ, ◌≡◌, refl, ◌∙◌, inl, inr, Bool, not, ◌&&◌, ◌||◌, some, arith, Option-cases, is_some,
}
use roadassistapp_be.Status.{
  TicketStatus, ◌=ˢ◌, is_tow, arrived, resolved, cancelled, in_progress, ready, tow,
}
use roadassistapp_be.Ticket.{Ticket}
use roadassistapp_be.Transition.{Caller}
use roadassistapp_be.Payment.World.{TicketRow}
use roadassistapp_be.Dispatch.{DispatchWorld, Env, find_row, on_ticket, on_job}
use roadassistapp_be.Dispatch.Waiting.{start_waiting, stop_waiting}
use roadassistapp_be.Dispatch.Tow.{tow_fare_rates, put_settled, settle_delivered}
use roadassistapp_be.Dispatch.Update.{
  when, is_on_tow, mark_delivered, mark_ready, resolve_linked, clear_etas, reset_offers,
  keeps_canceller, put_canceller, freeze_engaged, reopen_assigned, cancel_rest, ends, follow_up,
  finish,
}
use roadassistapp_be.Dispatch.Edits.{
  Edits, one, Edits-append, Edits-IsLike, writes_ticket, writes_job, done,
}
use roadassistapp_be.Dispatch.Effects.{
  when-Edits, start_waiting-Edits, stop_waiting-Edits, freeze_fare-Edits, reopen_tower-Edits,
  resolve_linked-Edits, reset_offers-Edits,
}

freeze_engaged-Edits :
    (env : Env) (id : ℕ) (t : Ticket) (w : DispatchWorld) → Edits id w (freeze_engaged env id t w)
unfolding freeze_engaged
freeze_engaged-Edits env id t w = elim (Option-cases t.assigned_shop_id) [
  | inl n ↦ rw (n, freeze_engaged) (done w)
  | inr (tower, n) ↦ rw (n, freeze_engaged) (freeze_fare-Edits env id tower t w)
]

pub reopen_assigned-Edits :
    (id : ℕ) (t : Ticket) (w : DispatchWorld) → Edits id w (reopen_assigned t w)
unfolding reopen_assigned
reopen_assigned-Edits id t w = elim (Option-cases t.assigned_shop_id) [
  | inl n ↦ rw (n, reopen_assigned) (done w)
  | inr (shop, n) ↦ rw (n, reopen_assigned) (reopen_tower-Edits id shop w)
]

cancel_rest-Edits :
    (env : Env) (id user : ℕ) (t : Ticket) (w : DispatchWorld)
    → Edits id w (cancel_rest env id user t w)
unfolding cancel_rest
cancel_rest-Edits env id user t w =
    Edits-append id w _ _
      (when-Edits id (is_tow t.ticket_type) (freeze_engaged env id t) w
        (λ _. freeze_engaged-Edits env id t w))
      (Edits-append id _ _ _
        (when-Edits id (not (keeps_canceller user t)) (on_ticket id (put_canceller user)) _ (λ _.
          one id _ _ (writes_ticket (put_canceller user) id _ (λ t. refl) (λ t. refl) (λ t. refl))))
        (when-Edits id (is_tow t.ticket_type && (w.jobs id).is_return && not (t.status =ˢ arrived))
          (reset_offers env (w.jobs id).linked) _
          (λ _. reset_offers-Edits env id (w.jobs id).linked _)))

settle_delivered-Edits :
    (env : Env) (id : ℕ) (t : Ticket) (w : DispatchWorld) → Edits id w (settle_delivered env id t w)
unfolding settle_delivered
settle_delivered-Edits env id t w = elim (Option-cases t.tow_fare) [
  | inl n ↦ rw (n, settle_delivered) (done w)
  | inr (quote, n) ↦
      rw (n, settle_delivered)
        (when-Edits id (is_some quote.estimate)
          (on_ticket id (put_settled env id (tow_fare_rates env t w) quote)) w
          (λ _. one id _ _ (
            writes_ticket (put_settled env id (tow_fare_rates env t w) quote) id w (λ t. refl)
              (λ t. refl) (λ t. refl))))
]

-- What follows a change of status is edits, on a ticket of the kind that was read first.
pub follow_up-Edits :
    (env : Env) (id user : ℕ) (admin : Bool) (s : TicketStatus) (t : Ticket) (c : Caller)
    (w : DispatchWorld) (q : TicketRow)
    → find_row id w ≡ some q
    → q.ticket.ticket_type ≡ t.ticket_type
    → Edits id w (follow_up env id user admin s t c w)
unfolding follow_up
follow_up-Edits env id user admin s t c w q h ty =
    let j = w.jobs id in
    let first : Edits id w (
        when (s =ˢ ready) (on_job id (mark_ready env user t)) (
          when (s =ˢ resolved && is_tow t.ticket_type && is_on_tow c)
            (on_job id (mark_delivered env user)) w)) =
      Edits-append id w _ _
        (when-Edits id (s =ˢ resolved && is_tow t.ticket_type && is_on_tow c)
          (on_job id (mark_delivered env user)) w
          (λ _. one id _ _ (writes_job (mark_delivered env user) id w)))
        (when-Edits id (s =ˢ ready) (on_job id (mark_ready env user t)) _
          (λ _. one id _ _ (writes_job (mark_ready env user t) id _))) in
    let (r, hr) = Edits-IsLike id w _ q first h in
    Edits-append id w _ _ first (
      Edits-append id _ _ _
        (when-Edits id (s =ˢ resolved && is_tow t.ticket_type)
          (resolve_linked env user admin j.linked) _
          (λ e.
            let is_a_tow : t.ticket_type ≡ tow = ground (arith, e) in
            resolve_linked-Edits env id user admin j.linked _ r hr.0 (hr.1.0 ∙ ty ∙ is_a_tow)))
        (Edits-append id _ _ _
          (when-Edits id (ends s) (on_job id clear_etas) _
            (λ _. one id _ _ (writes_job clear_etas id _)))
          (Edits-append id _ _ _
            (when-Edits id (ends s || (s =ˢ in_progress || s =ˢ ready)) (stop_waiting env id) _
              (λ _. stop_waiting-Edits env id _))
            (Edits-append id _ _ _
              (when-Edits id
                (s =ˢ arrived
                  && is_tow t.ticket_type
                  && not j.is_return
                  && is_some t.assigned_shop_id)
                (start_waiting env id) _ (λ _. start_waiting-Edits env id _))
              (when-Edits id (s =ˢ cancelled) (cancel_rest env id user t) _
                (λ _. cancel_rest-Edits env id user t _))))))

pub finish-Edits :
    (env : Env) (id user : ℕ) (admin : Bool) (s : TicketStatus) (t : Ticket) (c : Caller)
    (w : DispatchWorld) (q : TicketRow)
    → find_row id w ≡ some q
    → q.ticket.ticket_type ≡ t.ticket_type
    → Edits id w (finish env id user admin s t c w)
unfolding finish
finish-Edits env id user admin s t c w q h ty =
    let before = follow_up env id user admin s t c w in
    Edits-append id w before _ (follow_up-Edits env id user admin s t c w q h ty) (
      Edits-append id before (when (ends s) (reopen_assigned t) before) _
        (when-Edits id (ends s) (reopen_assigned t) before (λ _. reopen_assigned-Edits id t before))
        (when-Edits id (s =ˢ resolved && is_tow t.ticket_type) (settle_delivered env id t) _
          (λ _. settle_delivered-Edits env id t _)))
