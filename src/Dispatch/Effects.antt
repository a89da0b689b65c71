-- ===== src/Dispatch/Effects.antt =====
-- The writes of transition.ts, waiting.ts and the tow fares as edits.
use roadassistapp_be.Base.{
  ℕ, ◌+◌, min, ◌≡◌, refl, ◌∙◌, inl, inr, Bool, true, false, not, ◌&&◌, ◌||◌, Option, none, some,
  List, [], ◌∷◌, arith, Bool-cases, Option-cases, is_some,
}
use roadassistapp_be.Status.{◌=ˢ◌, is_tow, is_walk_in, ready, unfixable, tow, walk_in}
use roadassistapp_be.Ticket.{TowFare, Ticket}
use roadassistapp_be.Payment.World.{TicketRow}
use roadassistapp_be.Dispatch.{
  DispatchWorld, Env, find_row, shop_at, on_ticket, on_job, on_provider,
}
use roadassistapp_be.Dispatch.Waiting.{
  put_waiting, mark_waiting, put_waiting_fee, start_waiting, waiting_fee_for, end_waiting,
  stop_open, stop_waiting,
}
use roadassistapp_be.Dispatch.Tow.{
  is_tow_provider, put_fare, quoted_way, cancel_quoted, add_leg, last_leg, freeze_tow_leg,
  actual_deadhead_m, made_way, freeze_fare, reopen_tower,
}
use roadassistapp_be.Dispatch.Update.{
  when, is_resolvable, resolve_one, resolve_linked, was_accepted, offer_again, reset_offer,
  reset_offers,
}
use roadassistapp_be.Dispatch.Edits.{
  Edit, Edits, one, Edits-append, Edits-IsLike, writes_ticket, writes_job, writes_provider,
  resolves, done, then,
}

pub when-Edits :
    (id : ℕ) (b : Bool) (f : DispatchWorld → DispatchWorld) (w : DispatchWorld)
    → (b ≡ true → Edits id w (f w))
    → Edits id w (when b f w)
when-Edits id true f w h = h refl
when-Edits id false f w h = done w

writes_waiting :
    (id x : ℕ) (a b : Option ℕ) (w : DispatchWorld) → Edit id w (on_ticket x (put_waiting a b) w)
writes_waiting id x a b w = writes_ticket (put_waiting a b) x w (λ t. refl) (λ t. refl) (λ t. refl)

pub start_waiting-Edits :
    (env : Env) (id : ℕ) (w : DispatchWorld) → Edits id w (start_waiting env id w)
unfolding start_waiting
start_waiting-Edits env id w = elim (Option-cases (find_row id w)) [
  | inl n ↦ rw (n, start_waiting) (done w)
  | inr (r, n) ↦ elim (Bool-cases (is_some r.ticket.waiting && (w.jobs id).waiting_active)) [
    | inl e ↦ rw (n, e, start_waiting) (done w)
    | inr d ↦
        rw (n, d, start_waiting)
          (then w (on_ticket id (put_waiting (some env.now) none) w) _
            (writes_waiting id id (some env.now) none w)
            (one id _ _ (writes_job (mark_waiting true none) id _)))
  ]
]

put_waiting_fee_status : (fee : ℕ) (t : Ticket) → (put_waiting_fee fee t).status ≡ t.status
put_waiting_fee_status fee t = ground arith

put_waiting_fee_type : (fee : ℕ) (t : Ticket) → (put_waiting_fee fee t).ticket_type ≡ t.ticket_type
put_waiting_fee_type fee t = ground arith

put_waiting_fee_id : (fee : ℕ) (t : Ticket) → (put_waiting_fee fee t).id ≡ t.id
put_waiting_fee_id fee t = ground arith

end_waiting-Edits :
    (env : Env) (id : ℕ) (t : Ticket) (started : Option ℕ) (w : DispatchWorld)
    → Edits id w (end_waiting env id t started w)
unfolding end_waiting
end_waiting-Edits env id t none w =
    then w _ _ (writes_waiting id id none (some env.now) w)
      (one id _ _ (writes_job (mark_waiting false (some 0)) id _))
end_waiting-Edits env id t (some started) w =
    let fee = waiting_fee_for env started t.assigned_shop_id (w.jobs id).place w in
    then w _ _ (writes_waiting id id (some started) (some (min env.now (started + env.cap_ms))) w) (
      then _ _ _ (writes_job (mark_waiting false (some fee)) id _) (
        one id _ _ (
          writes_ticket (put_waiting_fee fee) id _ (put_waiting_fee_id fee)
            (put_waiting_fee_type fee) (put_waiting_fee_status fee))))

stop_open-Edits :
    (env : Env) (id : ℕ) (t : Ticket) (o : Option (Option ℕ × Option ℕ)) (w : DispatchWorld)
    → Edits id w (stop_open env id t o w)
stop_open-Edits env id t none w = done w
stop_open-Edits env id t (some (started, ended)) w = elim (Bool-cases (w.jobs id).waiting_active) [
  | inl e ↦ rw e (end_waiting-Edits env id t started w)
  | inr d ↦ rw d (done w)
]

pub stop_waiting-Edits :
    (env : Env) (id : ℕ) (w : DispatchWorld) → Edits id w (stop_waiting env id w)
unfolding stop_waiting
stop_waiting-Edits env id w = elim (Option-cases (find_row id w)) [
  | inl n ↦ rw (n, stop_waiting) (done w)
  | inr (r, n) ↦ rw (n, stop_waiting) (stop_open-Edits env id r.ticket r.ticket.waiting w)
]

writes_fare :
    (id x : ℕ) (f : Option TowFare → TowFare) (w : DispatchWorld)
    → Edits id w (on_ticket x (put_fare f) w)
writes_fare id x f w =
    one id _ _ (writes_ticket (put_fare f) x w (λ t. refl) (λ t. refl) (λ t. refl))

pub cancel_quoted-Edits :
    (env : Env) (id : ℕ) (t : Ticket) (w : DispatchWorld) → Edits id w (cancel_quoted env id t w)
unfolding cancel_quoted
cancel_quoted-Edits env id t w =
    when-Edits id (is_tow t.ticket_type && is_some t.assigned_shop_id)
      (on_ticket id (put_fare (quoted_way env t w))) w
      (λ _. writes_fare id id (quoted_way env t w) w)

pub freeze_fare-Edits :
    (env : Env) (id tower : ℕ) (t : Ticket) (w : DispatchWorld)
    → Edits id w (freeze_fare env id tower t w)
unfolding freeze_fare freeze_tow_leg
freeze_fare-Edits env id tower t w =
    let frozen = freeze_tow_leg env id tower t w in
    then w frozen _ (writes_job (add_leg (last_leg env id tower t w)) id w)
      (writes_fare id id (made_way env t (actual_deadhead_m (frozen.jobs id).tow_legs) w) frozen)

pub reopen_tower-Edits : (id shop : ℕ) (w : DispatchWorld) → Edits id w (reopen_tower shop w)
unfolding reopen_tower
reopen_tower-Edits id shop w =
    when-Edits id
      (is_some (shop_at shop w)
        && is_tow_provider (w.providers shop).kind
        && not (w.providers shop).accepting)
      (on_provider shop (λ p. record p { accepting = true })) w
      (λ _. one id _ _ (writes_provider (λ p. record p { accepting = true }) shop w (λ p. refl)))

resolve_one-Edits :
    (env : Env) (id user x : ℕ) (admin : Bool) (w : DispatchWorld) (q : TicketRow)
    → find_row id w ≡ some q
    → q.ticket.ticket_type ≡ tow
    → Edits id w (resolve_one env user admin x w)
unfolding resolve_one is_resolvable
resolve_one-Edits env id user x admin w q h ty = elim (Option-cases (find_row x w)) [
  | inl n ↦ rw (n, resolve_one) (done w)
  | inr (r, n) ↦ elim (Bool-cases (is_resolvable x admin r.ticket w)) [
    | inr d ↦ rw (n, d, resolve_one) (done w)
    | inl e ↦
        let w_type : r.ticket.ticket_type ≡ walk_in = ground (arith, e) in
        let w_status : r.ticket.status ≡ ready = ground (arith, e) in
        rw (n, e, resolve_one)
          (one id _ _ (
            resolves x user env.now w r
              (λ s.
                let eq : some r ≡ some q = cc (n, h, s) in
                let no : walk_in ≡ tow = cc (eq, w_type, ty) in ground (arith, no))
              n w_type w_status))
  ]
]

pub resolve_linked-Edits :
    (env : Env) (id user : ℕ) (admin : Bool) (ids : List ℕ) (w : DispatchWorld) (q : TicketRow)
    → find_row id w ≡ some q
    → q.ticket.ticket_type ≡ tow
    → Edits id w (resolve_linked env user admin ids w)
unfolding resolve_linked
resolve_linked-Edits env id user admin [] w q h ty = done w
resolve_linked-Edits env id user admin (x ∷ ids) w q h ty =
    let first = resolve_one-Edits env id user x admin w q h ty in
    let (r, hr) = Edits-IsLike id w _ q first h in
    Edits-append id w _ _ first (resolve_linked-Edits env id user admin ids _ r hr.0 (hr.1.0 ∙ ty))

reset_offer-Edits : (env : Env) (id x : ℕ) (w : DispatchWorld) → Edits id w (reset_offer env x w)
unfolding reset_offer
reset_offer-Edits env id x w = elim (Option-cases (find_row x w)) [
  | inl n ↦ rw (n, reset_offer) (done w)
  | inr (r, n) ↦
      rw (n, reset_offer)
        (when-Edits id
          (is_walk_in r.ticket.ticket_type
            && (r.ticket.status =ˢ ready || r.ticket.status =ˢ unfixable)
            && was_accepted (w.jobs x).return_offer)
          (on_job x (offer_again env.now)) w
          (λ _. one id _ _ (writes_job (offer_again env.now) x w)))
]

pub reset_offers-Edits :
    (env : Env) (id : ℕ) (ids : List ℕ) (w : DispatchWorld) → Edits id w (reset_offers env ids w)
unfolding reset_offers
reset_offers-Edits env id [] w = done w
reset_offers-Edits env id (x ∷ ids) w =
    Edits-append id w _ _ (reset_offer-Edits env id x w) (reset_offers-Edits env id ids _)
