-- ===== src/Dispatch/Requests.antt =====
-- Requests to change the status of tickets, one after the other: a ticket that is closed stays so.
use roadassistapp_be.Dispatch.Outcome.{refused, accepted}
use roadassistapp_be.Base.{
  ℕ, ◌≡◌, refl, sym, subst, ◌∙◌, ◌≢◌, inl, inr, true, false, none, some, ◌==◌, ==_iff, Bool-cases,
}
use roadassistapp_be.Base.Result.{validation, ok, err}
use roadassistapp_be.Status.{TicketStatus, is_terminal, ready}
use roadassistapp_be.Transition.{View, Caller, assert_transition}
use roadassistapp_be.Payment.World.{TicketRow}
use roadassistapp_be.Refund.{RefundWorld, find_request}
use roadassistapp_be.Dispatch.{DispatchWorld, Env, find_row}
use roadassistapp_be.Dispatch.Guards.{caller_for, view_of}
use roadassistapp_be.Dispatch.Update.{UpdateInput, DispatchReply, update_dispatch_status}
use roadassistapp_be.Dispatch.Edits.{IsLike}
use roadassistapp_be.Dispatch.Handled.{Handled-others}
use roadassistapp_be.Dispatch.Change.{landed, perform-Handled}
use roadassistapp_be.Dispatch.Outcome.{update_outcome, check_update-accepted, Outcome}

-- Requests by users who are no admins, for any tickets, each on the state that the last one left,
-- where the database gives new refund requests ids that none has.
pub data Requests : DispatchWorld → DispatchWorld → Type 0 where
  done : (w : DispatchWorld) → Requests w w
  then :
      (env : Env) (id user : ℕ) (input : UpdateInput) (v w : DispatchWorld)
      → ((x : RefundWorld) → find_request (env.fresh x) x ≡ none)
      → Requests (update_dispatch_status env id user (some false) input v).0 w
      → Requests v w

closed_fails :
    (t : View) (s : TicketStatus) (c : Caller)
    → c.is_admin ≡ false
    → is_terminal t.status ≡ true
    → assert_transition t s c ≡ err (validation "Ticket is already closed")
unfolding assert_transition
closed_fails t s c a e = rw (a, e) refl

-- The ticket has the kind and the status that it had.
abbrev pub IsKept : ℕ → TicketRow → DispatchWorld → Type 0
IsKept x q w = (r : TicketRow) × ((find_row x w ≡ some r) × IsLike q r)

outcome_keeps_closed :
    (env : Env) (id user x : ℕ) (input : UpdateInput) (w : DispatchWorld) (reply : DispatchReply)
    (q : TicketRow)
    → ((m : RefundWorld) → find_request (env.fresh m) m ≡ none)
    → Outcome env id user (some false) input w reply
    → find_row x w ≡ some q
    → is_terminal q.ticket.status ≡ true
    → IsKept x q reply.0
unfolding caller_for
outcome_keeps_closed env id user x input w _ q new (refused e) f t = (q, (f, (refl, refl)))
outcome_keeps_closed env id user x input w _ q new (accepted s admin y k n g c) f t =
    elim (Bool-cases (x == id)) [
      | inl e ↦
          let here : x ≡ id = (==_iff x id).0 e in
          let same : some y ≡ some q = cc (g, f, here) in
          let end : is_terminal y.ticket.status ≡ true = cc (same, t) in
          let who : false ≡ admin = cc k in
          let caller = caller_for user admin y.ticket w in
          let pass = check_update-accepted env id s y.ticket caller w c in
          let fail = closed_fails (view_of y.ticket) s caller (sym who) end in
          let no_more : err (validation "Ticket is already closed") ≡ ok tt = sym fail ∙ pass in
          cc no_more
      | inr d ↦
          let other : x ≢ id = λ e. cc (d, (==_iff x id).1 e) in
          let (r, hr) =
            Handled-others id x (landed s y.ticket (caller_for user admin y.ticket w)) w _ q
              (perform-Handled env id user admin input s (caller_for user admin y.ticket w) w y new
                g)
              other f in
          elim hr.1.1 [
            | inl same ↦ (r, (hr.0, (hr.1.0, same)))
            | inr moved ↦
                let open_yet : is_terminal ready ≡ true =
                  subst (λ z. is_terminal z ≡ true) moved.1.0 t in
                cc open_yet
          ]
    ]

-- However users who are no admins ask for changes of status, of any tickets and in any order, a
-- ticket that is closed keeps its kind and its status.
pub requests_keep_closed :
    (v w : DispatchWorld) (x : ℕ) (q : TicketRow)
    → Requests v w
    → find_row x v ≡ some q
    → is_terminal q.ticket.status ≡ true
    → IsKept x q w
requests_keep_closed _ _ x q (done w) f t = (q, (f, (refl, refl)))
requests_keep_closed _ w x q (then env id user input v _ new rest) f t =
    let (y, hy) =
      outcome_keeps_closed env id user x input v _ q new
        (update_outcome env id user (some false) input v) f t in
    let end : is_terminal y.ticket.status ≡ true =
      subst (λ z. is_terminal z ≡ true) (sym hy.1.1) t in
    let (r, hr) = requests_keep_closed _ w x y rest hy.0 end in
    (r, (hr.0, (hr.1.0 ∙ hy.1.0, hr.1.1 ∙ hy.1.1)))
