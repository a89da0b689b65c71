-- ===== src/Dispatch/Outcome.antt =====
-- What a request to change a ticket's status leaves, refused or accepted.
use roadassistapp_be.Refund.Steps.{IsFair}
use roadassistapp_be.Base.{
  ℕ, ◌≡◌, refl, sym, subst, ◌≢◌, ◌⊎◌, inl, inr, Bool, true, Option, none, some, if◌then◌else◌,
  Option-cases,
}
use roadassistapp_be.Base.Result.{
  AppError, ◌>>◌, Result-cases, both_ok, validation, not_found, ok, err,
}
use roadassistapp_be.Status.{TicketStatus, pending}
use roadassistapp_be.Ticket.{Ticket}
use roadassistapp_be.Transition.{Caller, assert_transition}
use roadassistapp_be.Transition.Edges.{Allowed, assert_transition_iff}
use roadassistapp_be.Payment.World.{TicketRow}
use roadassistapp_be.Refund.{RefundWorld, find_request}
use roadassistapp_be.Dispatch.{DispatchWorld, Env, find_row}
use roadassistapp_be.Dispatch.Guards.{caller_for, view_of, check_before, check_after, check_update}
use roadassistapp_be.Dispatch.Update.{
  is_tower_cancel, UpdateInput, perform, DispatchReply, update_found, update_dispatch_status,
}
use roadassistapp_be.Dispatch.Edits.{IsMoved}
use roadassistapp_be.Dispatch.Handled.{Handled-status, Handled-others, Handled-IsFair}
use roadassistapp_be.Dispatch.Change.{landed, perform-Handled}

-- A request is refused, with nothing written, or its checks passed and it is carried out.
pub data Outcome (env : Env) (id user : ℕ) (caller : Option Bool) (input : UpdateInput)
    (w : DispatchWorld) : DispatchReply → Type 0 where
  refused : (e : AppError) → Outcome env id user caller input w (w, err e)
  accepted :
      (s : TicketStatus) (admin : Bool) (q : TicketRow)
      → caller ≡ some admin
      → input.status ≡ some s
      → find_row id w ≡ some q
      → check_update env id s q.ticket (caller_for user admin q.ticket w) w ≡ ok tt
      → Outcome env id user caller input w (
        perform env id user admin input s q.ticket (caller_for user admin q.ticket w) w,
        ok (is_tower_cancel s q.ticket (caller_for user admin q.ticket w)),
      )

pub update_outcome :
    (env : Env) (id user : ℕ) (caller : Option Bool) (input : UpdateInput) (w : DispatchWorld)
    → Outcome env id user caller input w (update_dispatch_status env id user caller input w)
unfolding update_dispatch_status update_found
update_outcome env id user caller input w = elim (Option-cases input.status) [
  | inl n ↦ rw (n, update_dispatch_status) (refused (validation "Invalid dispatch status"))
  | inr (s, n) ↦ elim (Option-cases (find_row id w)) [
    | inl f ↦ rw (n, f, update_dispatch_status) (refused (not_found "Dispatch ticket not found"))
    | inr (q, f) ↦ elim (Option-cases caller) [
      | inl k ↦ rw (n, f, k, update_dispatch_status) (refused (not_found "User not found"))
      | inr (admin, k) ↦
          elim (Result-cases
            (check_update env id s q.ticket (caller_for user admin q.ticket w) w)) [
              | inr (e, r) ↦ rw (n, f, k, r, update_dispatch_status, update_found) (refused e)
              | inl (u, r) ↦
                  let e : update_dispatch_status env id user caller input w ≡ (
                    perform env id user admin input s q.ticket (caller_for user admin q.ticket w) w,
                    ok (is_tower_cancel s q.ticket (caller_for user admin q.ticket w)),
                  ) =
                    rw (n, f, k, r, update_dispatch_status, update_found) refl in
                  subst (Outcome env id user caller input w) (sym e) (accepted s admin q k n f r)
            ]
    ]
  ]
]

outcome-IsFair :
    (env : Env) (id user : ℕ) (caller : Option Bool) (input : UpdateInput) (w : DispatchWorld)
    (reply : DispatchReply)
    → ((x : RefundWorld) → find_request (env.fresh x) x ≡ none)
    → Outcome env id user caller input w reply
    → IsFair w.money
    → IsFair reply.0.money
outcome-IsFair env id user caller input w _ new (refused e) h = h
outcome-IsFair env id user caller input w _ new (accepted s admin q k n f r) h =
    let c = caller_for user admin q.ticket w in
    Handled-IsFair id (landed s q.ticket c) w _
      (perform-Handled env id user admin input s c w q new f) h

-- A request to change a ticket's status, refused or accepted, keeps the payments sound and the
-- refund requests single, if the database gives new refund requests ids that none has.
pub update_status-IsFair :
    (env : Env) (id user : ℕ) (caller : Option Bool) (input : UpdateInput) (w : DispatchWorld)
    → ((x : RefundWorld) → find_request (env.fresh x) x ≡ none)
    → IsFair w.money
    → IsFair (update_dispatch_status env id user caller input w).0.money
update_status-IsFair env id user caller input w new h =
    outcome-IsFair env id user caller input w _ new (update_outcome env id user caller input w) h

outcome_others :
    (env : Env) (id user other : ℕ) (caller : Option Bool) (input : UpdateInput) (w : DispatchWorld)
    (reply : DispatchReply) (q : TicketRow)
    → ((x : RefundWorld) → find_request (env.fresh x) x ≡ none)
    → Outcome env id user caller input w reply
    → other ≢ id
    → find_row other w ≡ some q
    → (r : TicketRow) × ((find_row other reply.0 ≡ some r) × IsMoved q r)
outcome_others env id user other caller input w _ q new (refused e) ne h =
    (q, (h, (refl, inl refl)))
outcome_others env id user other caller input w _ q new (accepted s admin y k n f r) ne h =
    let c = caller_for user admin y.ticket w in
    Handled-others id other (landed s y.ticket c) w _ q
      (perform-Handled env id user admin input s c w y new f) ne h

-- Whatever a request to change the status of one ticket does, every other ticket stays, of its
-- kind and in its status, but for a walk-in that was READY, which may be RESOLVED.
pub update_status_others :
    (env : Env) (id user other : ℕ) (caller : Option Bool) (input : UpdateInput) (w : DispatchWorld)
    (q : TicketRow)
    → ((x : RefundWorld) → find_request (env.fresh x) x ≡ none)
    → other ≢ id
    → find_row other w ≡ some q
    → (r : TicketRow) × ((find_row other (update_dispatch_status env id user caller input w).0
          ≡ some r)
        × IsMoved q r)
update_status_others env id user other caller input w q new ne h =
    outcome_others env id user other caller input w _ q new
      (update_outcome env id user caller input w) ne h

pub check_update-accepted :
    (env : Env) (id : ℕ) (s : TicketStatus) (t : Ticket) (c : Caller) (w : DispatchWorld)
    → check_update env id s t c w ≡ ok tt
    → assert_transition (view_of t) s c ≡ ok tt
unfolding check_update
check_update-accepted env id s t c w h =
    let first = check_before env id s t c w in
    let moves = assert_transition (view_of t) s c in
    (both_ok first moves (both_ok (first >> moves) (check_after env id s t c w) h).0).1

-- A request for a ticket and by a user that exist.
pub update_known :
    (env : Env) (id user : ℕ) (admin : Bool) (input : UpdateInput) (s : TicketStatus)
    (w : DispatchWorld) (q : TicketRow)
    → input.status ≡ some s
    → find_row id w ≡ some q
    → update_dispatch_status env id user (some admin) input w
      ≡ update_found env id user admin input s q.ticket w
unfolding update_dispatch_status
update_known env id user admin input s w q k f = rw (k, f, update_dispatch_status) refl

-- The ticket has the status, and an admin or an allowed move brought it there.
abbrev pub Lands : ℕ → TicketStatus → TicketStatus → TicketRow → Caller → DispatchWorld → Type 0
Lands id s left q c w =
    (r : TicketRow) × ((find_row id w ≡ some r)
      × ((r.ticket.ticket_type ≡ q.ticket.ticket_type)
          × ((r.ticket.status ≡ left) × ((c.is_admin ≡ true) ⊎ Allowed (view_of q.ticket) c s))))

found-Lands :
    (env : Env) (id user : ℕ) (admin b : Bool) (input : UpdateInput) (s : TicketStatus)
    (w : DispatchWorld) (q : TicketRow)
    → ((x : RefundWorld) → find_request (env.fresh x) x ≡ none)
    → find_row id w ≡ some q
    → (update_found env id user admin input s q.ticket w).1 ≡ ok b
    → Lands id s
        (if b then pending else s)
        q
        (caller_for user admin q.ticket w)
        (update_found env id user admin input s q.ticket w).0
unfolding update_found
found-Lands env id user admin b input s w q new f a =
    let c = caller_for user admin q.ticket w in
    elim (Result-cases (check_update env id s q.ticket c w)) [
      | inr (e, r) ↦ let no : err e ≡ ok b = rw (r, update_found) at a in cc no
      | inl (u, r) ↦
          let eb : ok (is_tower_cancel s q.ticket c) ≡ ok b = rw (r, update_found) at a in
          let same : is_tower_cancel s q.ticket c ≡ b = cc eb in
          let (x, hx) =
            Handled-status id (landed s q.ticket c) w _ q
              (perform-Handled env id user admin input s c w q new f) f in
          rw (r, update_found)
            (
              x,
              (
                hx.0,
                (
                  hx.1.0,
                  (
                    subst (λ y. x.ticket.status ≡ (if y then pending else s)) same hx.1.1,
                    (assert_transition_iff (view_of q.ticket) c s).0
                        (check_update-accepted env id s q.ticket c w r),
                  ),
                ),
              ),
            )
    ]

-- An accepted request leaves its ticket in the status that it asks for, or PENDING when the reply
-- says that the ticket searches again, and it comes from an admin or along a move that is allowed
-- to the caller, if the database gives new refund requests ids that none has.
pub update_status-Lands :
    (env : Env) (id user : ℕ) (admin b : Bool) (input : UpdateInput) (s : TicketStatus)
    (w : DispatchWorld) (q : TicketRow)
    → ((x : RefundWorld) → find_request (env.fresh x) x ≡ none)
    → input.status ≡ some s
    → find_row id w ≡ some q
    → (update_dispatch_status env id user (some admin) input w).1 ≡ ok b
    → Lands id s
        (if b then pending else s)
        q
        (caller_for user admin q.ticket w)
        (update_dispatch_status env id user (some admin) input w).0
update_status-Lands env id user admin b input s w q new k f a =
    let known = update_known env id user admin input s w q k f in
    subst (λ x. Lands id s (if b then pending else s) q (caller_for user admin q.ticket w) x.0)
      (sym known)
      (found-Lands env id user admin b input s w q new f (subst (λ x. x.1 ≡ ok b) known a))
