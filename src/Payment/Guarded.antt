-- ===== src/Payment/Guarded.antt =====
-- The guard of repository/paymentRepository.ts: each active payment of a ticket is the one that
-- the ticket's guard names.
use roadassistapp_be.Base.{
  ℕ, ◌==◌, ==_iff, ◌≡◌, ◌≢◌, refl, sym, subst, Bool, ltb, leb, or_else, true, false, not, ◌&&◌,
  ◌||◌, Option, none, some, List, [], ◌∷◌, All, All-map, find, find-All, Bool-cases, Option-cases,
  inl, inr, arith,
}
use roadassistapp_be.Base.Store.{
  get_row, delete_row, get_row-id, get_row-delete_row_ne, IsKeyed, update_row-IsKeyed, IsKeyed-All,
  All-update_row_to,
}
use roadassistapp_be.PaymentStatus.{
  PaymentStatus, pending, held, confirmed, refunded, partial, disputed, cancelled, is_active,
}
use roadassistapp_be.Payment.{
  Payment, Guard, Store, CreatePaymentInput, payment_id, guard_ticket, is_subscription,
  find_payment, guard_of, names, guarded_payment, build_doc, insert_guarded, create_guarded,
  clear_guard, update, update_status, find_by_ticket,
}

-- An active payment of a ticket. A subscription's guard is cleared while its payment is active.
abbrev pub is_live : Payment → Bool
is_live p = is_active p.status && not (is_subscription p.purpose)

abbrev is_guarded : List Guard → Payment → Bool
is_guarded guards p = not (is_live p) || names (get_row guard_ticket p.ticket_id guards) p.id

-- What is refunded of a payment with a status: nothing before it is refunded, a part of the amount
-- when it is PARTIAL, all of it when it is REFUNDED.
unfoldable pub accounts : PaymentStatus → ℕ → ℕ → Bool
accounts pending refunds amount = refunds == 0
accounts held refunds amount = refunds == 0
accounts confirmed refunds amount = refunds == 0
accounts partial refunds amount = ltb 0 refunds && ltb refunds amount
accounts refunded refunds amount = refunds == amount
accounts disputed refunds amount = leb refunds amount
accounts cancelled refunds amount = leb refunds amount

abbrev pub is_accounted : Payment → Bool
is_accounted p = accounts p.status (or_else p.refund_amount 0) p.amount

-- The ids are distinct, the guard of its ticket names each live payment, and the refunds of each
-- payment fit its status.
unfoldable pub IsSound : Store → Type 0
IsSound s =
    IsKeyed payment_id s.payments
    × (All (λ p. is_guarded s.guards p ≡ true) s.payments
        × All (λ p. is_accounted p ≡ true) s.payments)

guard_named :
    (guards : List Guard) (p : Payment)
    → is_live p ≡ true
    → is_guarded guards p ≡ true
    → names (get_row guard_ticket p.ticket_id guards) p.id ≡ true
guard_named guards p l h =
    let e : names (get_row guard_ticket p.ticket_id guards) p.id ≡ true = rw l at h in e

names_one : (o : Option Guard) (a b : ℕ) → names o a ≡ true → names o b ≡ true → a ≡ b
names_one none a b ha hb = cc
names_one (some g) a b ha hb =
    ground (arith, (==_iff g.payment_id a).0 ha, (==_iff g.payment_id b).0 hb)

-- Two live payments of a ticket are one.
pub one_live :
    (s : Store) (a b : ℕ) {p q : Payment}
    → IsSound s
    → find_payment a s ≡ some p
    → find_payment b s ≡ some q
    → is_live p ≡ true
    → is_live q ≡ true
    → p.ticket_id ≡ q.ticket_id
    → a ≡ b
unfolding IsSound
one_live s a b {p} {q} h fp fq lp lq t =
    let gp : is_guarded s.guards p ≡ true =
      find-All _ (λ p. is_guarded s.guards p ≡ true) s.payments fp h.1.0 in
    let gq : is_guarded s.guards q ≡ true =
      find-All _ (λ p. is_guarded s.guards p ≡ true) s.payments fq h.1.0 in
    let np = guard_named s.guards p lp gp in
    let nq : names (get_row guard_ticket p.ticket_id s.guards) q.id ≡ true =
      rw t (guard_named s.guards q lq gq) in
    let e = names_one (get_row guard_ticket p.ticket_id s.guards) p.id q.id np nq in
    cc (get_row-id payment_id a s.payments fp, get_row-id payment_id b s.payments fq, e)

All-and :
    (P Q : Payment → Type 0) (rows : List Payment)
    → All P rows
    → All Q rows
    → All (λ p. P p × Q p) rows
All-and P Q [] hp hq = tt
All-and P Q (p ∷ rows) hp hq = ((hp.0, hq.0), All-and P Q rows hp.1 hq.1)

-- The guard of a row is unchanged when the guards of other tickets change.
other_guard :
    (t : ℕ) (guards : List Guard) (p : Payment)
    → p.ticket_id ≢ t
    → is_guarded guards p ≡ true
    → is_guarded (delete_row guard_ticket t guards) p ≡ true
other_guard t guards p ne h = rw (get_row-delete_row_ne guard_ticket t p.ticket_id guards ne) h

dead_guard : (guards : List Guard) (p : Payment) → is_live p ≡ false → is_guarded guards p ≡ true
dead_guard guards p d = rw d refl

-- The guard of a row is kept when the guard that is cleared names a payment that is not live.
kept_guard :
    (t id : ℕ) (s : Store) (p : Payment)
    → names (guard_of t s) id ≡ true
    → (not (p.id == id) || not (is_live p)) ≡ true
    → is_guarded s.guards p ≡ true
    → is_guarded (delete_row guard_ticket t s.guards) p ≡ true
kept_guard t id s p named dead h = elim (Bool-cases (is_live p)) [
  | inr d ↦ dead_guard _ p d
  | inl l ↦ elim (Bool-cases (p.ticket_id == t)) [
    | inr ne ↦ other_guard t s.guards p (λ e. cc (ne, (==_iff p.ticket_id t).1 e)) h
    | inl eq ↦
        let n : names (guard_of t s) p.id ≡ true =
          rw (sym ((==_iff p.ticket_id t).0 eq)) (guard_named s.guards p l h) in
        let i : (p.id == id) ≡ true =
          (==_iff p.id id).1 (names_one (guard_of t s) p.id id n named) in
        let no : false ≡ true = rw (i, l) at dead in cc no
  ]
]

-- Clearing a guard by a payment that is not live.
clear_guard-IsSound :
    (t id : ℕ) (s : Store)
    → All (λ p. (not (p.id == id) || not (is_live p)) ≡ true) s.payments
    → IsSound s
    → IsSound (clear_guard t id s)
unfolding IsSound clear_guard
clear_guard-IsSound t id s dead h = elim (Bool-cases (names (guard_of t s) id)) [
  | inr d ↦ rw d h
  | inl e ↦ rw e (
    h.0,
    (
      All-map (λ p. ((not (p.id == id) || not (is_live p)) ≡ true) × (is_guarded s.guards p ≡ true))
          (λ p. is_guarded (delete_row guard_ticket t s.guards) p ≡ true)
          (λ p k. kept_guard t id s p e k.0 k.1) s.payments (All-and _ _ s.payments dead h.1.0),
      h.1.1,
    ),
  )
]

guard_active :
    (t : ℕ) (s : Store) (p : Payment)
    → names (guard_of t s) p.id ≡ true
    → get_row payment_id p.id s.payments ≡ some p
    → is_live p ≡ true
    → guarded_payment t s ≡ some p
unfolding guarded_payment
guard_active t s p n f l = elim (Option-cases (guard_of t s)) [
  | inl e ↦ let no : false ≡ true = rw e at n in cc no
  | inr (g, e) ↦
      let m : (g.payment_id == p.id) ≡ true = rw e at n in
      rw (e, (==_iff g.payment_id p.id).0 m, f) (ground (arith, l))
]

-- A new payment of a ticket none of whose payments is live.
fresh_guard :
    (t id : ℕ) (s : Store) (p : Payment)
    → guarded_payment t s ≡ none
    → get_row payment_id p.id s.payments ≡ some p
    → is_guarded s.guards p ≡ true
    → is_guarded (record { ticket_id = t; payment_id = id } ∷ delete_row guard_ticket t s.guards) p
      ≡ true
fresh_guard t id s p idle f h = elim (Bool-cases (is_live p)) [
  | inr d ↦
      dead_guard (record { ticket_id = t; payment_id = id } ∷ delete_row guard_ticket t s.guards) p
        d
  | inl l ↦ elim (Bool-cases (p.ticket_id == t)) [
    | inr ne ↦
        let d : (t == p.ticket_id) ≡ false =
          ground (arith, ==_iff p.ticket_id t, ==_iff t p.ticket_id) in
        rw d (other_guard t s.guards p (λ e. cc (ne, (==_iff p.ticket_id t).1 e)) h)
    | inl eq ↦
        let n : names (guard_of t s) p.id ≡ true =
          rw (sym ((==_iff p.ticket_id t).0 eq)) (guard_named s.guards p l h) in
        cc (guard_active t s p n f l, idle)
  ]
]

pub create_guarded-IsSound :
    (id now : ℕ) (input : CreatePaymentInput) (s : Store)
    → find_payment id s ≡ none
    → accounts input.status 0 input.amount ≡ true
    → IsSound s
    → IsSound (create_guarded id now input s).0
unfolding IsSound create_guarded insert_guarded build_doc IsKeyed
create_guarded-IsSound id now input s new opens h =
    elim (Option-cases (guarded_payment input.ticket_id s)) [
      | inr (p, e) ↦ rw (e, create_guarded) h
      | inl e ↦
          rw (e, create_guarded)
            (
              (new, h.0),
              (
                (
                  ground (arith, ==_iff input.ticket_id input.ticket_id, ==_iff id id),
                  All-map
                      (λ p.
                        (get_row payment_id p.id s.payments ≡ some p)
                        × (is_guarded s.guards p ≡ true))
                      (λ p.
                        is_guarded
                          (record { ticket_id = input.ticket_id; payment_id = id }
                            ∷ delete_row guard_ticket input.ticket_id s.guards)
                          p
                        ≡ true)
                      (λ p k. fresh_guard input.ticket_id id s p e k.0 k.1) s.payments
                      (All-and _ _ s.payments (IsKeyed-All payment_id s.payments h.0) h.1.0),
                ),
                (opens, h.1.1),
              ),
            )
    ]

-- Writing a status, and fields that leave the ticket and the purpose: a row that it makes active
-- was active.
pub write_status-IsSound :
    (id : ℕ) (status : PaymentStatus) (fields : Payment → Payment) (s : Store)
    → ((q : Payment) → (fields q).id ≡ q.id)
    → ((q : Payment) → (fields q).ticket_id ≡ q.ticket_id)
    → ((q : Payment) → (fields q).purpose ≡ q.purpose)
    → ((q : Payment)
        → q.id ≡ id
        → get_row payment_id q.id s.payments ≡ some q
        → (not (is_active status) || is_active q.status) ≡ true)
    → ((q : Payment)
        → q.id ≡ id
        → get_row payment_id q.id s.payments ≡ some q
        → is_accounted q ≡ true
        → is_accounted (record (fields q) { status = status }) ≡ true)
    → IsSound s
    → IsSound (update_status id status fields s).0
unfolding IsSound update_status update
write_status-IsSound id status fields s ki kt kp live fits h = (
  update_row-IsKeyed payment_id id (λ q. record (fields q) { status = status }) s.payments ki h.0,
  (
    All-update_row_to payment_id
        (λ q. (get_row payment_id q.id s.payments ≡ some q) × (is_guarded s.guards q ≡ true))
        (λ q. is_guarded s.guards q ≡ true) id (λ q. record (fields q) { status = status })
        s.payments (λ q e k. rw (ki q, kt q, kp q) (ground (arith, live q e k.0, k.1)))
        (λ q e k. k.1) (All-and _ _ s.payments (IsKeyed-All payment_id s.payments h.0) h.1.0),
    All-update_row_to payment_id
        (λ q. (get_row payment_id q.id s.payments ≡ some q) × (is_accounted q ≡ true))
        (λ q. is_accounted q ≡ true) id (λ q. record (fields q) { status = status }) s.payments
        (λ q e k. fits q e k.0 k.1) (λ q e k. k.1)
        (All-and _ _ s.payments (IsKeyed-All payment_id s.payments h.0) h.1.1),
  ),
)

-- What holds of the payment that an id finds, holds of each row with the id.
pub of_row :
    (id : ℕ) (s : Store) (C : Payment → Type 0) {p : Payment}
    → find_payment id s ≡ some p
    → C p
    → (q : Payment) → q.id ≡ id
    → get_row payment_id q.id s.payments ≡ some q
    → C q
of_row id s C {p} f c q e k = let same : some p ≡ some q = cc (f, k, e) in subst C (cc same) c

pub update_status-IsSound :
    (id : ℕ) (status : PaymentStatus) (fields : Payment → Payment) (s : Store) {p : Payment}
    → ((q : Payment) → (fields q).id ≡ q.id)
    → ((q : Payment) → (fields q).ticket_id ≡ q.ticket_id)
    → ((q : Payment) → (fields q).purpose ≡ q.purpose)
    → find_payment id s ≡ some p
    → (not (is_active status) || is_active p.status) ≡ true
    → (is_accounted p ≡ true → is_accounted (record (fields p) { status = status }) ≡ true)
    → IsSound s
    → IsSound (update_status id status fields s).0
update_status-IsSound id status fields s {p} ki kt kp f live fits h =
    write_status-IsSound id status fields s ki kt kp
      (of_row id s (λ q. (not (is_active status) || is_active q.status) ≡ true) f live)
      (of_row id s
        (λ q. is_accounted q ≡ true → is_accounted (record (fields q) { status = status }) ≡ true) f
        fits)
      h

-- A status that is not active, and then the guard is cleared.
pub close_payment-IsSound :
    (t id : ℕ) (status : PaymentStatus) (fields : Payment → Payment) (s : Store)
    → ((q : Payment) → (fields q).id ≡ q.id)
    → ((q : Payment) → (fields q).ticket_id ≡ q.ticket_id)
    → ((q : Payment) → (fields q).purpose ≡ q.purpose)
    → is_active status ≡ false
    → ((q : Payment)
        → q.id ≡ id
        → get_row payment_id q.id s.payments ≡ some q
        → is_accounted q ≡ true
        → is_accounted (record (fields q) { status = status }) ≡ true)
    → IsSound s
    → IsSound (clear_guard t id (update_status id status fields s).0)
unfolding IsSound update_status update
close_payment-IsSound t id status fields s ki kt kp dead fits h =
    clear_guard-IsSound t id (update_status id status fields s).0
      (All-update_row_to payment_id (λ q. get_row payment_id q.id s.payments ≡ some q)
        (λ q. (not (q.id == id) || not (is_live q)) ≡ true) id
        (λ q. record (fields q) { status = status }) s.payments (λ q e k. rw dead (ground arith))
        (λ q ne k. ground (arith, ==_iff q.id id)) (IsKeyed-All payment_id s.payments h.0))
      (write_status-IsSound id status fields s ki kt kp (λ q e k. rw dead refl) fits h)

pub All-find_by_ticket :
    (P : Payment → Type 0) (t : ℕ) (rows : List Payment)
    → All P rows
    → All P (find_by_ticket t rows)
unfolding find_by_ticket
All-find_by_ticket P t [] h = tt
All-find_by_ticket P t (p ∷ rows) h = elim (Bool-cases (p.ticket_id == t)) [
  | inl e ↦ rw e (h.0, All-find_by_ticket P t rows h.1)
  | inr d ↦ rw d (All-find_by_ticket P t rows h.1)
]

-- A payment that is found among those of a ticket is stored under its id.
pub found_by_ticket :
    (t : ℕ) (test : Payment → Bool) (s : Store) {p : Payment}
    → IsSound s
    → find test (find_by_ticket t s.payments) ≡ some p
    → find_payment p.id s ≡ some p
unfolding IsSound
found_by_ticket t test s h f =
    find-All test (λ q. get_row payment_id q.id s.payments ≡ some q) (find_by_ticket t s.payments) f
      (All-find_by_ticket _ t s.payments (IsKeyed-All payment_id s.payments h.0))

-- A payment with any status has no more refunds than its amount.
pub accounts_bound :
    (status : PaymentStatus) (refunds amount : ℕ)
    → accounts status refunds amount ≡ true
    → leb refunds amount ≡ true
unfolding accounts
accounts_bound status refunds amount h = ground arith

pub cancel_fits :
    (p : Payment) → is_accounted p ≡ true → is_accounted (record p { status = cancelled }) ≡ true
unfolding accounts
cancel_fits p h = accounts_bound p.status (or_else p.refund_amount 0) p.amount h
