-- ===== src/Refund/Laws.antt =====
-- Refund requests: one that is open for a payment, whatever is asked in whatever order.
use roadassistapp_be.Base.{
  ℕ, ◌+◌, ◌≤◌, ◌≡◌, refl, subst, inl, inr, Bool, true, not, ◌||◌, none, some, List, [], ◌∷◌, arith,
  ◌==◌, if◌then◌else◌, ==_iff, Bool-cases, Option-cases, All, All-map,
}
use roadassistapp_be.Base.Store.{get_row, update_row, IsKeyed, update_row-IsKeyed, IsKeyed-All}
use roadassistapp_be.Refund.{
  is_open, RefundRequest, request_id, RefundWorld, find_request, is_open_for, find_open_by_payment,
  new_request, open_request, write_request,
}
use roadassistapp_be.Payment.{Payment}

-- How many requests for a payment are open.
unfoldable pub open_count : ℕ → List RefundRequest → ℕ
open_count payment [] = 0
open_count payment (r ∷ rows) = (if is_open_for payment r then 1 else 0) + open_count payment rows

-- The ids are distinct, and no payment has two open requests.
unfoldable pub IsSingle : List RefundRequest → Type 0
IsSingle rows = IsKeyed request_id rows × ((payment : ℕ) → open_count payment rows ≤ 1)

-- A write opens no request that was closed.
abbrev opens_none : ℕ → (RefundRequest → RefundRequest) → RefundRequest → Bool
opens_none id f q = not (q.id == id) || (not (is_open (f q).status) || is_open q.status)

open_count-update_row :
    (payment id : ℕ) (f : RefundRequest → RefundRequest) (rows : List RefundRequest)
    → ((q : RefundRequest) → (f q).payment_id ≡ q.payment_id)
    → All (λ q. opens_none id f q ≡ true) rows
    → open_count payment (update_row request_id id f rows) ≤ open_count payment rows
unfolding open_count
open_count-update_row payment id f [] k h = omega arith
open_count-update_row payment id f (q ∷ rows) k h =
    ground (arith, k q, h.0, open_count-update_row payment id f rows k h.1)

pub write_request-IsSingle :
    (r : RefundRequest) (f : RefundRequest → RefundRequest) (w : RefundWorld)
    → ((q : RefundRequest) → (f q).id ≡ q.id)
    → ((q : RefundRequest) → (f q).payment_id ≡ q.payment_id)
    → find_request r.id w ≡ some r
    → is_open r.status ≡ true
    → IsSingle w.refunds
    → IsSingle (write_request r f w).0.refunds
unfolding IsSingle write_request
write_request-IsSingle r f w ki kp found o h =
    let closes =
      All-map (λ q. get_row request_id q.id w.refunds ≡ some q) (λ q. opens_none r.id f q ≡ true)
        (λ q e. elim (Bool-cases (q.id == r.id)) [
          | inr d ↦ rw d refl
          | inl s ↦
              let i : q.id ≡ r.id = (==_iff q.id r.id).0 s in
              let same : some q ≡ some r = cc (e, found, i) in
              let oq : is_open q.status ≡ true = cc (same, o) in rw oq (ground arith)
        ])
        w.refunds (IsKeyed-All request_id w.refunds h.0) in
    (
      update_row-IsKeyed request_id r.id f w.refunds ki h.0,
      λ payment.
          let less = open_count-update_row payment r.id f w.refunds kp closes in
          let one = h.1 payment in omega arith,
    )

none_open :
    (payment : ℕ) (rows : List RefundRequest)
    → find_open_by_payment payment rows ≡ none
    → open_count payment rows ≡ 0
unfolding find_open_by_payment open_count
none_open payment [] h = refl
none_open payment (r ∷ rows) h = elim (Bool-cases (is_open_for payment r)) [
  | inl e ↦ let no : some r ≡ none = rw e at h in cc no
  | inr d ↦ let rest = none_open payment rows (rw d at h) in rw d (omega arith)
]

pub open_request-IsSingle :
    (id now by : ℕ) (automatic : Bool) (p : Payment) (amount : ℕ) (w : RefundWorld)
    → find_request id w ≡ none
    → IsSingle w.refunds
    → IsSingle (open_request id now by automatic p amount w).0.refunds
unfolding IsSingle IsKeyed open_count new_request
open_request-IsSingle id now by automatic p amount w new h =
    elim (Option-cases (find_open_by_payment p.id w.refunds)) [
      | inr (r, e) ↦ rw (e, open_request) h
      | inl e ↦
          rw (e, open_request)
            (
              (new, h.0),
              λ payment.
                  let one = h.1 payment in
                  elim (Bool-cases (p.id == payment)) [
                    | inl s ↦
                        let same : p.id ≡ payment = (==_iff p.id payment).0 s in
                        let zero_open : open_count payment w.refunds ≡ 0 =
                          subst (λ x. open_count x w.refunds ≡ 0) same
                            (none_open p.id w.refunds e) in
                        rw s (omega arith)
                    | inr d ↦ rw d (omega arith)
                  ],
            )
    ]

pub open_request_store :
    (id now by : ℕ) (automatic : Bool) (p : Payment) (amount : ℕ) (w : RefundWorld)
    → (open_request id now by automatic p amount w).0.world.store ≡ w.world.store
open_request_store id now by automatic p amount w = ground arith
