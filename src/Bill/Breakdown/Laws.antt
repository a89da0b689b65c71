-- ===== src/Bill/Breakdown/Laws.antt =====
-- The lines of a bill add up to its amount.
use roadassistapp_be.Base.{
  ℕ, zero, suc, ◌+◌, ◌≡◌, refl, sym, ap, ◌∙◌, inl, inr, Bool, true, false, not, Option, none, some,
  List, [], ◌∷◌, ◌++◌, if◌then◌else◌, or_else, leb, arith, Bool-cases,
}
use roadassistapp_be.Base.Int.{
  ℤ, pos, ◌+ℤ◌, ◌-ℤ◌, +ℤ_parts, -ℤ_parts, eq_of_parts, int_laws, +ℤ_assoc, abs, eqb_ℤ,
}
use roadassistapp_be.Status.{cancelled}
use roadassistapp_be.Ticket.{Ticket, MobileFee}
use roadassistapp_be.Bill.Amount.{Billable, sos_billable, mobile_history_amount, rider_cancelled}
use roadassistapp_be.Bill.Snapshot.{tow_fare_snapshot}
use roadassistapp_be.Bill.Breakdown.{
  Line, sum_lines, is_capped, adjustment_lines, closed_lines, tow_breakdown, fare_lines, sos_lines,
  prior_visit_lines, sos_breakdown, visit_if_empty, line_if, is_unfixable, Detail, BreakdownCode,
}

sum_lines-append : (xs ys : List Line) → sum_lines (xs ++ ys) ≡ sum_lines xs +ℤ sum_lines ys
unfolding sum_lines
sum_lines-append [] ys = omega int_laws
sum_lines-append (l ∷ ls) ys =
    rw (sum_lines-append ls ys) (sym (+ℤ_assoc l.amount (sum_lines ls) (sum_lines ys)))

no_difference : (a b : ℤ) → eqb_ℤ (a -ℤ b) (pos 0) ≡ true → b +ℤ pos 0 ≡ a
no_difference a b h = ground (arith, -ℤ_parts a b, +ℤ_parts b (pos 0), eq_of_parts (b +ℤ pos 0) a)

difference_added : (a b : ℤ) → b +ℤ (a -ℤ b +ℤ pos 0) ≡ a
difference_added a b = omega int_laws

-- The last line makes up for the difference.
sum_lines-adjustment_lines :
    (amount : ℕ) (computed : ℤ) (cap : Option ℕ)
    → computed +ℤ sum_lines (adjustment_lines amount computed cap) ≡ pos amount
unfolding sum_lines
sum_lines-adjustment_lines amount computed cap =
    elim (Bool-cases (eqb_ℤ (pos amount -ℤ computed) (pos 0))) [
      | inl same ↦ rw same (no_difference (pos amount) computed same)
      | inr differs ↦ rw differs (elim (Bool-cases (is_capped (pos amount) computed cap)) [
        | inl c ↦ rw c (difference_added (pos amount) computed)
        | inr u ↦ rw u (elim (Bool-cases (leb (abs (pos amount -ℤ computed)) 500)) [
          | inl r ↦ rw r (difference_added (pos amount) computed)
          | inr a ↦ rw a (difference_added (pos amount) computed)
        ])
      ])
    ]

closed_lines_total :
    (amount : ℕ) (cap : Option ℕ) (l : Line) (ls : List Line)
    → sum_lines ((l ∷ ls) ++ adjustment_lines amount (sum_lines (l ∷ ls)) cap) ≡ pos amount
closed_lines_total amount cap l ls =
    sum_lines-append (l ∷ ls) (adjustment_lines amount (sum_lines (l ∷ ls)) cap)
    ∙ sum_lines-adjustment_lines amount (sum_lines (l ∷ ls)) cap

sum_lines-one : (l : Line) → sum_lines (l ∷ []) ≡ l.amount
unfolding sum_lines
sum_lines-one l = omega int_laws

sum_lines-closed_lines :
    (amount : ℕ) (cap : Option ℕ) (ls : List Line)
    → sum_lines (closed_lines amount cap ls) ≡ pos amount
sum_lines-closed_lines amount cap [] = sum_lines-one _
sum_lines-closed_lines amount cap (l ∷ ls) = closed_lines_total amount cap l ls

-- The lines of a tow's bill add up to the amount that is billed, whatever the fare record holds:
-- the stored parts, their rounding, the night surcharge, the cap and the prior towers included.
pub sum_lines-tow_breakdown :
    (now : ℕ) (t : Ticket) (amount : ℕ) → sum_lines (tow_breakdown now t amount) ≡ pos amount
unfolding tow_breakdown
sum_lines-tow_breakdown now t amount =
    sum_lines-closed_lines amount (tow_fare_snapshot t).ceiling
      (fare_lines now t amount (tow_fare_snapshot t))

sum_lines-prior_visit_lines :
    (rows : List MobileFee) → sum_lines (prior_visit_lines rows) ≡ pos (mobile_history_amount rows)
unfolding sum_lines prior_visit_lines mobile_history_amount
sum_lines-prior_visit_lines [] = refl
sum_lines-prior_visit_lines (row ∷ rows) =
    elim (Bool-cases (leb (or_else row.call_out_fee 0 + or_else row.travel_fee 0) 0)) [
      | inl free ↦ rw free (sum_lines-prior_visit_lines rows ∙ ap pos (ground arith))
      | inr paid ↦ rw (paid, sum_lines-prior_visit_lines rows) (omega int_laws)
    ]

sum_lines-line_if :
    (c : Bool) (code : BreakdownCode) (n : ℕ) (d : Detail)
    → sum_lines (line_if c code n d) ≡ pos (if c then n else 0)
unfolding sum_lines line_if ◌+ℤ◌
sum_lines-line_if false code n d = refl
sum_lines-line_if true code zero d = refl
sum_lines-line_if true code (suc n) d = ground arith

-- The amount that the lines of an SOS ticket explain.
sos_explained : Ticket → ℕ
sos_explained t =
    mobile_history_amount t.mobile_fee_history
    + or_else t.mobile_call_out_fee 0
    + (if not (is_unfixable t) then or_else t.mobile_travel_fee 0 + or_else t.final_amount 0 else 0)

regroup :
    (h c t f : ℕ) (fixed : Bool)
    → pos h +ℤ (pos c +ℤ (pos (if fixed then t else 0) +ℤ pos (if fixed then f else 0)))
      ≡ pos (h + c + (if fixed then t + f else 0))
regroup h c t f true = omega int_laws
regroup h c t f false = omega int_laws

sum_lines-sos_lines : (t : Ticket) → sum_lines (sos_lines t) ≡ pos (sos_explained t)
unfolding sos_lines sos_explained
sum_lines-sos_lines t =
    simp (sum_lines-append, sum_lines-line_if, sum_lines-prior_visit_lines)
      (regroup (mobile_history_amount t.mobile_fee_history) (or_else t.mobile_call_out_fee 0)
        (or_else t.mobile_travel_fee 0) (or_else t.final_amount 0) (not (is_unfixable t)))

sum_lines-visit_if_empty :
    (amount : ℕ) (ls : List Line)
    → sum_lines ls ≡ pos amount
    → sum_lines (visit_if_empty amount ls) ≡ pos amount
sum_lines-visit_if_empty amount [] h = sum_lines-one _
sum_lines-visit_if_empty amount (l ∷ ls) h = h

-- What an SOS ticket with an assigned shop and a call-out fee on file is billed is what its lines
-- explain, unless the rider cancelled it after a repair amount was set.
sos_explained-billable :
    (t : Ticket) {b : Billable} {shop fee : ℕ}
    → t.assigned_shop_id ≡ some shop
    → t.mobile_call_out_fee ≡ some fee
    → (t.status ≡ cancelled → t.final_amount ≡ none)
    → sos_billable t ≡ some b
    → sos_explained t ≡ b.amount
unfolding sos_explained sos_billable
sos_explained-billable t a f c h = ground arith

-- The lines of an SOS bill add up to its amount: for a ticket with an assigned shop and a call-out
-- fee on file, if no repair amount is left on a cancelled ticket.
pub sum_lines-sos_breakdown :
    (t : Ticket) {b : Billable} {shop fee : ℕ}
    → t.assigned_shop_id ≡ some shop
    → t.mobile_call_out_fee ≡ some fee
    → (t.status ≡ cancelled → t.final_amount ≡ none)
    → sos_billable t ≡ some b
    → sum_lines (sos_breakdown t b.amount) ≡ pos b.amount
unfolding sos_breakdown
sum_lines-sos_breakdown t {b} a f c h =
    sum_lines-visit_if_empty b.amount (sos_lines t)
      (sum_lines-sos_lines t ∙ ap pos (sos_explained-billable t a f c h))

sum_lines-visit_if_empty_ne :
    (amount n : ℕ) (ls : List Line)
    → sum_lines ls ≡ pos (suc n)
    → sum_lines (visit_if_empty amount ls) ≡ pos (suc n)
unfolding sum_lines
sum_lines-visit_if_empty_ne amount n [] h = cc
sum_lines-visit_if_empty_ne amount n (l ∷ ls) h = h

sos_explained_cancelled :
    (t : Ticket) {b : Billable} {shop fee repair_fee : ℕ}
    → t.assigned_shop_id ≡ some shop
    → t.mobile_call_out_fee ≡ some fee
    → t.final_amount ≡ some repair_fee
    → rider_cancelled t ≡ true
    → sos_billable t ≡ some b
    → sos_explained t ≡ b.amount + repair_fee
unfolding sos_explained sos_billable
sos_explained_cancelled t a f r c h = ground arith

-- If the rider cancelled an SOS ticket that has an assigned shop, a call-out fee on file and a
-- positive repair amount, and the ticket is billed, then the lines of its bill add up to the billed
-- amount and that repair amount on top, which is not billed.
pub sos_breakdown_cancelled :
    (t : Ticket) {b : Billable} {shop fee repair_fee : ℕ}
    → t.assigned_shop_id ≡ some shop
    → t.mobile_call_out_fee ≡ some fee
    → t.final_amount ≡ some (suc repair_fee)
    → rider_cancelled t ≡ true
    → sos_billable t ≡ some b
    → sum_lines (sos_breakdown t b.amount) ≡ pos (b.amount + suc repair_fee)
unfolding sos_breakdown
sos_breakdown_cancelled t {b} {repair_fee} a f r c h =
    let e : sos_explained t ≡ suc (b.amount + repair_fee) =
      omega (arith, sos_explained_cancelled t a f r c h) in
    sum_lines-visit_if_empty_ne b.amount (b.amount + repair_fee) (sos_lines t)
      (sum_lines-sos_lines t ∙ ap pos e)
    ∙ ap pos (omega arith)
