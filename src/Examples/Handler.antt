-- ===== src/Examples/Handler.antt =====
-- Examples of the theorems on the status handler.
use roadassistapp_be.Base.{
  ℕ, ◌+◌, ◌≡◌, refl, inl, inr, Bool, true, false, Option, none, some, List, [], ◌∷◌, arith,
  Option-cases, All,
}
use roadassistapp_be.Base.Int.{pos}
use roadassistapp_be.Base.Result.{AppError, err}
use roadassistapp_be.Base.Store.{get_row-id, IsKeyed, total, total_ge}
use roadassistapp_be.Status.{TicketStatus, matched, arrived, resolved, cancelled}
use roadassistapp_be.PaymentStatus.{PaymentStatus, held, cash, sepay}
use roadassistapp_be.Ticket.{Ticket}
use roadassistapp_be.Fare.{TowRates}
use roadassistapp_be.Bill.Amount.{tow_waiting_fee}
use roadassistapp_be.Payment.{Payment, find_by_ticket, balance}
use roadassistapp_be.Payment.World.{TicketRow, full_refunds}
use roadassistapp_be.Payment.Guarded.{accounts, IsSound}
use roadassistapp_be.Refund.{request_id, RefundWorld, find_request}
use roadassistapp_be.Refund.Laws.{open_count, IsSingle}
use roadassistapp_be.Refund.Steps.{IsFair}
use roadassistapp_be.Transition.{assert_transition}
use roadassistapp_be.Dispatch.{
  Place, Fix, Provider, Job, DispatchWorld, Env, find_row, tow_provider,
}
use roadassistapp_be.Dispatch.Guards.{
  is_operator_of, caller_for, assert_near_tow_destination, assert_cash_confirmed, check_before,
  check_after, check_update,
}
use roadassistapp_be.Dispatch.Update.{UpdateInput, update_found, update_dispatch_status}
use roadassistapp_be.Dispatch.Edits.{IsMoved}
use roadassistapp_be.Dispatch.Outcome.{
  update_status-IsFair, update_status_others, Lands, update_status-Lands,
}
use roadassistapp_be.Dispatch.Money.Asked.{IsWoundUp}
use roadassistapp_be.Dispatch.Closed.{rider_cancel_winds_up}
use roadassistapp_be.Dispatch.Freed.{ended_job_frees_tower}
use roadassistapp_be.Dispatch.Requests.{IsKept, then, done, requests_keep_closed}
use roadassistapp_be.Dispatch.Unpaid.{cash_blocks_resolve, resolved_tow_waits_free}
use roadassistapp_be.Dispatch.Stranger.{mobile_cancel_asks_nothing}
use roadassistapp_be.Examples.Samples.{night_fare, tow_ticket, sos_ticket}

abbrev next_id : RefundWorld → ℕ
next_id w = total request_id request_id w.refunds + 1

next_id_fresh : (w : RefundWorld) → find_request (next_id w) w ≡ none
next_id_fresh w = elim (Option-cases (find_request (next_id w) w)) [
  | inl n ↦ n
  | inr (r, f) ↦
      let at : r.id ≡ next_id w = get_row-id request_id (next_id w) w.refunds f in
      let most = total_ge request_id request_id (next_id w) w.refunds f in
      absurd (omega (arith, at, most))
]

abbrev rates : TowRates
rates = record {
  solo_bike_table = record { base_fee = 150000; per_km = 10000; included_m = 3000 };
  car_table = record { base_fee = 400000; per_km = 20000; included_m = 5000 };
  night_multiplier = 1500;
  night_start = 1320;
  night_end = 300;
  ceiling_multiplier = 1100;
  minimum_fee = 100000;
  deadhead_payable = true;
}

abbrev here : Place
here = record { lat = pos 10776000; lng = pos 106700000 }

abbrev apart : Place → Place → ℕ
apart a b = 0

abbrev together : ℕ → Place → Place → Bool
together r a b = true

abbrev untracked : ℕ → Option ℕ
untracked id = none

abbrev four_km : ℕ → ℕ
four_km id = 4200

abbrev nobody : Place → List ℕ
nobody p = []

abbrev env : Env
env = record {
  now = 9000000;
  minutes = 600;
  rates = rates;
  refund_policy = full_refunds;
  fresh = next_id;
  meters = apart;
  is_within = together;
  tracked_m = untracked;
  billable_m = four_km;
  operators = nobody;
  grace_ms = 600000;
  cap_ms = 3600000;
  rate_per_min = 15;
  radius_m = 200;
}

-- The payment of 100,000 by SePay that rider 1 made for ticket 8.
abbrev sepay_payment : Payment
sepay_payment = record {
  id = 31;
  ticket_id = 8;
  rider_uid = 1;
  payee_id = 9;
  amount = 100000;
  method = sepay;
  status = held;
  qr_ref = some 500;
  ipn_ref = some 77;
  commission_rate = none;
  commission_amount = none;
  payout_amount = none;
  confirmed_by = none;
  confirmed_at = none;
  refund_amount = none;
  refunded_at = none;
  refunded_by = none;
  payout_ref = none;
  payout_at = none;
  payout_by = none;
  payout_batch_id = none;
  purpose = balance;
  created_at = 2000;
}

-- The payment in cash that the rider had chosen before.
abbrev cash_payment : Payment
cash_payment = record sepay_payment {
  id = 30;
  method = cash;
  status = PaymentStatus.cancelled;
  qr_ref = none;
  ipn_ref = none;
  created_at = 1000;
}

abbrev row_for : Ticket → TicketRow
row_for t = record {
  ticket = t;
  payment_id = none;
  payment_method = none;
  payment_status = none;
  checkout_url = none;
  deposit_payment_id = none;
  booking_id = none;
}

abbrev tow_row : TicketRow
tow_row = row_for (record tow_ticket { status = matched; loaded_at = none })

-- A mobile shop is on its way to the rider.
abbrev sos_row : TicketRow
sos_row = row_for (record sos_ticket { id = 8; status = matched })

-- The tower waits at the pickup point, with the vehicle loaded.
abbrev loaded_row : TicketRow
loaded_row = row_for (record tow_ticket { status = arrived; waiting = some (some 6000000, none) })

abbrev job : Job
job = record {
  place = here;
  destination_point = none;
  destination_snapshot = none;
  is_return = false;
  linked = 8 ∷ [];
  hold = none;
  status_history = [];
  tow_legs = [];
  tow_distance_m = none;
  pickup_history = [];
  former_shops = [];
  tow_cancels = [];
  searching = false;
  candidates = [];
  eta_pickup = none;
  eta_dropoff = none;
  eta_notified = none;
  waiting_active = true;
  waiting_fee = none;
  delivered = none;
  received_at = none;
  fulfilled_by = none;
  return_offer = none;
}

abbrev tow_shop : Provider
tow_shop = record {
  kind = tow_provider;
  is_active = true;
  suspended = false;
  accepting = false;
  place = none;
  tow_base_fee = none;
  tow_per_km_fee = none;
}

abbrev jobs : ℕ → Job
jobs id = job

abbrev shops : ℕ → Provider
shops id = tow_shop

abbrev lost : ℕ → Option Fix
lost id = none

abbrev world_of : TicketRow → DispatchWorld
world_of tow_job = record {
  money = record {
    world = record {
      store = record {
        payments = sepay_payment ∷ cash_payment ∷ [];
        guards = record { ticket_id = 8; payment_id = 31 } ∷ [];
      };
      tickets = tow_job ∷ sos_row ∷ [];
      shops = record { id = 20; operator_uid = some 9 } ∷ [];
      commissions = [];
      confirmed_bookings = [];
      activated = [];
    };
    refunds = [];
  };
  jobs = jobs;
  providers = shops;
  fixes = lost;
}

abbrev start : DispatchWorld
start = world_of tow_row

abbrev ask : TicketStatus → UpdateInput
ask s = record { status = some s; lat = none; lng = none; reason = none }

start-IsFair : IsFair start.money
unfolding IsFair IsSingle IsSound IsKeyed open_count accounts
start-IsFair =
    ((tt, λ p. omega arith), ((refl, (refl, tt)), ((refl, (refl, tt)), (refl, (refl, tt)))))

update_status-Lands_example :
    Lands 7 arrived arrived tow_row
      (caller_for 9 false tow_row.ticket start)
      (update_dispatch_status env 7 9 (some false) (ask arrived) start).0
unfolding update_dispatch_status update_found check_update check_before check_after
    assert_transition caller_for is_operator_of
update_status-Lands_example =
    update_status-Lands env 7 9 false false (ask arrived) arrived start tow_row next_id_fresh refl
      refl refl

update_status_others_example :
    (r : TicketRow) × ((find_row 8
          (update_dispatch_status env 7 9 (some false) (ask arrived) start).0
        ≡ some r)
      × IsMoved sos_row r)
update_status_others_example =
    update_status_others env 7 9 8 (some false) (ask arrived) start sos_row next_id_fresh
      (λ e. omega (arith, e)) refl

update_status-IsFair_example :
    IsFair (update_dispatch_status env 8 1 (some false) (ask cancelled) start).0.money
update_status-IsFair_example =
    update_status-IsFair env 8 1 (some false) (ask cancelled) start next_id_fresh start-IsFair

rider_cancel_winds_up_example :
    All
      (IsWoundUp 8
        (update_dispatch_status env 8 1 (some false) (ask cancelled) start).0.money.refunds)
      (update_dispatch_status env 8 1
        (some false)
        (ask cancelled)
        start).0.money.world.store.payments
unfolding update_dispatch_status update_found check_update check_before check_after
    assert_transition caller_for is_operator_of
rider_cancel_winds_up_example =
    rider_cancel_winds_up env 8 1 false false (ask cancelled) start sos_row refl start-IsFair
      (λ e. (refl, omega arith), (λ e. (refl, omega arith), tt)) refl refl refl refl

mobile_cancel_asks_nothing_example :
    (update_dispatch_status env 8 9 (some false) (ask cancelled) start).0.money.refunds ≡ []
mobile_cancel_asks_nothing_example =
    mobile_cancel_asks_nothing env 8 9 (ask cancelled) start sos_row start-IsFair
      (λ e h. omega (arith, h), (λ e h. omega (arith, h), tt)) refl refl refl

cash_blocks_resolve_example :
    (e : AppError) × (update_dispatch_status env 8 1 (some false) (ask resolved) start
      ≡ (start, err e))
unfolding find_by_ticket
cash_blocks_resolve_example =
    cash_blocks_resolve env 8 1 (ask resolved) start sos_row cash_payment refl refl
      (λ e. ground (arith, e)) refl (λ e. ground (arith, e))

abbrev waiting_world : DispatchWorld
waiting_world = world_of loaded_row

resolved_tow_waits_free_example :
    (r : TicketRow) × ((find_row 7
          (update_dispatch_status env 7 9 (some false) (ask resolved) waiting_world).0
        ≡ some r)
      × (tow_waiting_fee r.ticket.tow_fare ≡ 0))
unfolding update_dispatch_status update_found check_update check_before check_after
    assert_transition assert_near_tow_destination assert_cash_confirmed caller_for is_operator_of
resolved_tow_waits_free_example =
    resolved_tow_waits_free env 7 9 false false (ask resolved) waiting_world loaded_row night_fare
      refl refl refl refl refl refl

-- The tow was delivered; the rider then asks to cancel it, and the SOS ticket.
abbrev closed_world : DispatchWorld
closed_world = world_of (row_for tow_ticket)

abbrev once : DispatchWorld
once = (update_dispatch_status env 7 1 (some false) (ask cancelled) closed_world).0

abbrev twice : DispatchWorld
twice = (update_dispatch_status env 8 1 (some false) (ask cancelled) once).0

requests_keep_closed_example : IsKept 7 (row_for tow_ticket) twice
requests_keep_closed_example =
    requests_keep_closed closed_world twice 7 (row_for tow_ticket)
      (then env 7 1 (ask cancelled) closed_world twice next_id_fresh
        (then env 8 1 (ask cancelled) once twice next_id_fresh (done twice)))
      refl refl

ended_job_frees_tower_example :
    ((update_dispatch_status env 7 9 (some false) (ask cancelled) start).0.providers 20).accepting
    ≡ true
unfolding update_dispatch_status update_found check_update check_before check_after
    assert_transition caller_for is_operator_of
ended_job_frees_tower_example =
    ended_job_frees_tower env 7 9 20 false true (ask cancelled) cancelled start tow_row refl refl
      refl refl refl refl refl
