-- ===== src/Lib.antt =====
-- RoadAssist's backend is a set of HTTP handlers over a document database: riders open dispatch
-- tickets (an SOS visit, a tow, a booking with a mechanic, a walk-in), shops and responders move a
-- ticket through its statuses, the rider pays a deposit and the balance, the platform keeps a
-- commission, and riders vote on hazard flags on the map. This library models the parts that decide
-- these things: functions of `functions/service` and `functions/repository` translated to functions
-- on the rows that they read, which return what the handler answers and the state it leaves.
--
-- Files and the code that they model, below `functions/`:
--   Status, PaymentStatus, Ticket: constants/status.ts, constants/dispatch.ts,
--     constants/payments.ts, and the fields of repository/dispatchRepository.ts that are read.
--   Transition: service/dispatch/tickets/assertTransition.ts, the check of each change of a
--     ticket's status. Transition/Edges has the relation that the check is compared with.
--   Bill/Amount: `billableAmountFor` and `expectedAmountFor` of service/paymentService.ts, and
--     service/payment/depositCredit.ts. Bill/Deposit: service/bill/deposit.ts. Bill/Snapshot and
--     Bill/Breakdown: service/bill/breakdown.ts, the lines of a bill. Bill/Total: `buildItem` and
--     `buildBill` of service/billService.ts.
--   Fare: service/dispatch/fare.ts, but for the routes that it measures.
--   Dispatch: the documents that `updateDispatchStatus` of service/dispatch/tickets/transition.ts
--     reads and writes. Dispatch/Guards: its checks, with tickets/deliveryGuard.ts and
--     `assertCashConfirmedForResolve`. Dispatch/Waiting: the waiting of a tower, in
--     service/dispatch/waiting.ts. Dispatch/Money: the payments of a cancelled ticket. Dispatch/Tow:
--     fares, legs (`freezeTowLeg` of service/dispatch/helpers.ts) and the job that a tower gives
--     back. Dispatch/Update: the handler. Dispatch/Edits has its writes as a step relation;
--     Dispatch/Effects, FollowUp, Handled, Change, Money/Steps and Money/Asked hold the lemmas, and
--     Dispatch/Outcome, Closed, Stranger, Unpaid, Requests and Freed what requests leave.
--   Payment: repository/paymentRepository.ts, with the guard document that a ticket's active
--     payment is kept in. Payment/World: the state of the handlers, `stampTicketPayment`, and
--     service/payment/helpers.ts. Payment/Switch: service/paymentMethodSwitch.ts. Payment/Collect:
--     `createPaymentForTicket`. Payment/Deposit: service/paymentDepositService.ts. Payment/Settle:
--     `confirmCash`, `handleSepayIpn`, `refund` and `cancelPendingPayments` of
--     service/paymentService.ts. Payment/Guarded, the files Sound, Payment/Collect/Opens, Payment/Collect/Shadow and
--     Payment/Settle/Refunds, Tickets and Cancelled hold the proofs; Payment/Steps puts the handlers together as steps.
--   Commission: repository/commissionRepository.ts, what a payee owes for cash that it received;
--     `confirmCash` writes to it. Commission/Laws and Commission/Reversal hold the lemmas.
--   Refund: service/refundService.ts and repository/refundRepository.ts, on top of the payments.
--     Refund/Steps puts their handlers and those of the payments together as steps, Refund/Laws and
--     Refund/Confirm hold the lemmas.
--   Payout: service/payoutService.ts and repository/payoutRepository.ts: what a payee is owed.
--     Payout/Settle: the batches and the transaction that writes one. Payout/Requests: the requests
--     of payees. Payout/Laws and Payout/Asked hold the proofs.
--   Subscription: service/subscriptionService.ts and constants/subscriptions.ts; Subscription/Laws
--     holds the proofs.
--   Hours: service/provider/schedule.ts, the opening hours of a shop, from their text. Hours/Open:
--     whether a shop is open, and until when. Hours/Laws and Hours/Print hold the proofs.
--   Slots: service/booking/slots.ts, the times that a shop offers. Its loop runs on so many turns at
--     most; 1440, the minutes of a day, are enough for every step of at least a minute.
--   Booking: repository/bookingRepository.ts, with the counters of the slots. Booking/Handlers: what
--     shop and rider do with a booking, of service/bookingService.ts, and service/booking/sweep.ts.
--     Booking/Catalog and Booking/Create: `createBooking`. Booking/Laws, Booking/Handled and
--     Booking/Swept hold the lemmas, Booking/Steps puts the handlers together as steps, and
--     Booking/Offers compares the availability with the checks of a request.
--   Flag/Vote: the record and `castSignedVote` of repository/flagRepository.ts. Flag/Points:
--     `reconcileReporterAward` there, and utils/points.ts. Flag/Handler: the votes, the moderation,
--     the removal and the sweep of service/flagService.ts. Flag/Vote/Tally, Flag/Points/Laws, and
--     Laws, Stored, Moves and Sweep under Flag/Handler hold the proofs.
--   Base: lists, integers, the errors of utils/errors.ts, and a collection as a list of rows.
--   Examples: each theorem with conditions, at a concrete input.
--
-- How the code is read. An id, a time or a text that is only compared is a number; the database's
-- `""`, null and missing fields, which the code tests alike, are `none`. A collection is the list of
-- its rows, and payments stand latest first, as `byCreatedDesc` sorts them. A fresh document id, a
-- fresh QR reference and the time are arguments of a handler. A transaction of the database is one
-- step, and so is a whole handler: two handlers that interleave between their reads and writes are
-- not modelled, nor is a write that the database refuses. Amounts are whole VND, distances are
-- metres or hundredths of a kilometre as a field's name says, multipliers are in thousandths, and
-- the weights of votes in halves, so that the code's floating-point products are exact here and
-- `Math.round` rounds the exact quotient. Amounts and counts that the code never makes negative are
-- natural numbers, with its `Math.max(0, ..)` as subtraction that stops at 0; vote counts, points
-- and payouts are integers. Every loop but that of `buildSlots` is over a list, so that no other fuel
-- is needed.
--
-- Outside the model. What SePay answers to a cancelled order is a parameter of the handlers that
-- ask; the shape of its notifications, the checkout page and its signatures are not modelled, nor
-- is a step that hands a held payment to its subscription: the state of the payments keeps only the
-- list of those that are handed over. Pushes, caches
-- and logs are left out, since no modelled handler reads them, and with them the texts, places and
-- times that a handler only stores. Requests are modelled after the validation of their shape
-- (validation/schemas) and of the caller's token (middleware). Of a change of status, the chat, the
-- reminders, the warranties, the disputes that a tower's cancellation files, the towActual but for its
-- length, and the walk-in ticket of a delivered tow (`spawnShopTicket`) are left out. What
-- floating-point geometry measures (the distance of two places, the length of a job's track), the
-- towers near a place, the configuration and the waiting rules are fields of an argument, `Env`, and
-- the rate of the waiting is a whole number of VND for a minute. The matching of shops by distance,
-- the routing engine, the shop's quotes and invoices, the creation of tickets (what `createDispatch`
-- answers to a check-in is an argument), the plan and the reminders of a booking,
-- disputes and warranties are not modelled.
pub mod Base
pub mod Status
pub mod PaymentStatus
pub mod Ticket
pub mod Transition
pub mod Bill
pub mod Flag
pub mod Commission
pub mod Fare
pub mod Hours
pub mod Slots
pub mod Booking
pub mod Payment
pub mod Subscription
pub mod Payout
pub mod Refund
mod Examples
pub mod Dispatch
