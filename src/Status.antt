-- ===== src/Status.antt =====
-- constants/status.ts and constants/dispatch.ts: the status codes of a dispatch ticket, the kinds
-- of ticket, and the statuses that close one.
use roadassistapp_be.Base.{ℕ, Bool, true, false, ◌==◌}

-- STATUS_DISPATCH, in the order of its codes.
pub data TicketStatus : Type 0 where
  pending matched arrived resolved cancelled in_progress ready declined quoted in_shop :
      TicketStatus
  final_quoted resolved_unfixable estimated est_approved unfixable : TicketStatus

-- `ticketType`
pub data TicketType : Type 0 where
  sos tow mechanic walk_in : TicketType

-- The number that the database stores, as a text, for each status.
abbrev pub code : TicketStatus → ℕ
code pending = 1
code matched = 2
code arrived = 3
code resolved = 4
code cancelled = 5
code in_progress = 6
code ready = 7
code declined = 8
code quoted = 9
code in_shop = 10
code final_quoted = 11
code resolved_unfixable = 12
code estimated = 13
code est_approved = 14
code unfixable = 15

-- `a === b` on statuses.
infix 50 ◌=ˢ◌
abbrev pub ◌=ˢ◌ : TicketStatus → TicketStatus → Bool
a =ˢ b = code a == code b

-- TERMINAL_STATUSES
abbrev pub is_terminal : TicketStatus → Bool
is_terminal resolved = true
is_terminal cancelled = true
is_terminal declined = true
is_terminal resolved_unfixable = true
is_terminal unfixable = true
is_terminal _ = false

abbrev pub is_tow : TicketType → Bool
is_tow tow = true
is_tow _ = false

abbrev pub is_sos : TicketType → Bool
is_sos sos = true
is_sos _ = false

abbrev pub is_walk_in : TicketType → Bool
is_walk_in walk_in = true
is_walk_in _ = false
