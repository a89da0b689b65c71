-- ===== src/Examples/Dispatch.antt =====
-- Examples of the dispatch theorems.
use roadassistapp_be.Base.{true, false}
use roadassistapp_be.Status.{matched, tow}
use roadassistapp_be.Transition.{View, Caller}

abbrev matched_tow : View
matched_tow = record { status = matched; ticket_type = tow; quoted_amount = false }

abbrev tower : Caller
tower = record { is_rider = false; is_operator = true; is_assignee = false; is_admin = false }
