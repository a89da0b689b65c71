-- ===== src/Dispatch/Waiting.antt =====
-- service/dispatch/waiting.ts: the time that a tower waits for the rider at the pickup point.
use roadassistapp_be.Base.{
  ℕ, ◌+◌, ◌-◌, ◌*◌, ◌/◌, min, Bool, true, false, ◌&&◌, Option, none, some, if◌then◌else◌, is_some,
}
use roadassistapp_be.Ticket.{Ticket}
use roadassistapp_be.Dispatch.{Place, Job, DispatchWorld, Env, find_row, on_ticket, on_job}

abbrev ms_per_min : ℕ
ms_per_min = 60000

-- `Math.ceil`
abbrev ceil_div : ℕ → ℕ → ℕ
ceil_div n d = (n + d - 1) / d

-- `calcFee`
unfoldable pub calc_fee : Env → ℕ → ℕ
calc_fee env elapsed =
    ceil_div (min (elapsed - env.grace_ms) env.cap_ms) ms_per_min * env.rate_per_min

-- `towerWithinRange`
abbrev tower_within_range : Env → Option ℕ → Place → DispatchWorld → Bool
tower_within_range env none place w = false
tower_within_range env (some shop) place w = elim (w.fixes shop) [
  | none ↦ false
  | some fix ↦ env.is_within env.radius_m fix.place place
]

abbrev pub put_waiting : Option ℕ → Option ℕ → Ticket → Ticket
put_waiting started ended t = record t { waiting = some (started, ended) }

abbrev pub mark_waiting : Bool → Option ℕ → Job → Job
mark_waiting active fee j = record j { waiting_active = active; waiting_fee = fee }

abbrev pub put_waiting_fee : ℕ → Ticket → Ticket
put_waiting_fee fee t = elim t.tow_fare [
  | none ↦ t
  | some fare ↦ record t { tow_fare = some (record fare { waiting_fee = some fee }) }
]

-- `startWaiting`
unfoldable pub start_waiting : Env → ℕ → DispatchWorld → DispatchWorld
unfolding on_ticket on_job
start_waiting env id w = elim (find_row id w) [
  | none ↦ w
  | some r ↦
      if is_some r.ticket.waiting && (w.jobs id).waiting_active
      then w
      else on_job id (mark_waiting true none) (on_ticket id (put_waiting (some env.now) none) w)
]

-- The fee of a wait that ends now.
unfoldable pub waiting_fee_for : Env → ℕ → Option ℕ → Place → DispatchWorld → ℕ
unfolding calc_fee
waiting_fee_for env started shop place w =
    if tower_within_range env shop place w
    then calc_fee env (min (env.now - started) env.cap_ms)
    else 0

-- The wait that began then ends, with its fee on the ticket's fare.
unfoldable pub end_waiting : Env → ℕ → Ticket → Option ℕ → DispatchWorld → DispatchWorld
unfolding on_ticket on_job waiting_fee_for
end_waiting env id t none w =
    on_job id (mark_waiting false (some 0)) (on_ticket id (put_waiting none (some env.now)) w)
end_waiting env id t (some started) w =
    let fee = waiting_fee_for env started t.assigned_shop_id (w.jobs id).place w in
    on_ticket id (put_waiting_fee fee) (
      on_job id (mark_waiting false (some fee))
        (on_ticket id (put_waiting (some started) (some (min env.now (started + env.cap_ms)))) w))

abbrev pub stop_open :
    Env → ℕ → Ticket → Option (Option ℕ × Option ℕ) → DispatchWorld → DispatchWorld
stop_open env id t none w = w
stop_open env id t (some (started, ended)) w =
    if (w.jobs id).waiting_active then end_waiting env id t started w else w

-- `stopWaiting`
unfoldable pub stop_waiting : Env → ℕ → DispatchWorld → DispatchWorld
unfolding end_waiting
stop_waiting env id w = elim (find_row id w) [
  | none ↦ w
  | some r ↦ stop_open env id r.ticket r.ticket.waiting w
]
