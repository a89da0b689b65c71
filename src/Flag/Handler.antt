-- ===== src/Flag/Handler.antt =====
-- The operations of service/flagService.ts on the collections of flags and users. The caches and
-- the stored photos are left out: no operation reads them back.
pub mod Laws
pub mod Sweep
pub mod Stored
pub mod Moves
use roadassistapp_be.Base.{
  ℕ, ◌==◌, Bool, true, false, not, ◌&&◌, ◌||◌, Option, none, some, List, [], ◌∷◌, if◌then◌else◌,
  leb,
}
use roadassistapp_be.Base.Int.{ℤ, pos, negsuc, leb_ℤ, ltb_ℤ}
use roadassistapp_be.Base.Result.{Result, ok, err, forbidden, not_found, validation}
use roadassistapp_be.Base.Store.{get_row, update_row, delete_row}
use roadassistapp_be.Flag.Vote.{
  Flag, FlagStatus, suggested, confirmed, locked, expired, rejected, Sign, up, down,
  vote_weight_for, lookup_vote, includes, cast_signed_vote,
}
use roadassistapp_be.Flag.Points.{User, is_confirmed, reconcile}

-- What `enqueueHazardPush` is told of a flag.
pub data HazardEvent : Type 0 where
  now_has : FlagStatus → HazardEvent
  removed : HazardEvent

pub record World : Type 0 where
  pub flags : List Flag
  pub users : List User
  -- The pushes, the latest first.
  pub pushes : List (ℕ × HazardEvent)

abbrev pub flag_id : Flag → ℕ
flag_id f = f.id

abbrev pub user_id : User → ℕ
user_id u = u.id

-- CONSENSUS_THRESHOLD, in halves of a vote.
abbrev pub consensus_threshold : ℕ
consensus_threshold = 6

abbrev set_flag : ℕ → (Flag → Flag) → World → World
set_flag id f w = record w { flags = update_row flag_id id f w.flags }

-- `updateStatus`
abbrev set_status : ℕ → FlagStatus → World → World
set_status id status = set_flag id (λ f. record f { status = status })

abbrev push : ℕ → HazardEvent → World → World
push id event w = record w { pushes = (id, event) ∷ w.pushes }

abbrev write_points : Option User → World → World
write_points none w = w
write_points (some user) w = record w {
  users = update_row user_id user.id (λ u. record u { points = user.points }) w.users;
}

-- `reconcileReporterAward`
unfoldable pub reconcile_reporter_award : ℕ → World → World
reconcile_reporter_award id w = elim (get_row flag_id id w.flags) [
  | none ↦ w
  | some f ↦
      let (f', reporter) = reconcile f (get_row user_id f.reporter_uid w.users) in
      write_points reporter (set_flag id (λ g. record g { points_awarded = f'.points_awarded }) w)
]

abbrev trust_of : Option User → Option ℕ
trust_of none = none
trust_of (some u) = u.trust_score

abbrev direction_of : ℤ → Option Sign
direction_of w = if ltb_ℤ (pos 0) w then some up else if ltb_ℤ w (pos 0) then some down else none

-- `voteDirectionOf`
unfoldable pub vote_direction_of : Flag → ℕ → ℕ → Option Sign
vote_direction_of f uid weight = elim (lookup_vote uid f.votes) [
  | some w ↦ direction_of w
  | none ↦ if includes uid f.voters then direction_of (pos weight) else none
]

pub record VoteResult : Type 0 where
  pub flag : Flag
  pub already_voted : Bool
  pub vote_direction : Option Sign

abbrev is_suggested : FlagStatus → Bool
is_suggested suggested = true
is_suggested _ = false

abbrev is_locked : FlagStatus → Bool
is_locked locked = true
is_locked _ = false

-- The status that a vote moves the flag to, if it moves it.
unfoldable pub consensus : Sign → ℤ → FlagStatus → Option FlagStatus
consensus up count status =
    if leb_ℤ (pos consensus_threshold) count && not (is_confirmed status)
    then some confirmed
    else none
consensus down count status =
    if leb_ℤ count (negsuc 5)
    then (if is_suggested status
        then some rejected
        else if is_confirmed status
        then some suggested
        else none)
    else none

abbrev push_if_confirmed : ℕ → FlagStatus → World → World
push_if_confirmed id status w = if is_confirmed status then push id (now_has confirmed) w else w

-- What follows a vote that was written: the flip, its push, and the reporter's points.
after_vote : ℕ → Option FlagStatus → World → World
unfolding reconcile_reporter_award
after_vote id none w = reconcile_reporter_award id w
after_vote id (some status) w =
    reconcile_reporter_award id (push_if_confirmed id status (set_status id status w))

abbrev pub with_status : Flag → Option FlagStatus → Flag
with_status f none = f
with_status f (some status) = record f { status = status }

abbrev pub write_vote : Flag → Flag → Flag
write_vote g f = record f { votes = g.votes; vote_count = g.vote_count; voters = g.voters }

pub vote_on : Flag → ℕ → Sign → ℕ → World → Option VoteResult × World
unfolding after_vote consensus
vote_on f uid sign weight w = elim (cast_signed_vote f uid sign weight) [
  | none ↦ (some (record { flag = f; already_voted = true; vote_direction = some sign }), w)
  | some g ↦
      let flip = consensus sign g.vote_count g.status in
      (
        some (record {
          flag = with_status g flip;
          already_voted = false;
          vote_direction = some sign;
        }),
        after_vote f.id flip (set_flag f.id (write_vote g) w),
      )
]

abbrev settle_vote : Option VoteResult × World → Result (Option VoteResult) × World
settle_vote (r, w) = (ok r, w)

-- `castSignedFlagVote`
unfoldable pub cast_signed_flag_vote : ℕ → ℕ → Sign → World → Result (Option VoteResult) × World
unfolding vote_on vote_direction_of vote_weight_for
cast_signed_flag_vote id uid sign w = elim (get_row flag_id id w.flags) [
  | none ↦ (ok none, w)
  | some f ↦
      let weight = vote_weight_for (trust_of (get_row user_id uid w.users)) in
      if f.reporter_uid == uid
      then (err (forbidden "You cannot vote on your own report"), w)
      else if is_locked f.status
      then (
        ok (
            some (record {
              flag = f;
              already_voted = false;
              vote_direction = vote_direction_of f uid weight;
            })),
        w,
      )
      else settle_vote (vote_on f uid sign weight w)
]

abbrev push_if_blocking : ℕ → FlagStatus → World → World
push_if_blocking id status w =
    if is_confirmed status || is_locked status then push id (now_has status) w else w

-- `moderateFlag`
unfoldable pub moderate_flag : ℕ → FlagStatus → World → Result ℕ × World
unfolding reconcile_reporter_award
moderate_flag id status w = elim (get_row flag_id id w.flags) [
  | none ↦ (err (not_found "Flag not found"), w)
  | some f ↦
      (ok 1, push_if_blocking id status (reconcile_reporter_award id (set_status id status w)))
]

-- A status that hides a flag from everybody.
abbrev pub is_gone : FlagStatus → Bool
is_gone expired = true
is_gone rejected = true
is_gone _ = false

-- `unflagFlag`; the number is that of the flags taken away.
unfoldable pub unflag_flag : ℕ → ℕ → World → Result (Option ℕ) × World
unflag_flag id uid w = elim (get_row flag_id id w.flags) [
  | none ↦ (ok none, w)
  | some f ↦
      if is_gone f.status
      then (ok none, w)
      else if is_locked f.status
      then (err (validation "Locked flags can only be removed by an administrator"), w)
      else if not (f.reporter_uid == uid)
      then (err (forbidden "Only the reporter can unflag this report"), w)
      else (ok (some 1), push id removed (record w { flags = delete_row flag_id id w.flags }))
]

-- `findExpired`: the active flags whose time is up.
abbrev pub is_due : ℕ → Flag → Bool
is_due now f = not (is_gone f.status) && leb f.ttl_expires_at now

unfoldable pub find_expired : ℕ → List Flag → List Flag
find_expired now [] = []
find_expired now (f ∷ flags) =
    let rest = find_expired now flags in if is_due now f then f ∷ rest else rest

expire_each : List Flag → World → World
unfolding reconcile_reporter_award
expire_each [] w = w
expire_each (f ∷ rows) w =
    expire_each rows (reconcile_reporter_award f.id (set_status f.id expired w))

-- `expireFlags`
unfoldable pub expire_flags : ℕ → World → World
unfolding expire_each find_expired
expire_flags now w = expire_each (find_expired now w.flags) w
