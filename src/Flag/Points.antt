-- ===== src/Flag/Points.antt =====
-- utils/points.ts, and `reconcileReporterAward` of repository/flagRepository.ts.
pub mod Laws
use roadassistapp_be.Base.{
  ℕ, ◌+◌, ◌/◌, Bool, true, false, ◌&&◌, Option, none, some, List, [], ◌∷◌, if◌then◌else◌, or_else,
}
use roadassistapp_be.Base.Int.{ℤ, pos, ◌+ℤ◌, ◌-ℤ◌, sub_ℕ, pos_part, neg_part, ltb_ℤ, eqb_ℤ}
use roadassistapp_be.Flag.Vote.{Flag, FlagStatus, confirmed}

pub record User : Type 0 where
  pub id : ℕ
  pub trust_score : Option ℕ
  pub points : Option ℤ

-- `Math.floor(weight)` of each vote for the flag, a weight being in halves.
unfoldable pub ups : List (ℕ × ℤ) → ℕ
ups [] = 0
ups ((u, w) ∷ votes) = pos_part w / 2 + ups votes

-- `Math.floor(-weight)` of each vote against it.
unfoldable pub downs : List (ℕ × ℤ) → ℕ
downs [] = 0
downs ((u, w) ∷ votes) = neg_part w / 2 + downs votes

abbrev pub is_confirmed : FlagStatus → Bool
is_confirmed confirmed = true
is_confirmed _ = false

-- `reconcilePoints`: what the flag has earned its reporter.
unfoldable pub earned : List (ℕ × ℤ) → FlagStatus → ℤ
earned votes status =
    let score = sub_ℕ (ups votes) (downs votes) in
    score +ℤ (if is_confirmed status && ltb_ℤ (pos 0) score then pos 5 else pos 0)

abbrev award_first : Option ℤ → ℤ → Flag → Flag
award_first none e f = record f { points_awarded = some e }
award_first (some awarded) e f = f

abbrev give : Option User → ℤ → ℤ → Flag → Flag × Option User
give none e delta f = (f, none)
give (some user) e delta f = (
  record f { points_awarded = some e },
  some (record user { points = some (pos (pos_part (or_else user.points (pos 0) +ℤ delta))) }),
)

-- The writes of `reconcileReporterAward`, once the earned points are known.
settle_award : ℤ → Flag → Option User → Flag × Option User
settle_award e f reporter =
    let delta = e -ℤ or_else f.points_awarded (pos 0) in
    if eqb_ℤ delta (pos 0)
    then (award_first f.points_awarded e f, reporter)
    else give reporter e delta f

-- `reconcileReporterAward` on the flag and on the reporter's record, if there is one.
unfoldable pub reconcile : Flag → Option User → Flag × Option User
unfolding earned settle_award
reconcile f reporter = settle_award (earned f.votes f.status) f reporter
