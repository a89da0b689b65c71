-- ===== src/Flag/Vote.antt =====
-- The flag record and `castSignedVote` of repository/flagRepository.ts. Vote weights are 1 or 1.5,
-- so weights and counts are kept in halves.
pub mod Tally
use roadassistapp_be.Base.{
  ℕ, ◌+◌, ◌==◌, Bool, false, ◌||◌, Option, none, some, List, [], ◌∷◌, ◌++◌, if◌then◌else◌, or_else,
  leb,
}
use roadassistapp_be.Base.Int.{ℤ, pos, ◌+ℤ◌, ◌-ℤ◌, sub_ℕ, eqb_ℤ}

-- STATUS_FLAGS
pub data FlagStatus : Type 0 where
  suggested confirmed locked expired rejected : FlagStatus

pub data Sign : Type 0 where
  up down : Sign

pub record Flag : Type 0 where
  pub id : ℕ
  pub status : FlagStatus
  pub vote_count : ℤ
  pub voters : List ℕ
  pub votes : List (ℕ × ℤ)
  pub reporter_uid : ℕ
  pub points_awarded : Option ℤ
  pub ttl_expires_at : ℕ

-- `create`: a new flag; `ttl_ms` is added to the time of the report.
unfoldable pub new_flag : ℕ → ℕ → ℕ → ℕ → Flag
new_flag id reporter now ttl_ms = record {
  id = id;
  status = suggested;
  vote_count = pos 0;
  voters = [];
  votes = [];
  reporter_uid = reporter;
  points_awarded = none;
  ttl_expires_at = now + ttl_ms;
}

-- `voters.includes(uid)`
unfoldable pub includes : ℕ → List ℕ → Bool
includes u [] = false
includes u (x ∷ xs) = x == u || includes u xs

-- `FieldValue.arrayUnion(uid)`
unfoldable pub array_union : ℕ → List ℕ → List ℕ
unfolding includes
array_union u xs = if includes u xs then xs else xs ++ u ∷ []

-- `FieldValue.arrayRemove(uid)`
unfoldable pub array_remove : ℕ → List ℕ → List ℕ
array_remove u [] = []
array_remove u (x ∷ xs) = let rest = array_remove u xs in if x == u then rest else x ∷ rest

-- `stored[uid]`, if the key is there.
unfoldable pub lookup_vote : ℕ → List (ℕ × ℤ) → Option ℤ
lookup_vote u [] = none
lookup_vote u ((x, w) ∷ votes) = if x == u then some w else lookup_vote u votes

-- `{...stored, [uid]: weight}`
unfoldable pub put_vote : ℕ → ℤ → List (ℕ × ℤ) → List (ℕ × ℤ)
put_vote u v [] = (u, v) ∷ []
put_vote u v ((x, w) ∷ votes) = if x == u then (x, v) ∷ votes else (x, w) ∷ put_vote u v votes

-- `voteWeightFor`: 1, and 0.5 more for a voter whose trust is 50 or more.
unfoldable pub vote_weight_for : Option ℕ → ℕ
vote_weight_for trust = 2 + (if leb 50 (or_else trust 0) then 1 else 0)

abbrev pub signed : Sign → ℕ → ℤ
signed up weight = pos weight
signed down weight = sub_ℕ 0 weight

-- The vote that counts for a user before this one: the stored one, or for a voter of the old kind
-- the weight that the vote would have today.
current_vote : Flag → ℕ → ℕ → ℤ
unfolding includes lookup_vote
current_vote f uid weight = elim (lookup_vote uid f.votes) [
  | some w ↦ w
  | none ↦ if includes uid f.voters then pos weight else pos 0
]

abbrev new_voters : Sign → ℕ → List ℕ → List ℕ
new_voters up uid voters = array_union uid voters
new_voters down uid voters = array_remove uid voters

-- The flag that `castSignedVote` writes.
cast_flag : Flag → ℕ → Sign → ℕ → Flag
unfolding current_vote put_vote array_union array_remove
cast_flag f uid sign weight =
    let next = signed sign weight in
    record f {
      votes = put_vote uid next f.votes;
      vote_count = f.vote_count +ℤ (next -ℤ current_vote f uid weight);
      voters = new_voters sign uid f.voters;
    }

-- `castSignedVote` on the flag that it reads; `none` is a duplicate, which writes nothing.
unfoldable pub cast_signed_vote : Flag → ℕ → Sign → ℕ → Option Flag
unfolding cast_flag
cast_signed_vote f uid sign weight =
    if eqb_ℤ (current_vote f uid weight) (signed sign weight)
    then none
    else some (cast_flag f uid sign weight)
