-- ===== src/Examples/Flags.antt =====
-- Examples of the theorems on hazard flags.
use roadassistapp_be.Base.{ℕ, ◌≡◌, ◌↔◌, refl, false, none, some, [], ◌∷◌, All, arith}
use roadassistapp_be.Base.Int.{ℤ, pos, ◌+ℤ◌, ◌-ℤ◌}
use roadassistapp_be.Base.Result.{ok}
use roadassistapp_be.Flag.Vote.{
  Flag, confirmed, expired, up, cast_signed_vote, vote_weight_for, lookup_vote, includes, new_flag,
}
use roadassistapp_be.Flag.Vote.Tally.{IsTallied, is_up, new_flag-IsTallied, sum_votes}
use roadassistapp_be.Flag.Points.{User, reconcile}
use roadassistapp_be.Flag.Points.Laws.{Earns, Balances, reconcile_awards}
use roadassistapp_be.Flag.Handler.{
  World, flag_id, now_has, cast_signed_flag_vote, expire_flags, is_due,
}
use roadassistapp_be.Flag.Handler.Laws.{AllTallied, cast_signed_flag_vote-AllTallied}
use roadassistapp_be.Flag.Handler.Moves.{
  Moves, cast_signed_flag_vote-Moves, cast_signed_flag_vote_revives,
}
use roadassistapp_be.Base.Store.{get_row}
use roadassistapp_be.Flag.Handler.Sweep.{expire_flags_complete}

-- Two riders have voted for the flag of user 1, and its time is up.
abbrev old_flag : Flag
old_flag = record {
  id = 5;
  status = expired;
  vote_count = pos 4;
  voters = 2 ∷ 3 ∷ [];
  votes = (2, pos 2) ∷ (3, pos 2) ∷ [];
  reporter_uid = 1;
  points_awarded = some (pos 2);
  ttl_expires_at = 100;
}

abbrev fresh_flag : Flag
fresh_flag = new_flag 6 1 50 3600

abbrev reporter : User
reporter = record { id = 1; trust_score = some 10; points = some (pos 2) }

abbrev trusted : User
trusted = record { id = 4; trust_score = some 60; points = none }

abbrev city : World
city = record { flags = old_flag ∷ fresh_flag ∷ []; users = reporter ∷ trusted ∷ []; pushes = [] }

old_flag-listed : (u : ℕ) → includes u (2 ∷ 3 ∷ []) ≡ is_up (lookup_vote u old_flag.votes)
unfolding includes lookup_vote
old_flag-listed u = ground arith

old_flag-IsTallied : IsTallied old_flag
unfolding sum_votes ◌+ℤ◌
old_flag-IsTallied = record { counted = refl; listed = old_flag-listed }

city-AllTallied : AllTallied city
city-AllTallied = (old_flag-IsTallied, (new_flag-IsTallied 6 1 50 3600, tt))

abbrev voted_flag : Flag
voted_flag = record old_flag {
  vote_count = pos 7;
  voters = 2 ∷ 3 ∷ 4 ∷ [];
  votes = (2, pos 2) ∷ (3, pos 2) ∷ (4, pos 3) ∷ [];
}

third_vote : cast_signed_vote old_flag 4 up 3 ≡ some voted_flag
unfolding cast_signed_vote lookup_vote includes ◌+ℤ◌ ◌-ℤ◌
third_vote = refl

cast_signed_flag_vote-AllTallied_example : AllTallied (cast_signed_flag_vote 5 4 up city).1
cast_signed_flag_vote-AllTallied_example =
    cast_signed_flag_vote-AllTallied 5 4 up city city-AllTallied

trusted_weight : vote_weight_for (some 60) ≡ 3
unfolding vote_weight_for
trusted_weight = refl

trusted_vote : cast_signed_vote old_flag 4 up (vote_weight_for (some 60)) ≡ some voted_flag
trusted_vote = rw trusted_weight third_vote

cast_signed_flag_vote-Moves_example :
    (h : Flag) × (get_row flag_id 5 (cast_signed_flag_vote 5 4 up city).1.flags ≡ some h)
    × (h.votes ≡ voted_flag.votes)
    × (h.vote_count ≡ pos 7)
    × (h.voters ≡ 2 ∷ 3 ∷ 4 ∷ [])
    × ((h.status ≡ confirmed) ↔ Moves up (pos 7) expired confirmed)
cast_signed_flag_vote-Moves_example =
    cast_signed_flag_vote-Moves 5 4 up city confirmed {f = old_flag} refl (omega arith) (λ e. cc e)
      trusted_vote

cast_signed_flag_vote_revives_example :
    (h : Flag) × (get_row flag_id 5 (cast_signed_flag_vote 5 4 up city).1.flags ≡ some h)
    × (h.status ≡ confirmed)
    × (h.vote_count ≡ pos 7)
    × ((cast_signed_flag_vote 5 4 up city).0
        ≡ ok (
            some (record {
              flag = record voted_flag { status = confirmed };
              already_voted = false;
              vote_direction = some up;
            })))
    × ((cast_signed_flag_vote 5 4 up city).1.pushes ≡ (5, now_has confirmed) ∷ [])
cast_signed_flag_vote_revives_example =
    cast_signed_flag_vote_revives 5 4 city {f = old_flag} refl (omega arith) refl trusted_vote
      (omega arith)

reconcile_awards_example :
    let (f', user) = reconcile voted_flag (some reporter) in
    (e : ℤ) × (user' : User) × (f' ≡ record voted_flag { points_awarded = some e })
    × Earns voted_flag.votes expired e
    × (user ≡ some user')
    × Balances e (pos 2) (pos 2) user'
reconcile_awards_example = reconcile_awards voted_flag reporter

expire_flags_complete_example : All (λ f. is_due 4000 f ≡ false) (expire_flags 4000 city).flags
expire_flags_complete_example = expire_flags_complete 4000 city
