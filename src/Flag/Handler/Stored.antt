-- ===== src/Flag/Handler/Stored.antt =====
-- The flag that is in the database after a vote that counts.
use roadassistapp_be.Base.{ℕ, ◌≡◌, ◌≢◌, refl, sym, subst, Option, none, some, arith}
use roadassistapp_be.Base.Int.{ℤ}
use roadassistapp_be.Base.Result.{ok}
use roadassistapp_be.Base.Store.{get_row, get_row-id, get_row-update_row}
use roadassistapp_be.Flag.Vote.{Flag, FlagStatus, locked, Sign, cast_signed_vote, vote_weight_for}
use roadassistapp_be.Flag.Points.{reconcile}
use roadassistapp_be.Flag.Handler.{
  World, flag_id, user_id, set_flag, set_status, reconcile_reporter_award, consensus, after_vote,
  write_vote, with_status, push_if_confirmed, vote_on, cast_signed_flag_vote, trust_of,
}
use roadassistapp_be.Flag.Handler.Laws.{write_points-flags}

-- A flag is stored, with some award.
abbrev pub Stores : ℕ → Flag → World → Type 0
Stores id f w =
    (points : Option ℤ) × (get_row flag_id id w.flags ≡ some (record f { points_awarded = points }))

-- The reconciliation changes nothing of a stored flag but its award.
reconcile_reporter_award-found :
    (id : ℕ) (w : World) {f : Flag}
    → get_row flag_id id w.flags ≡ some f
    → Stores id f (reconcile_reporter_award id w)
unfolding reconcile_reporter_award
reconcile_reporter_award-found id w {f} found =
    let points = (reconcile f (get_row user_id f.reporter_uid w.users)).0.points_awarded in
    (
      points,
      rw (found, reconcile_reporter_award, write_points-flags)
          (get_row-update_row flag_id id (λ g. record g { points_awarded = points }) w.flags
            (λ g. refl) found),
    )

push_if_confirmed-flags :
    (id : ℕ) (status : FlagStatus) (w : World) → (push_if_confirmed id status w).flags ≡ w.flags
push_if_confirmed-flags id status w = ground arith

after_vote-found :
    (id : ℕ) (flip : Option FlagStatus) (w : World) {f : Flag}
    → get_row flag_id id w.flags ≡ some f
    → Stores id (with_status f flip) (after_vote id flip w)
unfolding after_vote
after_vote-found id none w found = reconcile_reporter_award-found id w found
after_vote-found id (some status) w {f} found =
    let set = set_status id status w in
    let written : get_row flag_id id set.flags ≡ some (record f { status = status }) =
      get_row-update_row flag_id id (λ g. record g { status = status }) w.flags (λ g. refl) found in
    reconcile_reporter_award-found id (push_if_confirmed id status set)
      {f = record f { status = status }} (rw (push_if_confirmed-flags id status set) written)

vote_on-found :
    (f : Flag) (uid : ℕ) (sign : Sign) (weight : ℕ) (w : World) {g : Flag}
    → get_row flag_id f.id w.flags ≡ some f
    → cast_signed_vote f uid sign weight ≡ some g
    → Stores f.id
        (with_status (write_vote g f) (consensus sign g.vote_count g.status))
        (vote_on f uid sign weight w).1
unfolding vote_on
vote_on-found f uid sign weight w {g} found cast =
    rw (cast, vote_on)
      (after_vote-found f.id (consensus sign g.vote_count g.status) (set_flag f.id (write_vote g) w)
        (get_row-update_row flag_id f.id (write_vote g) w.flags (λ k. refl) found))

pub cast_signed_vote_status :
    (f : Flag) (uid : ℕ) (sign : Sign) (weight : ℕ) {g : Flag}
    → cast_signed_vote f uid sign weight ≡ some g
    → g.status ≡ f.status
unfolding cast_signed_vote
cast_signed_vote_status f uid sign weight h = ground arith

-- The handler's vote on an open flag of somebody else.
pub cast_signed_flag_vote-vote_on :
    (id uid : ℕ) (sign : Sign) (w : World) {f : Flag}
    → get_row flag_id id w.flags ≡ some f
    → f.reporter_uid ≢ uid
    → f.status ≢ locked
    → let voted = vote_on f uid sign (vote_weight_for (trust_of (get_row user_id uid w.users))) w in
      cast_signed_flag_vote id uid sign w ≡ (ok voted.0, voted.1)
unfolding cast_signed_flag_vote
cast_signed_flag_vote-vote_on id uid sign w found other free =
    rw (found, cast_signed_flag_vote) (ground arith)

-- The flag that the handler stores for a vote that counts.
pub vote_stored :
    (id uid : ℕ) (sign : Sign) (w : World) {f g : Flag}
    → get_row flag_id id w.flags ≡ some f
    → f.reporter_uid ≢ uid
    → f.status ≢ locked
    → cast_signed_vote f uid sign (vote_weight_for (trust_of (get_row user_id uid w.users)))
      ≡ some g
    → Stores id
        (with_status (write_vote g f) (consensus sign g.vote_count f.status))
        (cast_signed_flag_vote id uid sign w).1
vote_stored id uid sign w {f} {g} found other free cast =
    let weight = vote_weight_for (trust_of (get_row user_id uid w.users)) in
    let i : f.id ≡ id = get_row-id flag_id id w.flags found in
    let here : get_row flag_id f.id w.flags ≡ some f =
      subst (λ x. get_row flag_id x w.flags ≡ some f) (sym i) found in
    let voted = (vote_on f uid sign weight w).1 in
    let kept =
      subst (λ s. Stores f.id (with_status (write_vote g f) (consensus sign g.vote_count s)) voted)
        (cast_signed_vote_status f uid sign weight cast)
        (vote_on-found f uid sign weight w here cast) in
    let at_id =
      subst
        (λ x. Stores x (with_status (write_vote g f) (consensus sign g.vote_count f.status)) voted)
        i kept in
    rw (cast_signed_flag_vote-vote_on id uid sign w found other free) at_id
