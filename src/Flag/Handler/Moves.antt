-- ===== src/Flag/Handler/Moves.antt =====
-- What a vote on a flag stores: the votes, the count, and the status that the count moves it to.
use roadassistapp_be.Base.{ℕ, ◌≡◌, ◌≢◌, ◌↔◌, ◌⊎◌, refl, true, false, Option, none, some, ◌∷◌, arith}
use roadassistapp_be.Base.Int.{ℤ, pos, negsuc, ◌≤ℤ◌}
use roadassistapp_be.Base.Result.{ok}
use roadassistapp_be.Base.Store.{get_row, get_row-id}
use roadassistapp_be.Flag.Vote.{
  Flag, FlagStatus, suggested, confirmed, locked, rejected, Sign, up, down, cast_signed_vote,
  vote_weight_for,
}
use roadassistapp_be.Flag.Handler.{
  World, now_has, flag_id, user_id, reconcile_reporter_award, consensus, after_vote, write_vote,
  with_status, vote_on, cast_signed_flag_vote, trust_of, is_gone,
}
use roadassistapp_be.Flag.Handler.Stored.{
  cast_signed_vote_status, cast_signed_flag_vote-vote_on, vote_stored,
}

-- How a vote moves a flag from a status to the next, at the count that it brings the flag to, in
-- halves: for the flag at three or more, it is confirmed; against it at minus three or less, a
-- suggested flag is rejected and a confirmed one suggested. Otherwise the flag stays.
abbrev pub Moves : Sign → ℤ → FlagStatus → FlagStatus → Type 0
Moves sign count before next =
    ((sign ≡ up) × (pos 6 ≤ℤ count) × (next ≡ confirmed))
    ⊎ (((sign ≡ down) × (count ≤ℤ negsuc 5) × (before ≡ suggested) × (next ≡ rejected))
        ⊎ (((sign ≡ down) × (count ≤ℤ negsuc 5) × (before ≡ confirmed) × (next ≡ suggested))
            ⊎ (((sign ≡ up) × (count ≤ℤ pos 5) × (next ≡ before))
                ⊎ (((sign ≡ down) × (negsuc 4 ≤ℤ count) × (next ≡ before))
                    ⊎ ((sign ≡ down)
                        × (before ≢ suggested)
                        × (before ≢ confirmed)
                        × (next ≡ before))))))

consensus-Moves :
    (sign : Sign) (f : Flag) (count : ℤ) (next : FlagStatus)
    → ((with_status f (consensus sign count f.status)).status ≡ next)
      ↔ Moves sign count f.status next
unfolding consensus
consensus-Moves sign f count next = (λ h. ground arith, λ h. ground arith)

-- A vote that counts, on a flag of somebody else that is not locked, is stored with the count and
-- the voters that it brings, and the flag is stored in exactly the status to which this count moves
-- it: a vote for it at the threshold confirms it, a vote against it at minus the threshold rejects
-- a suggested flag and takes a confirmed one back to suggested, and every other vote leaves it.
pub cast_signed_flag_vote-Moves :
    (id uid : ℕ) (sign : Sign) (w : World) (next : FlagStatus) {f g : Flag}
    → get_row flag_id id w.flags ≡ some f
    → f.reporter_uid ≢ uid
    → f.status ≢ locked
    → cast_signed_vote f uid sign (vote_weight_for (trust_of (get_row user_id uid w.users)))
      ≡ some g
    → (h : Flag) × (get_row flag_id id (cast_signed_flag_vote id uid sign w).1.flags ≡ some h)
      × (h.votes ≡ g.votes)
      × (h.vote_count ≡ g.vote_count)
      × (h.voters ≡ g.voters)
      × ((h.status ≡ next) ↔ Moves sign g.vote_count f.status next)
cast_signed_flag_vote-Moves id uid sign w next {f} {g} found other free cast =
    let (points, stored) = vote_stored id uid sign w found other free cast in
    let flip = consensus sign g.vote_count f.status in
    (
      record (with_status (write_vote g f) flip) { points_awarded = points },
      stored,
      with_status-votes flip,
      with_status-count flip,
      with_status-voters flip,
      consensus-Moves sign (write_vote g f) g.vote_count next,
    )
  where
    with_status-votes : (o : Option FlagStatus) → (with_status (write_vote g f) o).votes ≡ g.votes
    with_status-votes none = refl
    with_status-votes (some s) = refl

    with_status-count :
        (o : Option FlagStatus) → (with_status (write_vote g f) o).vote_count ≡ g.vote_count
    with_status-count none = refl
    with_status-count (some s) = refl

    with_status-voters :
        (o : Option FlagStatus) → (with_status (write_vote g f) o).voters ≡ g.voters
    with_status-voters none = refl
    with_status-voters (some s) = refl

reconcile_reporter_award_pushes :
    (id : ℕ) (w : World) → (reconcile_reporter_award id w).pushes ≡ w.pushes
unfolding reconcile_reporter_award
reconcile_reporter_award_pushes id w = ground arith

consensus_revives :
    (count : ℤ) (status : FlagStatus)
    → is_gone status ≡ true
    → pos 6 ≤ℤ count
    → consensus up count status ≡ some confirmed
unfolding consensus
consensus_revives count status g h = ground arith

vote_on_flips :
    (f : Flag) (uid : ℕ) (sign : Sign) (weight : ℕ) (w : World) {g : Flag}
    → cast_signed_vote f uid sign weight ≡ some g
    → consensus sign g.vote_count g.status ≡ some confirmed
    → ((vote_on f uid sign weight w).0
        ≡ some (record {
          flag = record g { status = confirmed };
          already_voted = false;
          vote_direction = some sign;
        }))
      × ((vote_on f uid sign weight w).1.pushes ≡ (f.id, now_has confirmed) ∷ w.pushes)
unfolding vote_on after_vote
vote_on_flips f uid sign weight w cast flip =
    rw (cast, vote_on, flip) (refl, reconcile_reporter_award_pushes f.id _)

-- A flag that has expired or was rejected is stored as confirmed again, riders are told, and the
-- answer says so, when a vote for it by somebody else brings its count to the threshold.
pub cast_signed_flag_vote_revives :
    (id uid : ℕ) (w : World) {f g : Flag}
    → get_row flag_id id w.flags ≡ some f
    → f.reporter_uid ≢ uid
    → is_gone f.status ≡ true
    → cast_signed_vote f uid up (vote_weight_for (trust_of (get_row user_id uid w.users))) ≡ some g
    → pos 6 ≤ℤ g.vote_count
    → (h : Flag) × (get_row flag_id id (cast_signed_flag_vote id uid up w).1.flags ≡ some h)
      × (h.status ≡ confirmed)
      × (h.vote_count ≡ g.vote_count)
      × ((cast_signed_flag_vote id uid up w).0
          ≡ ok (
              some (record {
                flag = record g { status = confirmed };
                already_voted = false;
                vote_direction = some up;
              })))
      × ((cast_signed_flag_vote id uid up w).1.pushes ≡ (id, now_has confirmed) ∷ w.pushes)
cast_signed_flag_vote_revives id uid w {f} {g} found other gone cast enough =
    let weight = vote_weight_for (trust_of (get_row user_id uid w.users)) in
    let free : f.status ≢ locked = λ e. let no : false ≡ true = rw e at gone in cc no in
    let i : f.id ≡ id = get_row-id flag_id id w.flags found in
    let moved : consensus up g.vote_count f.status ≡ some confirmed =
      consensus_revives g.vote_count f.status gone enough in
    let flip : consensus up g.vote_count g.status ≡ some confirmed =
      rw (cast_signed_vote_status f uid up weight cast) moved in
    let (points, stored) = vote_stored id uid up w found other free cast in
    let flips = vote_on_flips f uid up weight w cast flip in
    (
      record (write_vote g f) { status = confirmed; points_awarded = points },
      rw moved at stored,
      refl,
      refl,
      rw (cast_signed_flag_vote-vote_on id uid up w found other free, flips.0) refl,
      rw (cast_signed_flag_vote-vote_on id uid up w found other free, ← i) flips.1,
    )
