-- ===== src/Flag/Handler/Laws.antt =====
-- What the flag operations keep and decide.
use roadassistapp_be.Base.{
  ℕ, ◌<◌, ◌≡◌, ◌⊎◌, inl, inr, refl, Option, none, some, arith, Bool-cases, Option-cases, All, ◌==◌,
  find-All,
}
use roadassistapp_be.Base.Int.{ℤ}
use roadassistapp_be.Base.Result.{err, forbidden}
use roadassistapp_be.Base.Store.{get_row, All-update_row}
use roadassistapp_be.Flag.Vote.{Flag, FlagStatus, locked, Sign, cast_signed_vote, vote_weight_for}
use roadassistapp_be.Flag.Vote.Tally.{IsTallied, cast_signed_vote-IsTallied}
use roadassistapp_be.Flag.Points.{User}
use roadassistapp_be.Flag.Handler.{
  World, flag_id, user_id, set_flag, set_status, write_points, reconcile_reporter_award, consensus,
  after_vote, write_vote, vote_on, cast_signed_flag_vote, trust_of, push_if_confirmed, is_locked,
}

abbrev pub AllTallied : World → Type 0
AllTallied w = All IsTallied w.flags

set_status-AllTallied :
    (id : ℕ) (status : FlagStatus) (w : World) → AllTallied w → AllTallied (set_status id status w)
set_status-AllTallied id status w h =
    All-update_row flag_id IsTallied id (λ f. record f { status = status }) w.flags
      (λ f t. record { counted = t.counted; listed = t.listed }) h

pub write_points-flags : (user : Option User) (w : World) → (write_points user w).flags ≡ w.flags
write_points-flags none w = refl
write_points-flags (some user) w = refl

-- An award changes nothing that a flag's points do not enter.
pub reconcile_reporter_award-All {κ} :
    (P : Flag → Type κ) (id : ℕ) (w : World)
    → ((g : Flag) (points : Option ℤ) → P g → P (record g { points_awarded = points }))
    → All P w.flags
    → All P (reconcile_reporter_award id w).flags
unfolding reconcile_reporter_award
reconcile_reporter_award-All P id w k h = elim (Option-cases (get_row flag_id id w.flags)) [
  | inl gone ↦ rw (gone, reconcile_reporter_award) h
  | inr (f, found) ↦
      rw (found, reconcile_reporter_award, write_points-flags)
        (All-update_row flag_id P id _ w.flags (λ g t. k g _ t) h)
]

reconcile_reporter_award-AllTallied :
    (id : ℕ) (w : World) → AllTallied w → AllTallied (reconcile_reporter_award id w)
reconcile_reporter_award-AllTallied id w h =
    reconcile_reporter_award-All IsTallied id w
      (λ g points t. record { counted = t.counted; listed = t.listed }) h

vote_weight_for_pos : (trust : Option ℕ) → 0 < vote_weight_for trust
unfolding vote_weight_for
vote_weight_for_pos trust = omega arith

after_vote-AllTallied :
    (id : ℕ) (flip : Option FlagStatus) (w : World)
    → AllTallied w
    → AllTallied (after_vote id flip w)
unfolding after_vote
after_vote-AllTallied id none w h = reconcile_reporter_award-AllTallied id w h
after_vote-AllTallied id (some status) w h =
    reconcile_reporter_award-AllTallied id (push_if_confirmed id status (set_status id status w))
      (push_keeps id status (set_status id status w) (set_status-AllTallied id status w h))
  where
    push_keeps :
        (i : ℕ) (s : FlagStatus) (v : World) → AllTallied v → AllTallied (push_if_confirmed i s v)
    push_keeps i s v k = ground arith

vote_on-AllTallied :
    (f : Flag) (uid : ℕ) (sign : Sign) (weight : ℕ) (w : World)
    → 0 < weight
    → IsTallied f
    → AllTallied w
    → AllTallied (vote_on f uid sign weight w).1
unfolding vote_on
vote_on-AllTallied f uid sign weight w pw t h =
    elim (Option-cases (cast_signed_vote f uid sign weight)) [
      | inl dup ↦ rw (dup, vote_on) h
      | inr (g, cast) ↦
          rw (cast, vote_on)
            (after_vote-AllTallied f.id (consensus sign g.vote_count g.status)
              (set_flag f.id (write_vote g) w)
              (All-update_row flag_id IsTallied f.id (write_vote g) w.flags
                (λ k u.
                  let v = (cast_signed_vote-IsTallied f uid sign weight pw t cast).0 in
                  record { counted = v.counted; listed = v.listed })
                h))
    ]

-- A vote keeps every flag's count the sum of its votes, and its voters those who voted for it;
-- so it does when it is refused.
pub cast_signed_flag_vote-AllTallied :
    (id uid : ℕ) (sign : Sign) (w : World)
    → AllTallied w
    → AllTallied (cast_signed_flag_vote id uid sign w).1
unfolding cast_signed_flag_vote
cast_signed_flag_vote-AllTallied id uid sign w h =
    elim (Option-cases (get_row flag_id id w.flags)) [
      | inl gone ↦ rw (gone, cast_signed_flag_vote) h
      | inr (f, found) ↦
          let weight = vote_weight_for (trust_of (get_row user_id uid w.users)) in
          let voted =
            vote_on-AllTallied f uid sign weight w
              (vote_weight_for_pos (trust_of (get_row user_id uid w.users)))
              (find-All (λ (g : Flag). g.id == id) IsTallied w.flags found h) h in
          rw (found, cast_signed_flag_vote)
            (elim (Bool-cases (f.reporter_uid == uid)) [
              | inl own ↦ rw own h
              | inr other ↦ rw other (elim (Bool-cases (is_locked f.status)) [
                | inl fixed ↦ rw fixed h
                | inr open_flag ↦ rw open_flag voted
              ])
            ])
    ]

-- A rider cannot vote on a flag of their own: the vote is refused and nothing changes. A locked
-- flag takes no votes: the answer is given and nothing changes.
pub cast_signed_flag_vote_refused :
    (id uid : ℕ) (sign : Sign) (w : World) {f : Flag}
    → get_row flag_id id w.flags ≡ some f
    → (f.reporter_uid ≡ uid) ⊎ (f.status ≡ locked)
    → ((cast_signed_flag_vote id uid sign w).1 ≡ w)
      × (f.reporter_uid ≡ uid
          → (cast_signed_flag_vote id uid sign w).0
            ≡ err (forbidden "You cannot vote on your own report"))
unfolding cast_signed_flag_vote
cast_signed_flag_vote_refused id uid sign w found why =
    rw (found, cast_signed_flag_vote) (ground arith)
