-- ===== src/Flag/Points/Laws.antt =====
-- The points of a reporter.
use roadassistapp_be.Base.{
  ℕ, suc, ◌+◌, ◌/◌, ◌≡◌, ◌≢◌, ◌⊎◌, refl, sym, ap, ◌∙◌, inl, inr, true, Option, some, List, [], ◌∷◌,
  or_else, arith, Bool-cases,
}
use roadassistapp_be.Base.Int.{
  ℤ, pos, negsuc, pos_part, sub_ℕ, ◌+ℤ◌, ◌-ℤ◌, -ℤ_parts, +ℤ_parts, eq_of_parts, eqb_ℤ, int_laws,
  ◌≤ℤ◌, ℤ-cases,
}
use roadassistapp_be.Flag.Vote.{Flag, FlagStatus, confirmed}
use roadassistapp_be.Flag.Points.{User, ups, downs, reconcile, award_first, settle_award, earned}

sub_self : (a : ℤ) → eqb_ℤ (a -ℤ a) (pos 0) ≡ true
sub_self a = ground (arith, -ℤ_parts a a)

settle_award_votes :
    (e : ℤ) (f : Flag) (reporter : Option User)
    → let g = (settle_award e f reporter).0 in (g.votes ≡ f.votes) × (g.status ≡ f.status)
unfolding settle_award
settle_award_votes e f reporter = ground arith

settle_award_again :
    (e : ℤ) (f : Flag) (reporter : Option User)
    → settle_award e (settle_award e f reporter).0 (settle_award e f reporter).1
      ≡ settle_award e f reporter
unfolding settle_award
settle_award_again e f reporter = ground (arith, sub_self e)

-- Reconciling again at once changes neither the flag nor the reporter.
pub reconcile_idempotent :
    (f : Flag) (reporter : Option User)
    → reconcile (reconcile f reporter).0 (reconcile f reporter).1 ≡ reconcile f reporter
unfolding reconcile
reconcile_idempotent f reporter =
    let e = earned f.votes f.status in
    let kept = settle_award_votes e f reporter in
    rw (kept.0, kept.1) (settle_award_again e f reporter)

-- What a vote is worth: its weight in whole votes, rounded towards zero.
abbrev pub vote_points : ℤ → ℤ
vote_points (pos n) = pos (n / 2)
vote_points (negsuc n) = sub_ℕ 0 (suc n / 2)

-- The worth of all votes of a flag.
unfoldable pub score : List (ℕ × ℤ) → ℤ
score [] = pos 0
score ((u, w) ∷ votes) = vote_points w +ℤ score votes

add_up : (k a b : ℕ) → sub_ℕ (k + a) (0 + b) ≡ pos k +ℤ sub_ℕ a b
unfolding ◌+ℤ◌
add_up k a b = ground arith

add_down : (k a b : ℕ) → sub_ℕ (0 + a) (k + b) ≡ sub_ℕ 0 k +ℤ sub_ℕ a b
unfolding ◌+ℤ◌
add_down k a b = ground arith

ups-downs-score : (votes : List (ℕ × ℤ)) → sub_ℕ (ups votes) (downs votes) ≡ score votes
unfolding ups downs score
ups-downs-score [] = refl
ups-downs-score ((u, pos n) ∷ votes) =
    add_up (n / 2) (ups votes) (downs votes) ∙ ap (λ s. pos (n / 2) +ℤ s) (ups-downs-score votes)
ups-downs-score ((u, negsuc n) ∷ votes) =
    add_down (suc n / 2) (ups votes) (downs votes)
    ∙ ap (λ s. sub_ℕ 0 (suc n / 2) +ℤ s) (ups-downs-score votes)

-- What a flag's votes earn its reporter: their score, and five points more for a confirmed flag
-- whose score is positive.
abbrev pub Earns : List (ℕ × ℤ) → FlagStatus → ℤ → Type 0
Earns votes status e =
    ((status ≡ confirmed) × (pos 1 ≤ℤ score votes) × (e ≡ score votes +ℤ pos 5))
    ⊎ (((status ≢ confirmed) ⊎ (score votes ≤ℤ pos 0)) × (e ≡ score votes))

earned-Earns :
    (votes : List (ℕ × ℤ)) (status : FlagStatus) → Earns votes status (earned votes status)
unfolding earned
earned-Earns votes status = rw (ups-downs-score votes) (
    ground
      (arith, +ℤ_parts (score votes) (pos 0), eq_of_parts (score votes +ℤ pos 0) (score votes)))

-- The points that a reporter ends with.
abbrev pub Balances : ℤ → ℤ → ℤ → User → Type 0
Balances e awarded points user' =
    (or_else user'.points (pos 0) -ℤ e ≡ points -ℤ awarded)
    ⊎ ((points +ℤ (e -ℤ awarded) ≤ℤ negsuc 0) × (user'.points ≡ some (pos 0)))

balance : (e awarded points : ℤ) → points +ℤ (e -ℤ awarded) -ℤ e ≡ points -ℤ awarded
balance e awarded points = omega int_laws

given-Balances :
    (e awarded points : ℤ) (user : User)
    → Balances e awarded points
        (record user { points = some (pos (pos_part (points +ℤ (e -ℤ awarded)))) })
given-Balances e awarded points user = elim (ℤ-cases (points +ℤ (e -ℤ awarded))) [
  | inl (n, h) ↦ inl (rw h (ap (λ t. t -ℤ e) (sym h) ∙ balance e awarded points))
  | inr (n, h) ↦ inr (rw h (omega arith, refl))
]

award_first_lem :
    (e : ℤ) (f : Flag)
    → e ≡ or_else f.points_awarded (pos 0)
    → award_first f.points_awarded e f ≡ record f { points_awarded = some e }
award_first_lem e f h = ground arith

settle_award_awards :
    (e : ℤ) (f : Flag) (user : User)
    → let (f', reporter) = settle_award e f (some user) in
      (user' : User) × (f' ≡ record f { points_awarded = some e })
      × (reporter ≡ some user')
      × Balances e (or_else f.points_awarded (pos 0)) (or_else user.points (pos 0)) user'
unfolding settle_award
settle_award_awards e f user =
    let awarded = or_else f.points_awarded (pos 0) in
    let before = or_else user.points (pos 0) in
    elim (Bool-cases (eqb_ℤ (e -ℤ awarded) (pos 0))) [
      | inl same ↦
          let eq : e ≡ awarded = ground (arith, -ℤ_parts e awarded, eq_of_parts e awarded) in
          rw same (user, award_first_lem e f eq, refl, inl (ap (λ t. before -ℤ t) eq))
      | inr differs ↦ rw differs (_, refl, refl, given-Balances e awarded before user)
    ]

-- After a reconciliation with a reporter on file the flag is as it was, with the points that its
-- votes earn as its award: the sum of the votes, each rounded towards zero, and five more if the
-- flag is confirmed and the sum positive. The reporter's points less the award are what they were,
-- or the points would have fallen below zero and are zero.
pub reconcile_awards :
    (f : Flag) (user : User)
    → let (f', reporter) = reconcile f (some user) in
      (e : ℤ) × (user' : User) × (f' ≡ record f { points_awarded = some e })
      × Earns f.votes f.status e
      × (reporter ≡ some user')
      × Balances e (or_else f.points_awarded (pos 0)) (or_else user.points (pos 0)) user'
unfolding reconcile
reconcile_awards f user =
    let e = earned f.votes f.status in
    let (user', flag, found, balanced) = settle_award_awards e f user in
    (e, user', flag, earned-Earns f.votes f.status, found, balanced)
