-- ===== src/Flag/Vote/Tally.antt =====
-- The count of a flag is the sum of its votes, and its voters are those whose vote is for it.
use roadassistapp_be.Base.{
  ℕ, ◌<◌, ◌≡◌, refl, subst, Bool, false, not, ◌&&◌, ◌||◌, ◌==◌, ==_iff, Option, none, some, List,
  [], ◌∷◌, ◌++◌, if◌then◌else◌, or_else, arith, Bool-cases, inl, inr,
}
use roadassistapp_be.Base.Int.{ℤ, pos, ◌+ℤ◌, ◌-ℤ◌, int_laws, ltb_ℤ, eqb_ℤ}
use roadassistapp_be.Flag.Vote.{
  Flag, Sign, up, down, new_flag, includes, array_union, array_remove, lookup_vote, put_vote,
  signed, current_vote, new_voters, cast_flag, cast_signed_vote,
}

-- The sum of the stored votes.
unfoldable pub sum_votes : List (ℕ × ℤ) → ℤ
sum_votes [] = pos 0
sum_votes ((u, w) ∷ votes) = w +ℤ sum_votes votes

abbrev pub is_up : Option ℤ → Bool
is_up none = false
is_up (some w) = ltb_ℤ (pos 0) w

pub record IsTallied (f : Flag) : Type 0 where
  pub counted : f.vote_count ≡ sum_votes f.votes
  pub listed : (u : ℕ) → includes u f.voters ≡ is_up (lookup_vote u f.votes)

includes-append : (u x : ℕ) (xs : List ℕ) → includes u (xs ++ x ∷ []) ≡ (includes u xs || x == u)
unfolding includes
includes-append u x [] = ground arith
includes-append u x (y ∷ xs) = ground (arith, includes-append u x xs)

includes-array_union :
    (u x : ℕ) (xs : List ℕ) → includes u (array_union x xs) ≡ (x == u || includes u xs)
unfolding array_union
includes-array_union u x xs = elim (Bool-cases (includes x xs)) [
  | inl old ↦ rw old (ground (arith, ==_iff x u))
  | inr new ↦ rw (new, includes-append u x xs) (ground arith)
]

includes-array_remove :
    (u x : ℕ) (xs : List ℕ) → includes u (array_remove x xs) ≡ (not (x == u) && includes u xs)
unfolding includes array_remove
includes-array_remove u x [] = ground arith
includes-array_remove u x (y ∷ xs) = ground (arith, includes-array_remove u x xs)

lookup_vote-put_vote :
    (u x : ℕ) (v : ℤ) (votes : List (ℕ × ℤ))
    → lookup_vote u (put_vote x v votes) ≡ (if x == u then some v else lookup_vote u votes)
unfolding lookup_vote put_vote
lookup_vote-put_vote u x v [] = ground arith
lookup_vote-put_vote u x v ((y, w) ∷ votes) = ground (arith, lookup_vote-put_vote u x v votes)

sum_votes-put_vote :
    (u : ℕ) (v : ℤ) (votes : List (ℕ × ℤ))
    → sum_votes (put_vote u v votes)
      ≡ sum_votes votes +ℤ (v -ℤ or_else (lookup_vote u votes) (pos 0))
unfolding lookup_vote put_vote sum_votes
sum_votes-put_vote u v [] = omega int_laws
sum_votes-put_vote u v ((x, w) ∷ votes) = elim (Bool-cases (x == u)) [
  | inl same ↦ rw same (omega int_laws)
  | inr other ↦ rw (other, sum_votes-put_vote u v votes) (omega int_laws)
]

-- A new flag is tallied.
pub new_flag-IsTallied : (id reporter now ttl_ms : ℕ) → IsTallied (new_flag id reporter now ttl_ms)
unfolding new_flag includes lookup_vote sum_votes
new_flag-IsTallied id reporter now ttl_ms = ground arith

-- Among tallied flags, the vote that counts is the stored one.
current_vote-lookup_vote :
    (f : Flag) (uid weight : ℕ)
    → IsTallied f
    → current_vote f uid weight ≡ or_else (lookup_vote uid f.votes) (pos 0)
unfolding current_vote
current_vote-lookup_vote f uid weight t = ground (arith, t.listed uid)

new_voters-listed :
    (sign : Sign) (u x weight : ℕ) (f : Flag)
    → 0 < weight
    → IsTallied f
    → includes u (new_voters sign x f.voters)
      ≡ is_up (lookup_vote u (put_vote x (signed sign weight) f.votes))
new_voters-listed up u x weight f w t =
    rw (lookup_vote-put_vote, includes-array_union) (ground (arith, t.listed u))
new_voters-listed down u x weight f w t =
    rw (lookup_vote-put_vote, includes-array_remove) (ground (arith, t.listed u))

cast_flag-IsTallied :
    (f : Flag) (uid : ℕ) (sign : Sign) (weight : ℕ)
    → 0 < weight
    → IsTallied f
    → IsTallied (cast_flag f uid sign weight)
      × (lookup_vote uid (cast_flag f uid sign weight).votes ≡ some (signed sign weight))
unfolding cast_flag
cast_flag-IsTallied f uid sign weight w t = (
  record {
    counted = rw (current_vote-lookup_vote f uid weight t, sum_votes-put_vote, t.counted);
    listed = λ u. new_voters-listed sign u uid weight f w t;
  },
  rw (lookup_vote-put_vote, (==_iff uid uid).1 refl),
)

-- A vote keeps a flag tallied, and stores the voter's one vote.
pub cast_signed_vote-IsTallied :
    (f : Flag) (uid : ℕ) (sign : Sign) (weight : ℕ) {g : Flag}
    → 0 < weight
    → IsTallied f
    → cast_signed_vote f uid sign weight ≡ some g
    → IsTallied g × (lookup_vote uid g.votes ≡ some (signed sign weight))
unfolding cast_signed_vote
cast_signed_vote-IsTallied f uid sign weight {g} w t h =
    elim (Bool-cases (eqb_ℤ (current_vote f uid weight) (signed sign weight))) [
      | inl same ↦ let e : none ≡ some g = rw same at h in cc e
      | inr changed ↦
          let e : some (cast_flag f uid sign weight) ≡ some g = rw changed at h in
          subst (λ k. IsTallied k × (lookup_vote uid k.votes ≡ some (signed sign weight))) (cc e)
            (cast_flag-IsTallied f uid sign weight w t)
    ]
