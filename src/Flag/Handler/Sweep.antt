-- ===== src/Flag/Handler/Sweep.antt =====
-- The sweep of flags whose time is up.
use roadassistapp_be.Base.{
  ℕ, ◌≡◌, refl, subst, sym, if◌then◌else◌, Bool, true, false, ◌||◌, ◌==◌, ==_iff, List, [], ◌∷◌,
  arith, Bool-cases, All, All-map, inl, inr,
}
use roadassistapp_be.Base.Store.{All-update_row_to}
use roadassistapp_be.Flag.Vote.{Flag, expired}
use roadassistapp_be.Flag.Handler.{
  World, flag_id, set_status, reconcile_reporter_award, expire_each, expire_flags, find_expired,
  is_due,
}
use roadassistapp_be.Flag.Handler.Laws.{reconcile_reporter_award-All}

has_id : ℕ → List Flag → Bool
has_id id [] = false
has_id id (f ∷ rows) = f.id == id || has_id id rows

-- Every flag that is due stands among the rows.
abbrev IsCovered : ℕ → List Flag → List Flag → Type 0
IsCovered now rows = All (λ f. is_due now f ≡ true → has_id f.id rows ≡ true)

IsCovered-cons :
    (now : ℕ) (f : Flag) (rows flags : List Flag)
    → IsCovered now rows flags
    → IsCovered now (f ∷ rows) flags
unfolding has_id
IsCovered-cons now f rows flags h = All-map _ _ (λ g k e. ground (arith, k e)) flags h

has_id-cons_self : (f : Flag) (rows : List Flag) → has_id f.id (f ∷ rows) ≡ true
unfolding has_id
has_id-cons_self f rows = ground (arith, ==_iff f.id f.id)

find_expired-cons :
    (now : ℕ) (f : Flag) (flags : List Flag)
    → find_expired now (f ∷ flags)
      ≡ (if is_due now f then f ∷ find_expired now flags else find_expired now flags)
unfolding find_expired
find_expired-cons now f flags = refl

find_expired-IsCovered :
    (now : ℕ) (flags : List Flag) → IsCovered now (find_expired now flags) flags
find_expired-IsCovered now [] = tt
find_expired-IsCovered now (f ∷ flags) =
    let rest = find_expired now flags in
    let ih = find_expired-IsCovered now flags in
    elim (Bool-cases (is_due now f)) [
      | inl due ↦
          subst (λ rows. IsCovered now rows (f ∷ flags)) (sym (rw (find_expired-cons, due)))
            (λ _. has_id-cons_self f rest, IsCovered-cons now f rest flags ih)
      | inr later ↦
          subst (λ rows. IsCovered now rows (f ∷ flags)) (sym (rw (find_expired-cons, later)))
            (λ e. cc e, ih)
    ]

expire_one-IsCovered :
    (now : ℕ) (f : Flag) (rows : List Flag) (w : World)
    → IsCovered now (f ∷ rows) w.flags
    → IsCovered now rows (set_status f.id expired w).flags
unfolding has_id
expire_one-IsCovered now f rows w h =
    All-update_row_to flag_id _ _ f.id (λ g. record g { status = expired }) w.flags
      (λ g e k d. cc d) (λ g ne k d. ground (arith, k d, ==_iff f.id g.id)) h

expire_each-IsCovered :
    (now : ℕ) (rows : List Flag) (w : World)
    → IsCovered now rows w.flags
    → IsCovered now [] (expire_each rows w).flags
unfolding expire_each
expire_each-IsCovered now [] w h = h
expire_each-IsCovered now (f ∷ rows) w h =
    expire_each-IsCovered now rows (reconcile_reporter_award f.id (set_status f.id expired w)) (
      reconcile_reporter_award-All (λ g. is_due now g ≡ true → has_id g.id rows ≡ true) f.id
        (set_status f.id expired w) (λ g points k. k) (expire_one-IsCovered now f rows w h))

-- After the sweep no flag is left active past its time.
pub expire_flags_complete :
    (now : ℕ) (w : World) → All (λ f. is_due now f ≡ false) (expire_flags now w).flags
unfolding expire_flags has_id
expire_flags_complete now w =
    All-map _ _ (λ f k. elim (Bool-cases (is_due now f)) [ inl due ↦ cc (k due) | inr d ↦ d ])
      (expire_flags now w).flags
      (expire_each-IsCovered now (find_expired now w.flags) w (find_expired-IsCovered now w.flags))
