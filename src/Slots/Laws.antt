-- ===== src/Slots/Laws.antt =====
-- The slots of a day: the loop ends, and a slot that is offered is within the hours.
use roadassistapp_be.Base.{
  ℕ, zero, suc, ◌+◌, ◌-◌, ◌%◌, ◌≤◌, ◌<◌, ◌≡◌, refl, sym, subst, inl, inr, Bool, true, false, ◌||◌,
  none, some, List, [], ◌∷◌, ◌++◌, arith, ltb, leb, ◌==◌, ==_iff, Bool-cases, Option-cases, All,
  All-append, All-map, nth, nth-All,
}
use roadassistapp_be.Hours.{ScheduleRange}
use roadassistapp_be.Hours.Open.{entries_of}
use roadassistapp_be.Slots.{
  BookingSettings, iso_for_local, Range, ranges_on_day, insert_range, sort_ranges, ranges_for_date,
  ranges_of, within_ranges, Offer, SlotInput, earliest, offer_at, add_offer, slots_from, slots_in,
  build_slots,
}

-- A range ends within its day.
abbrev pub InDay : Range → Type 0
InDay r = r.closes ≤ 1440

ranges_on_day-All : (day : ℕ) (es : List ScheduleRange) → All InDay (ranges_on_day day es)
unfolding ranges_on_day
ranges_on_day-All day [] = tt
ranges_on_day-All day (e ∷ es) = elim (Bool-cases (e.day == day)) [
  | inr d ↦ rw d (ranges_on_day-All day es)
  | inl s ↦ rw s (ground arith, ranges_on_day-All day es)
]

insert_range-All :
    (r : Range) (rs : List Range) → InDay r → All InDay rs → All InDay (insert_range r rs)
unfolding insert_range
insert_range-All r [] h all = (h, tt)
insert_range-All r (q ∷ rs) h all = elim (Bool-cases (leb r.opens q.opens)) [
  | inl e ↦ rw e (h, all)
  | inr d ↦ rw d (all.0, insert_range-All r rs h all.1)
]

sort_ranges-All : (rs : List Range) → All InDay rs → All InDay (sort_ranges rs)
unfolding sort_ranges
sort_ranges-All [] all = tt
sort_ranges-All (r ∷ rs) all = insert_range-All r (sort_ranges rs) all.0 (sort_ranges-All rs all.1)

pub ranges_of-All : (s : BookingSettings) (date : ℕ) → All InDay (ranges_of s date)
unfolding ranges_of ranges_for_date
ranges_of-All s date = elim (Bool-cases s.always_open) [
  | inl e ↦ rw (e, ranges_of) (omega arith, tt)
  | inr d ↦
      rw (d, ranges_of)
        (sort_ranges-All (ranges_on_day ((date + 4) % 7) (entries_of s.hours))
          (ranges_on_day-All ((date + 4) % 7) (entries_of s.hours)))
]

-- What an offer is, for some ranges of the day.
abbrev pub Offered : SlotInput → List Range → Offer → Type 0
Offered i rs o =
    (within_ranges o.slot rs ≡ true)
    × (o.at ≡ iso_for_local i.date o.slot)
    × (earliest i ≤ o.at)
    × (o.remaining ≡ i.settings.capacity - i.confirmed_by_slot o.slot)

-- The turns of a range, and the range that is left: each offer is within it.
slots_from-Offered :
    (turns : ℕ) (i : SlotInput) (m : ℕ) (r : Range)
    → r.opens ≤ m
    → 1 ≤ i.settings.slot_minutes
    → r.closes ≤ m + turns
    → (os : List Offer) × (slots_from turns i m r.closes ≡ some os) × All (Offered i (r ∷ [])) os
unfolding slots_from within_ranges
slots_from-Offered zero i m r o s h = ([], ground arith, tt)
slots_from-Offered (suc turns) i m r o s h = elim (Bool-cases (ltb m r.closes)) [
  | inr d ↦ ([], rw d refl, tt)
  | inl e ↦
      let rest =
        slots_from-Offered turns i (m + i.settings.slot_minutes) r (omega arith) s (omega arith) in
      elim (Bool-cases (ltb (iso_for_local i.date m) (earliest i))) [
        | inl b ↦ (rest.0, rw (e, rest.1, b) refl, rest.2)
        | inr b ↦ (
          offer_at i m ∷ rest.0,
          rw (e, rest.1, b) refl,
          ((rw e (ground arith), refl, ground arith, refl), rest.2),
        )
      ]
]

widen_first :
    (i : SlotInput) (r : Range) (rs : List Range) (o : Offer)
    → Offered i (r ∷ []) o
    → Offered i (r ∷ rs) o
unfolding within_ranges
widen_first i r rs o h = let w = h.0 in (ground arith, h.1, h.2, h.3)

widen_rest :
    (i : SlotInput) (r : Range) (rs : List Range) (o : Offer)
    → Offered i rs o
    → Offered i (r ∷ rs) o
unfolding within_ranges
widen_rest i r rs o h = let w = h.0 in (ground arith, h.1, h.2, h.3)

slots_in-Offered :
    (turns : ℕ) (i : SlotInput) (rs : List Range)
    → 1 ≤ i.settings.slot_minutes
    → 1440 ≤ turns
    → All InDay rs
    → (os : List Offer) × (slots_in turns i rs ≡ some os) × All (Offered i rs) os
unfolding slots_in
slots_in-Offered turns i [] s t h = ([], refl, tt)
slots_in-Offered turns i (r ∷ rs) s t h =
    let here = slots_from-Offered turns i r.opens r (omega arith) s (omega (arith, h.0)) in
    let rest = slots_in-Offered turns i rs s t h.1 in
    (
      here.0 ++ rest.0,
      rw (here.1, rest.1) refl,
      All-append (Offered i (r ∷ rs)) here.0 rest.0
          (All-map (Offered i (r ∷ [])) (Offered i (r ∷ rs)) (widen_first i r rs) here.0 here.2)
          (All-map (Offered i rs) (Offered i (r ∷ rs)) (widen_rest i r rs) rest.0 rest.2),
    )

-- With a step of at least one minute and 1440 turns for each range the loops end, and what they
-- offer lies within the hours of the date and after the lead time, with the places that are left.
pub build_slots-Offered :
    (turns : ℕ) (i : SlotInput)
    → 1 ≤ i.settings.slot_minutes
    → 1440 ≤ turns
    → (os : List Offer) × (build_slots turns i ≡ some os)
      × All (Offered i (ranges_of i.settings i.date)) os
unfolding build_slots
build_slots-Offered turns i s t =
    slots_in-Offered turns i (ranges_of i.settings i.date) s t (ranges_of-All i.settings i.date)

-- Whether a slot is offered.
unfoldable pub offers : ℕ → List Offer → Bool
offers m [] = false
offers m (o ∷ os) = o.slot == m || offers m os

offers-append_left : (m : ℕ) (xs ys : List Offer) → offers m xs ≡ true → offers m (xs ++ ys) ≡ true
unfolding offers
offers-append_left m [] ys h = cc h
offers-append_left m (x ∷ xs) ys h = ground (arith, offers-append_left m xs ys)

offers-append_right : (m : ℕ) (xs ys : List Offer) → offers m ys ≡ true → offers m (xs ++ ys) ≡ true
unfolding offers
offers-append_right m [] ys h = h
offers-append_right m (x ∷ xs) ys h = ground (arith, offers-append_right m xs ys h)

-- The `j`-th minute of a range, counted in steps.
abbrev pub step_of : SlotInput → ℕ → ℕ → ℕ
step_of i m zero = m
step_of i m (suc j) = step_of i (m + i.settings.slot_minutes) j

step_of_ge : (i : SlotInput) (m j : ℕ) → m ≤ step_of i m j
step_of_ge i m zero = omega arith
step_of_ge i m (suc j) = let h = step_of_ge i (m + i.settings.slot_minutes) j in omega (arith, h)

-- A step of the range that is past the lead time is offered.
abbrev IsListed : SlotInput → List Offer → Range → Type 0
IsListed i os r =
    (j : ℕ)
    → (step_of i r.opens j < r.closes)
    → (earliest i ≤ iso_for_local i.date (step_of i r.opens j))
    → (offers (step_of i r.opens j) os ≡ true)

the_true : (a b : ℕ) → a < b → ltb a b ≡ true
the_true a b h = ground arith

first_late :
    (i : SlotInput) (m : ℕ) (rest : List Offer) (j : ℕ)
    → ltb (iso_for_local i.date m) (earliest i) ≡ true
    → earliest i ≤ iso_for_local i.date (step_of i m j)
    → ((k : ℕ) → j ≡ suc k → offers (step_of i m j) rest ≡ true)
    → offers (step_of i m j) rest ≡ true
first_late i m rest zero b e later = absurd (ground arith)
first_late i m rest (suc j) b e later = later j refl

first_listed :
    (i : SlotInput) (m : ℕ) (rest : List Offer) (j : ℕ)
    → ((k : ℕ) → j ≡ suc k → offers (step_of i m j) rest ≡ true)
    → offers (step_of i m j) (offer_at i m ∷ rest) ≡ true
unfolding offers
first_listed i m rest zero later = rw ((==_iff m m).1 refl) refl
first_listed i m rest (suc j) later = rw (later j refl) (ground arith)

add_offer_lists :
    (i : SlotInput) (m : ℕ) (rest os : List Offer) (j : ℕ)
    → add_offer i m (some rest) ≡ some os
    → earliest i ≤ iso_for_local i.date (step_of i m j)
    → ((k : ℕ) → j ≡ suc k → offers (step_of i m j) rest ≡ true)
    → offers (step_of i m j) os ≡ true
unfolding offers
add_offer_lists i m rest os j h e later =
    elim (Bool-cases (ltb (iso_for_local i.date m) (earliest i))) [
      | inl b ↦
          let same : some rest ≡ some os = rw b at h in
          let eq : rest ≡ os = cc same in
          subst (λ x. offers (step_of i m j) x ≡ true) eq (first_late i m rest j b e later)
      | inr b ↦
          let same : some (offer_at i m ∷ rest) ≡ some os = rw b at h in
          let eq : offer_at i m ∷ rest ≡ os = cc same in
          subst (λ x. offers (step_of i m j) x ≡ true) eq (first_listed i m rest j later)
    ]

slots_from_lists :
    (turns : ℕ) (i : SlotInput) (m closes : ℕ) (os : List Offer) (j : ℕ)
    → slots_from turns i m closes ≡ some os
    → step_of i m j < closes
    → earliest i ≤ iso_for_local i.date (step_of i m j)
    → offers (step_of i m j) os ≡ true
unfolding slots_from offers
slots_from_lists zero i m closes os j h l e =
    let ge = step_of_ge i m j in
    let no : none ≡ some os = rw (the_true m closes (omega (arith, ge))) at h in cc no
slots_from_lists (suc turns) i m closes os j h l e =
    let ge = step_of_ge i m j in
    let inside = the_true m closes (omega (arith, ge)) in
    elim (Option-cases (slots_from turns i (m + i.settings.slot_minutes) closes)) [
      | inl n ↦ let no : none ≡ some os = rw (inside, n) at h in cc no
      | inr (rest, n) ↦
          let added : add_offer i m (some rest) ≡ some os = rw (inside, n) at h in
          add_offer_lists i m rest os j added e (λ k s.
            subst (λ x. offers (step_of i m x) rest ≡ true) (sym s)
              (slots_from_lists turns i (m + i.settings.slot_minutes) closes rest k n
                (subst (λ x. step_of i m x < closes) s l)
                (subst (λ x. earliest i ≤ iso_for_local i.date (step_of i m x)) s e)))
    ]

slots_in_lists :
    (turns : ℕ) (i : SlotInput) (rs : List Range) (os : List Offer)
    → slots_in turns i rs ≡ some os
    → All (IsListed i os) rs
unfolding slots_in
slots_in_lists turns i [] os h = tt
slots_in_lists turns i (r ∷ rs) os h = elim (Option-cases (slots_from turns i r.opens r.closes)) [
  | inl n ↦ let no : none ≡ some os = rw n at h in cc no
  | inr (xs, n) ↦ elim (Option-cases (slots_in turns i rs)) [
    | inl k ↦ let no : none ≡ some os = rw (n, k) at h in cc no
    | inr (ys, k) ↦
        let same : some (xs ++ ys) ≡ some os = rw (n, k) at h in
        let eq : xs ++ ys ≡ os = cc same in
        subst (λ z. All (IsListed i z) (r ∷ rs)) eq
          (
            λ j l e.
                offers-append_left (step_of i r.opens j) xs ys
                  (slots_from_lists turns i r.opens r.closes xs j n l e),
            All-map (IsListed i ys) (IsListed i (xs ++ ys))
                (λ q h' j l e. offers-append_right (step_of i q.opens j) xs ys (h' j l e)) rs
                (slots_in_lists turns i rs ys k),
          )
  ]
]

-- When the loops end, every step of a range of the date that lies past the lead time is offered.
pub build_slots_lists :
    (turns : ℕ) (i : SlotInput) (n j : ℕ) {os : List Offer} {r : Range}
    → build_slots turns i ≡ some os
    → nth n (ranges_of i.settings i.date) ≡ some r
    → step_of i r.opens j < r.closes
    → earliest i ≤ iso_for_local i.date (step_of i r.opens j)
    → offers (step_of i r.opens j) os ≡ true
unfolding build_slots
build_slots_lists turns i n j {os} {r} h g l e =
    let all = slots_in_lists turns i (ranges_of i.settings i.date) os h in
    nth-All (IsListed i os) n (ranges_of i.settings i.date) g all j l e
