-- ===== src/Hours/Laws.antt =====
-- The hours of a shop: when it is open, and until when.
use roadassistapp_be.Base.{
  ℕ, ◌+◌, ◌*◌, ◌/◌, ◌%◌, ◌≤◌, ◌<◌, min, ◌≡◌, refl, subst, ◌≢◌, ◌↔◌, ◌⊎◌, inl, inr, true, ◌||◌,
  Option, none, some, List, [], ◌∷◌, map, arith, ltb, ◌==◌, if◌then◌else◌, Bool-cases, Option-cases,
  is_some, All, All-append, find-All,
}
use roadassistapp_be.Hours.{
  Text, ScheduleRange, day_name, days, is_empty, trim, split_commas, Times, times_of, same_text,
  day_named, day_prefix, range_at, open_time, close_time, ranges_on, entry_ranges, all_ranges,
  normalized, parse_schedule,
}
use roadassistapp_be.Hours.Open.{
  LocalParts, shop_minutes, parts_of, shop_local_parts, yesterday, is_open_at, any_open, entries_of,
  none_listed, is_open_now, time_left, shorter, least_left, next_transition,
}

-- `k` minutes later it is the same day, or the next one.
abbrev Later : LocalParts → ℕ → LocalParts → Type 0
Later at k soon =
    ((soon.day ≡ at.day) × (soon.minutes ≡ at.minutes + k))
    ⊎ ((yesterday soon ≡ at.day) × (1440 + soon.minutes ≡ at.minutes + k))

parts_of-Later : (t k : ℕ) → t % 1440 + k < 2880 → Later (parts_of t) k (parts_of (t + k))
parts_of-Later t k h = elim (Bool-cases (ltb (t % 1440 + k) 1440)) [
  | inl e ↦
      let small : t % 1440 + k < 1440 = ground arith in
      let same : (t + k) / 1440 ≡ t / 1440 = omega arith in inl (rw same refl, omega arith)
  | inr d ↦
      let large : 1440 ≤ t % 1440 + k = ground arith in
      let next : (t + k) / 1440 ≡ 1 + t / 1440 = omega arith in
      inr (rw next (omega arith), omega arith)
]

-- A range that still lasts `n` minutes is open at each of them.
time_left_open :
    (at soon : LocalParts) (e : ScheduleRange) (k : ℕ) {n : ℕ}
    → at.minutes < 1440
    → e.opens < 1440
    → e.closes < 1440
    → soon.minutes < 1440
    → time_left at e ≡ some n
    → k < n
    → Later at k soon
    → is_open_at soon e ≡ true
time_left_open at soon e k m o c m' h l (inl (s, t)) = ground arith
time_left_open at soon e k m o c m' h l (inr (s, t)) = ground arith

-- What a schedule can say: a day of the week, two times within a day, and not the same time twice.
abbrev pub InWeek : ScheduleRange → Type 0
InWeek e = (e.day < 7) × (e.opens < 1440) × (e.closes < 1440) × (e.opens ≢ e.closes)

map-InWeek :
    (opens closes : ℕ) (on : List ℕ)
    → opens < 1440
    → closes < 1440
    → opens ≢ closes
    → All (λ d. d < 7) on
    → All InWeek (map (range_at opens closes) on)
map-InWeek opens closes [] o c ne h = tt
map-InWeek opens closes (d ∷ on) o c ne h = ((h.0, o, c, ne), map-InWeek opens closes on o c ne h.1)

ranges_on-InWeek : (on : List ℕ) (t : Times) → All (λ d. d < 7) on → All InWeek (ranges_on on t)
ranges_on-InWeek on t h =
    elim (Bool-cases (
      ltb 23 t.open_hour
      || ltb 59 t.open_minute
      || ltb 23 t.close_hour
      || ltb 59 t.close_minute
      || open_time t == close_time t)) [
        | inl e ↦ rw e tt
        | inr d ↦ rw d (
            map-InWeek (open_time t) (close_time t) on (ground arith) (ground arith) (ground arith)
              h)
      ]

days_few : All (λ d. d < 7) days
days_few = ground arith

day_prefix_few : (t : Text) {d : ℕ} {rest : Text} → day_prefix t ≡ some (d, rest) → d < 7
day_prefix_few [] h = cc
day_prefix_few (a ∷ []) h = cc
day_prefix_few (a ∷ b ∷ []) h = cc
day_prefix_few (a ∷ b ∷ c ∷ []) h = cc
day_prefix_few (a ∷ b ∷ c ∷ s ∷ more) {d} {rest} h = elim (Bool-cases (s == b' ')) [
  | inr m ↦ let no : none ≡ some (d, rest) = rw m at h in cc no
  | inl m ↦ elim (Option-cases (day_named (a ∷ b ∷ c ∷ []))) [
    | inl n ↦ let no : none ≡ some (d, rest) = rw (m, n) at h in cc no
    | inr (i, n) ↦
        let same : some (i, more) ≡ some (d, rest) = rw (m, n) at h in
        let few : i < 7 =
          find-All (λ e. same_text (day_name e) (a ∷ b ∷ c ∷ [])) (λ e. e < 7) days n days_few in
        subst (λ x. x < 7) (cc same) few
  ]
]

entry_ranges-InWeek : (t : Text) → All InWeek (entry_ranges t)
unfolding entry_ranges
entry_ranges-InWeek t = elim (Option-cases (times_of t)) [
  | inr (x, e) ↦ rw (e, entry_ranges) (ranges_on-InWeek days x days_few)
  | inl n ↦ elim (Option-cases (day_prefix t)) [
    | inl d ↦ rw (n, d, entry_ranges) tt
    | inr (p, d) ↦ elim (Option-cases (times_of p.1)) [
      | inl m ↦ rw (n, d, m, entry_ranges) tt
      | inr (x, m) ↦
          rw (n, d, m, entry_ranges) (ranges_on-InWeek (p.0 ∷ []) x (day_prefix_few t d, tt))
    ]
  ]
]

all_ranges-InWeek : (ts : List Text) → All InWeek (all_ranges ts)
unfolding all_ranges
all_ranges-InWeek [] = tt
all_ranges-InWeek (t ∷ ts) =
    All-append InWeek (entry_ranges (trim t)) (all_ranges ts) (entry_ranges-InWeek (trim t))
      (all_ranges-InWeek ts)

-- Every range that is read from a text names a day of the week and two different times of a day.
parse_schedule-InWeek : (t : Text) → All InWeek (parse_schedule t)
unfolding parse_schedule
parse_schedule-InWeek t = all_ranges-InWeek (split_commas (normalized t))

is_open_at_left : (at : LocalParts) (e : ScheduleRange) → is_open_at at e ≡ is_some (time_left at e)
is_open_at_left at e = ground arith

is_some-shorter : (a b : Option ℕ) → is_some (shorter a b) ≡ (is_some a || is_some b)
is_some-shorter none b = refl
is_some-shorter (some a) none = refl
is_some-shorter (some a) (some b) = refl

any_open_left :
    (at : LocalParts) (es : List ScheduleRange) → any_open at es ≡ is_some (least_left at es)
unfolding any_open least_left
any_open_left at [] = refl
any_open_left at (e ∷ es) =
    rw
      (
        is_open_at_left at e,
        any_open_left at es,
        is_some-shorter (time_left at e) (least_left at es),
      )
      refl

-- `isOpenNow` says that a shop is open exactly when `nextTransition` finds a time until which it is,
-- for any text of its hours and at any time.
pub is_open_now-next_transition :
    (hours : Option Text) (now : ℕ)
    → (is_open_now hours now ≡ some true) ↔ (is_some (next_transition hours now) ≡ true)
unfolding is_open_now next_transition any_open least_left
is_open_now-next_transition hours now =
    elim (entries_of hours)
      as (λ es.
        ((if none_listed es then none else some (any_open (shop_local_parts now) es)) ≡ some true)
        ↔ (is_some (least_left (shop_local_parts now) es) ≡ true)) [
          | [] ↦ (λ h. cc h, λ h. cc h)
          | e ∷ es ↦
              let same = any_open_left (shop_local_parts now) (e ∷ es) in
              (λ h. cc (h, same), λ h. cc (h, same))
        ]

least_left_open :
    (at soon : LocalParts) (es : List ScheduleRange) (k : ℕ) {n : ℕ}
    → at.minutes < 1440
    → soon.minutes < 1440
    → All InWeek es
    → least_left at es ≡ some n
    → k < n
    → Later at k soon
    → any_open soon es ≡ true
unfolding any_open least_left
least_left_open at soon [] k m m' all h l later = cc h
least_left_open at soon (e ∷ es) k {n} m m' all h l later =
    let w = all.0 in
    elim (Option-cases (time_left at e)) [
      | inl a ↦
          let rest : least_left at es ≡ some n = rw a at h in
          rw (least_left_open at soon es k m m' all.1 rest l later) (ground arith)
      | inr (i, a) ↦ elim (Option-cases (least_left at es)) [
        | inl b ↦
            let same : some i ≡ some n = rw (a, b) at h in
            let same_n : i ≡ n = cc same in
            rw (time_left_open at soon e k m w.1 w.2 m' a (omega arith) later) refl
        | inr (j, b) ↦
            let same : some (min i j) ≡ some n = rw (a, b) at h in
            let same_n : min i j ≡ n = cc same in
            rw (time_left_open at soon e k m w.1 w.2 m' a (omega arith) later) refl
      ]
    ]

range_left_few :
    (at : LocalParts) (e : ScheduleRange) {n : ℕ}
    → at.minutes < 1440
    → e.closes < 1440
    → time_left at e ≡ some n
    → at.minutes + n < 2881
range_left_few at e m c h = ground arith

entries_of-InWeek : (hours : Option Text) → All InWeek (entries_of hours)
unfolding entries_of
entries_of-InWeek none = tt
entries_of-InWeek (some text) = elim (Bool-cases (is_empty text)) [
  | inl e ↦ rw e tt
  | inr d ↦ rw d (parse_schedule-InWeek text)
]

said_open :
    (at : LocalParts) (es : List ScheduleRange)
    → any_open at es ≡ true
    → (if none_listed es then none else some (any_open at es)) ≡ some true
unfolding any_open
said_open at [] h = cc h
said_open at (e ∷ es) h = rw h refl

-- What lasts at a minute of a day lasts no longer than two days.
time_left_few :
    (at : LocalParts) (es : List ScheduleRange) {n : ℕ}
    → at.minutes < 1440
    → All InWeek es
    → least_left at es ≡ some n
    → at.minutes + n < 2881
unfolding least_left
time_left_few at [] m all h = cc h
time_left_few at (e ∷ es) {n} m all h = elim (Option-cases (time_left at e)) [
  | inl a ↦ time_left_few at es m all.1 (rw a at h)
  | inr (i, a) ↦
      let few : at.minutes + i < 2881 = range_left_few at e m all.0.2 a in
      elim (Option-cases (least_left at es)) [
        | inl b ↦
            let same : some i ≡ some n = rw (a, b) at h in
            let same_n : i ≡ n = cc same in omega (arith, few)
        | inr (j, b) ↦
            let same : some (min i j) ≡ some n = rw (a, b) at h in
            let same_n : min i j ≡ n = cc same in omega (arith, few)
      ]
]

-- Until its next transition a shop is open, at each minute of the time that is left.
pub open_until_transition :
    (hours : Option Text) (now n k : ℕ)
    → next_transition hours now ≡ some n
    → k < n
    → is_open_now hours (now + k * 60000) ≡ some true
unfolding is_open_now next_transition
open_until_transition hours now n k h l =
    let all = entries_of-InWeek hours in
    let at = shop_local_parts now in
    let few : at.minutes + n < 2881 = time_left_few at (entries_of hours) (omega arith) all h in
    let ms : shop_minutes (now + k * 60000) ≡ shop_minutes now + k = omega arith in
    let open_then : any_open (parts_of (shop_minutes now + k)) (entries_of hours) ≡ true =
      least_left_open at (parts_of (shop_minutes now + k)) (entries_of hours) k (omega arith)
        (omega arith) all h l (parts_of-Later (shop_minutes now) k (omega arith)) in
    rw (ms, said_open (parts_of (shop_minutes now + k)) (entries_of hours) open_then) refl
