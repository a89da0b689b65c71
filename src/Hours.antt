-- ===== src/Hours.antt =====
-- service/provider/schedule.ts: the opening hours of a shop, from their text. A text is the list of its code units;
-- a day is its position in DOW_KEYS, and a time a count of minutes.
pub mod Open
pub mod Laws
pub mod Print
use roadassistapp_be.Base.{
  ℕ, zero, suc, ◌+◌, ◌-◌, ◌*◌, ◌/◌, ◌%◌, Bool, true, false, ◌&&◌, ◌||◌, Option, none, some, List,
  [], ◌∷◌, ◌++◌, map, ltb, leb, ◌==◌, if◌then◌else◌, is_some, find,
}

abbrev pub Text : Type 0
Text = List ℕ

pub record ScheduleRange : Type 0 where
  pub day : ℕ
  pub opens : ℕ
  pub closes : ℕ

-- DOW_KEYS
abbrev day_names : List Text
day_names =
    (b'S' ∷ b'U' ∷ b'N' ∷ [])
    ∷ (b'M' ∷ b'O' ∷ b'N' ∷ [])
    ∷ (b'T' ∷ b'U' ∷ b'E' ∷ [])
    ∷ (b'W' ∷ b'E' ∷ b'D' ∷ [])
    ∷ (b'T' ∷ b'H' ∷ b'U' ∷ [])
    ∷ (b'F' ∷ b'R' ∷ b'I' ∷ [])
    ∷ (b'S' ∷ b'A' ∷ b'T' ∷ [])
    ∷ []

abbrev name_at : ℕ → List Text → Text
name_at d [] = []
name_at zero (t ∷ ts) = t
name_at (suc d) (t ∷ ts) = name_at d ts

-- `DOW_KEYS[day] ?? ""`
abbrev pub day_name : ℕ → Text
day_name day = name_at day day_names

abbrev pub days : List ℕ
days = 0 ∷ 1 ∷ 2 ∷ 3 ∷ 4 ∷ 5 ∷ 6 ∷ []

-- The white space that `trim` strips.
abbrev pub is_space : ℕ → Bool
is_space c =
    leb 9 c && leb c 13
    || c == 32
    || c == 160
    || c == 5760
    || leb 8192 c && leb c 8202
    || c == 8232
    || c == 8233
    || c == 8239
    || c == 8287
    || c == 12288
    || c == 65279

unfoldable pub trim_start : Text → Text
trim_start [] = []
trim_start (c ∷ cs) = let rest = trim_start cs in if is_space c then rest else c ∷ cs

abbrev pub is_empty : Text → Bool
is_empty [] = true
is_empty (c ∷ cs) = false

unfoldable pub trim_end : Text → Text
trim_end [] = []
trim_end (c ∷ cs) = let rest = trim_end cs in if is_empty rest && is_space c then [] else c ∷ rest

unfoldable pub trim : Text → Text
unfolding trim_start trim_end
trim t = trim_end (trim_start t)

abbrev cons_first : ℕ → List Text → List Text
cons_first c [] = (c ∷ []) ∷ []
cons_first c (t ∷ ts) = (c ∷ t) ∷ ts

-- `split(",")`
unfoldable pub split_commas : Text → List Text
split_commas [] = [] ∷ []
split_commas (c ∷ cs) =
    let rest = split_commas cs in if c == b',' then [] ∷ rest else cons_first c rest

-- `join(",")`
unfoldable pub join_commas : List Text → Text
join_commas [] = []
join_commas (t ∷ []) = t
join_commas (t ∷ u ∷ ts) = t ++ (b',' ∷ join_commas (u ∷ ts))

abbrev is_digit : ℕ → Bool
is_digit c = leb b'0' c && leb c b'9'

-- `(\d{2})`, and what follows it.
abbrev two_digits : Text → Option (ℕ × Text)
two_digits (a ∷ b ∷ rest) =
    if is_digit a && is_digit b then some ((a - b'0') * 10 + (b - b'0'), rest) else none
two_digits _ = none

-- One character of a pattern, and what follows it.
abbrev skip : ℕ → Text → Option Text
skip c [] = none
skip c (x ∷ xs) = if x == c then some xs else none

-- The four numbers of `HH:MM-HH:MM`.
pub record Times : Type 0 where
  pub open_hour : ℕ
  pub open_minute : ℕ
  pub close_hour : ℕ
  pub close_minute : ℕ

-- `/^(\d{2}):(\d{2})-(\d{2}):(\d{2})$/`
unfoldable pub times_of : Text → Option Times
times_of t0 = elim (two_digits t0) [
  | none ↦ none
  | some (a, t1) ↦ elim (skip b':' t1) [
    | none ↦ none
    | some t2 ↦ elim (two_digits t2) [
      | none ↦ none
      | some (b, t3) ↦ elim (skip b'-' t3) [
        | none ↦ none
        | some t4 ↦ elim (two_digits t4) [
          | none ↦ none
          | some (c, t5) ↦ elim (skip b':' t5) [
            | none ↦ none
            | some t6 ↦ elim (two_digits t6) [
              | none ↦ none
              | some (d, t7) ↦
                  if is_empty t7
                  then some
                      (record { open_hour = a; open_minute = b; close_hour = c; close_minute = d })
                  else none
            ]
          ]
        ]
      ]
    ]
  ]
]

abbrev same_text : Text → Text → Bool
same_text [] [] = true
same_text (x ∷ xs) (y ∷ ys) = x == y && same_text xs ys
same_text _ _ = false

-- The day of a name: `MON|TUE|WED|THU|FRI|SAT|SUN`.
abbrev day_named : Text → Option ℕ
day_named t = find (λ d. same_text (day_name d) t) days

-- The day and the blank of an entry, and what follows them.
abbrev day_prefix : Text → Option (ℕ × Text)
day_prefix (a ∷ b ∷ c ∷ s ∷ rest) =
    if s == b' '
    then elim (day_named (a ∷ b ∷ c ∷ [])) [ none ↦ none | some d ↦ some (d, rest) ]
    else none
day_prefix _ = none

abbrev pub range_at : ℕ → ℕ → ℕ → ScheduleRange
range_at opens closes day = record { day = day; opens = opens; closes = closes }

abbrev open_time : Times → ℕ
open_time t = t.open_hour * 60 + t.open_minute

abbrev close_time : Times → ℕ
close_time t = t.close_hour * 60 + t.close_minute

-- The ranges of an entry for some days; none for an hour that does not exist, or an empty range.
abbrev ranges_on : List ℕ → Times → List ScheduleRange
ranges_on on t =
    if ltb 23 t.open_hour
      || ltb 59 t.open_minute
      || ltb 23 t.close_hour
      || ltb 59 t.close_minute
      || open_time t == close_time t
    then []
    else map (range_at (open_time t) (close_time t)) on

unfoldable pub entry_ranges : Text → List ScheduleRange
unfolding times_of
entry_ranges text = elim (times_of text) [
  | some t ↦ ranges_on days t
  | none ↦ elim (day_prefix text) [
    | none ↦ []
    | some (d, rest) ↦ elim (times_of rest) [ none ↦ [] | some t ↦ ranges_on (d ∷ []) t ]
  ]
]

unfoldable pub all_ranges : List Text → List ScheduleRange
unfolding entry_ranges trim
all_ranges [] = []
all_ranges (t ∷ ts) = entry_ranges (trim t) ++ all_ranges ts

-- A day's line of a schedule.
abbrev pub day_line : Text → ℕ → Text
day_line times day = day_name day ++ (b' ' ∷ times)

-- Hours without a day are those of every day.
unfoldable pub normalized : Text → Text
unfolding trim times_of join_commas
normalized text =
    if is_some (times_of (trim text)) then join_commas (map (day_line (trim text)) days) else text

-- `parseSchedule`
unfoldable pub parse_schedule : Text → List ScheduleRange
unfolding normalized split_commas all_ranges
parse_schedule text = all_ranges (split_commas (normalized text))

-- `padStart(2, "0")` of a number below 100.
abbrev pub pad_two : ℕ → Text
pad_two n = (b'0' + n / 10) ∷ (b'0' + n % 10) ∷ []

-- `slotKeyForMinutes` of service/booking/slots.ts: how a time of day is written.
abbrev pub slot_key_for_minutes : ℕ → Text
slot_key_for_minutes m = pad_two (m / 60) ++ (b':' ∷ pad_two (m % 60))
