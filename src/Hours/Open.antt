-- ===== src/Hours/Open.antt =====
-- `isOpenNow` and `nextTransition` of service/provider/schedule.ts.
use roadassistapp_be.Base.{
  ℕ, ◌+◌, ◌-◌, ◌*◌, ◌/◌, ◌%◌, min, Bool, true, false, ◌&&◌, ◌||◌, Option, none, some, List, [], ◌∷◌,
  ltb, leb, ◌==◌, if◌then◌else◌,
}
use roadassistapp_be.Hours.{Text, ScheduleRange, is_empty, parse_schedule}

-- `shopLocalParts`: the day and the minute of a time in milliseconds.
pub record LocalParts : Type 0 where
  pub day : ℕ
  pub minutes : ℕ

-- The minutes since 1970, a Thursday, seven hours ahead of UTC.
abbrev pub shop_minutes : ℕ → ℕ
shop_minutes now = (now + 7 * 60 * 60000) / 60000

abbrev pub parts_of : ℕ → LocalParts
parts_of t = record { day = (t / 1440 + 4) % 7; minutes = t % 1440 }

abbrev pub shop_local_parts : ℕ → LocalParts
shop_local_parts now = parts_of (shop_minutes now)

abbrev pub yesterday : LocalParts → ℕ
yesterday at = (at.day + 6) % 7

abbrev pub is_open_at : LocalParts → ScheduleRange → Bool
is_open_at at e =
    e.day == at.day
      && (if leb e.opens e.closes
          then leb e.opens at.minutes && ltb at.minutes e.closes
          else leb e.opens at.minutes)
    || ltb e.closes e.opens && e.day == yesterday at && ltb at.minutes e.closes

unfoldable pub any_open : LocalParts → List ScheduleRange → Bool
any_open at [] = false
any_open at (e ∷ es) = is_open_at at e || any_open at es

-- The hours of a shop that says any: a text, not empty, with an entry that can be read.
unfoldable pub entries_of : Option Text → List ScheduleRange
unfolding parse_schedule
entries_of none = []
entries_of (some text) = if is_empty text then [] else parse_schedule text

abbrev pub none_listed : List ScheduleRange → Bool
none_listed [] = true
none_listed (e ∷ es) = false

-- `isOpenNow`
unfoldable pub is_open_now : Option Text → ℕ → Option Bool
unfolding entries_of any_open
is_open_now hours now =
    if none_listed (entries_of hours)
    then none
    else some (any_open (shop_local_parts now) (entries_of hours))

-- How long an entry still lasts.
abbrev pub time_left : LocalParts → ScheduleRange → Option ℕ
time_left at e =
    if e.day == at.day && leb e.opens e.closes
    then (if leb e.opens at.minutes && ltb at.minutes e.closes
        then some (e.closes - at.minutes)
        else none)
    else if ltb e.closes e.opens
    then (if e.day == at.day && leb e.opens at.minutes
        then some (1440 - at.minutes + e.closes)
        else if e.day == yesterday at && ltb at.minutes e.closes
        then some (e.closes - at.minutes)
        else none)
    else none

abbrev pub shorter : Option ℕ → Option ℕ → Option ℕ
shorter none b = b
shorter (some a) none = some a
shorter (some a) (some b) = some (min a b)

unfoldable pub least_left : LocalParts → List ScheduleRange → Option ℕ
least_left at [] = none
least_left at (e ∷ es) = shorter (time_left at e) (least_left at es)

-- `nextTransition`
unfoldable pub next_transition : Option Text → ℕ → Option ℕ
unfolding entries_of least_left
next_transition hours now = least_left (shop_local_parts now) (entries_of hours)
