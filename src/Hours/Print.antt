-- ===== src/Hours/Print.antt =====
-- Hours that are written as the code writes times and days are read back as they were.
use roadassistapp_be.Base.{
  ℕ, zero, suc, ◌+◌, ◌-◌, ◌*◌, ◌/◌, ◌%◌, ◌<◌, ◌≡◌, refl, sym, ap, subst, ◌∙◌, ◌≢◌, Bool, true,
  false, ◌&&◌, ◌||◌, none, some, List, [], ◌∷◌, ◌++◌, map, arith, ltb, leb, ◌==◌, All, All-map,
}
use roadassistapp_be.Hours.{
  Text, ScheduleRange, day_name, is_space, trim_start, is_empty, trim_end, trim, split_commas,
  join_commas, is_digit, two_digits, times_of, day_named, day_prefix, entry_ranges, all_ranges,
  day_line, normalized, parse_schedule, pad_two, slot_key_for_minutes,
}
use roadassistapp_be.Hours.Laws.{InWeek}

-- The text of a range: its day, and its times as `slotKeyForMinutes` writes them.
abbrev hours_text : ScheduleRange → Text
hours_text e = slot_key_for_minutes e.opens ++ (b'-' ∷ slot_key_for_minutes e.closes)

abbrev pub range_line : ScheduleRange → Text
range_line e = day_line (hours_text e) e.day

unfoldable pub print_schedule : List ScheduleRange → Text
unfolding join_commas
print_schedule es = join_commas (map range_line es)

two_digits_pad : (n : ℕ) (rest : Text) → n < 100 → two_digits (pad_two n ++ rest) ≡ some (n, rest)
two_digits_pad n rest h =
    let a : is_digit (b'0' + n / 10) ≡ true = ground arith in
    let b : is_digit (b'0' + n % 10) ≡ true = ground arith in
    let v : (b'0' + n / 10 - b'0') * 10 + (b'0' + n % 10 - b'0') ≡ n = omega arith in
    rw (a, b, v) refl

times_of-hours_text :
    (e : ScheduleRange)
    → e.opens < 1440
    → e.closes < 1440
    → times_of (hours_text e)
      ≡ some (record {
        open_hour = e.opens / 60;
        open_minute = e.opens % 60;
        close_hour = e.closes / 60;
        close_minute = e.closes % 60;
      })
unfolding times_of
times_of-hours_text e o c =
    let a =
      two_digits_pad (e.opens / 60)
        (b':' ∷ (pad_two (e.opens % 60) ++ (b'-' ∷ slot_key_for_minutes e.closes))) (omega arith) in
    let b = two_digits_pad (e.opens % 60) (b'-' ∷ slot_key_for_minutes e.closes) (omega arith) in
    let x = two_digits_pad (e.closes / 60) (b':' ∷ pad_two (e.closes % 60)) (omega arith) in
    let y = two_digits_pad (e.closes % 60) [] (omega arith) in rw (times_of, a, b, x, y) refl

-- A character of a time of day: a digit, a colon or a dash, hence no comma and no blank.
abbrev plain : ℕ → Bool
plain c = leb b'-' c && leb c b':'

plain_comma : (c : ℕ) → plain c ≡ true → (c == b',') ≡ false
plain_comma c h = ground arith

plain_space : (c : ℕ) → plain c ≡ true → is_space c ≡ false
plain_space c h = ground arith

plain_digit : (n : ℕ) → n < 10 → plain (b'0' + n) ≡ true
plain_digit n h = ground arith

hours_text-plain :
    (e : ScheduleRange)
    → e.opens < 1440
    → e.closes < 1440
    → All (λ c. plain c ≡ true) (hours_text e)
hours_text-plain e o c = (
  plain_digit (e.opens / 60 / 10) (omega arith),
  (
    plain_digit (e.opens / 60 % 10) (omega arith),
    (
      refl,
      (
        plain_digit (e.opens % 60 / 10) (omega arith),
        (
          plain_digit (e.opens % 60 % 10) (omega arith),
          (
            refl,
            (
              plain_digit (e.closes / 60 / 10) (omega arith),
              (
                plain_digit (e.closes / 60 % 10) (omega arith),
                (
                  refl,
                  (
                    plain_digit (e.closes % 60 / 10) (omega arith),
                    (plain_digit (e.closes % 60 % 10) (omega arith), tt),
                  ),
                ),
              ),
            ),
          ),
        ),
      ),
    ),
  ),
)

-- Each day has a name of three letters, by which it is found.
abbrev IsNamed : ℕ → Type 0
IsNamed d =
    (a b c : ℕ) × (day_name d ≡ a ∷ b ∷ c ∷ [])
    × (day_named (a ∷ b ∷ c ∷ []) ≡ some d)
    × (leb b'A' a && leb a b'Z' ≡ true)
    × (leb b'A' b && leb b b'Z' ≡ true)
    × (leb b'A' c && leb c b'Z' ≡ true)

day_IsNamed : (d : ℕ) → d < 7 → IsNamed d
day_IsNamed zero h = (b'S', b'U', b'N', refl, refl, refl, refl, refl)
day_IsNamed (suc zero) h = (b'M', b'O', b'N', refl, refl, refl, refl, refl)
day_IsNamed (suc (suc zero)) h = (b'T', b'U', b'E', refl, refl, refl, refl, refl)
day_IsNamed (suc (suc (suc zero))) h = (b'W', b'E', b'D', refl, refl, refl, refl, refl)
day_IsNamed (suc (suc (suc (suc zero)))) h = (b'T', b'H', b'U', refl, refl, refl, refl, refl)
day_IsNamed (suc (suc (suc (suc (suc zero))))) h = (b'F', b'R', b'I', refl, refl, refl, refl, refl)
day_IsNamed (suc (suc (suc (suc (suc (suc zero)))))) h =
    (b'S', b'A', b'T', refl, refl, refl, refl, refl)
day_IsNamed (suc (suc (suc (suc (suc (suc (suc d))))))) h = absurd (omega arith)

letter_comma : (c : ℕ) → leb b'A' c && leb c b'Z' ≡ true → (c == b',') ≡ false
letter_comma c h = ground arith

letter_space : (c : ℕ) → leb b'A' c && leb c b'Z' ≡ true → is_space c ≡ false
letter_space c h = ground arith

letter_digit : (c : ℕ) → leb b'A' c && leb c b'Z' ≡ true → is_digit c ≡ false
letter_digit c h = ground arith

-- A text that starts with a letter has no times in front.
times_of-letter : (c : ℕ) (t : Text) → leb b'A' c && leb c b'Z' ≡ true → times_of (c ∷ t) ≡ none
unfolding times_of
times_of-letter c [] h = refl
times_of-letter c (d ∷ t) h = rw (times_of, letter_digit c h) refl

range_line_shape :
    (e : ScheduleRange) {a b c : ℕ}
    → day_name e.day ≡ a ∷ b ∷ c ∷ []
    → range_line e ≡ a ∷ b ∷ c ∷ b' ' ∷ hours_text e
range_line_shape e h = ap (λ t. t ++ (b' ' ∷ hours_text e)) h

times_are_good :
    (o c : ℕ)
    → o < 1440
    → c < 1440
    → o ≢ c
    → (ltb 23 (o / 60) || ltb 59 (o % 60) || ltb 23 (c / 60) || ltb 59 (c % 60) || o == c) ≡ false
times_are_good o c h k ne =
    let a : ltb 23 (o / 60) ≡ false = ground arith in
    let b : ltb 59 (o % 60) ≡ false = ground arith in
    let x : ltb 23 (c / 60) ≡ false = ground arith in
    let y : ltb 59 (c % 60) ≡ false = ground arith in
    let z : (o == c) ≡ false = ground arith in rw (a, b, x, y, z) refl

entry_ranges_named :
    (e : ScheduleRange) (a b c : ℕ)
    → InWeek e
    → leb b'A' a && leb a b'Z' ≡ true
    → day_named (a ∷ b ∷ c ∷ []) ≡ some e.day
    → entry_ranges (a ∷ b ∷ c ∷ b' ' ∷ hours_text e) ≡ e ∷ []
unfolding entry_ranges
entry_ranges_named e a b c w letter named =
    let t = times_of-hours_text e w.1 w.2 in
    let none_first = times_of-letter a (b ∷ c ∷ b' ' ∷ hours_text e) letter in
    let prefix : day_prefix (a ∷ b ∷ c ∷ b' ' ∷ hours_text e) ≡ some (e.day, hours_text e) =
      rw named refl in
    let keep_open : e.opens / 60 * 60 + e.opens % 60 ≡ e.opens = omega arith in
    let keep_close : e.closes / 60 * 60 + e.closes % 60 ≡ e.closes = omega arith in
    let good = times_are_good e.opens e.closes w.1 w.2 w.3 in
    rw (entry_ranges, none_first, prefix, t, keep_open, keep_close, good) refl

entry_ranges-range_line : (e : ScheduleRange) → InWeek e → entry_ranges (range_line e) ≡ e ∷ []
entry_ranges-range_line e w =
    let (a, b, c, name, named, x, y, z) = day_IsNamed e.day w.0 in
    ap entry_ranges (range_line_shape e name) ∙ entry_ranges_named e a b c w x named

and_false : (b : Bool) → (b && false) ≡ false
and_false true = refl
and_false false = refl

append_nonempty : (xs ys : Text) → is_empty ys ≡ false → is_empty (xs ++ ys) ≡ false
append_nonempty [] ys h = h
append_nonempty (x ∷ xs) ys h = refl

trim_end_append :
    (xs ys : Text) → trim_end ys ≡ ys → is_empty ys ≡ false → trim_end (xs ++ ys) ≡ xs ++ ys
unfolding trim_end
trim_end_append [] ys h n = h
trim_end_append (x ∷ xs) ys h n =
    let more : is_empty (xs ++ ys) ≡ false = append_nonempty xs ys n in
    rw (trim_end_append xs ys h n, more) refl

trim_end-plain : (t : Text) → All (λ c. plain c ≡ true) t → trim_end t ≡ t
unfolding trim_end
trim_end-plain [] h = refl
trim_end-plain (c ∷ t) h = rw (trim_end-plain t h.1, plain_space c h.0, and_false (is_empty t)) refl

-- The white space around a text that starts with a letter is behind it.
trim_letter : (a : ℕ) (t : Text) → leb b'A' a && leb a b'Z' ≡ true → trim (a ∷ t) ≡ a ∷ trim_end t
unfolding trim trim_start trim_end
trim_letter a t h =
    let s = letter_space a h in rw (trim, s, trim_end, s, and_false (is_empty (trim_end t))) refl

trim-range_line : (e : ScheduleRange) → InWeek e → trim (range_line e) ≡ range_line e
trim-range_line e w =
    let (a, b, c, name, named, x, y, z) = day_IsNamed e.day w.0 in
    let shape = range_line_shape e name in
    let plain_end = trim_end-plain (hours_text e) (hours_text-plain e w.1 w.2) in
    ap trim shape
    ∙ trim_letter a (b ∷ c ∷ b' ' ∷ hours_text e) x
    ∙ ap (λ t. a ∷ t) (trim_end_append (b ∷ c ∷ b' ' ∷ []) (hours_text e) plain_end refl)
    ∙ sym shape

abbrev NoComma : Text → Type 0
NoComma t = All (λ c. (c == b',') ≡ false) t

range_line-NoComma : (e : ScheduleRange) → InWeek e → NoComma (range_line e)
range_line-NoComma e w =
    let (a, b, c, name, named, x, y, z) = day_IsNamed e.day w.0 in
    let rest =
      All-map (λ q. plain q ≡ true) (λ q. (q == b',') ≡ false) plain_comma (hours_text e)
        (hours_text-plain e w.1 w.2) in
    subst NoComma (sym (range_line_shape e name))
      (letter_comma a x, (letter_comma b y, (letter_comma c z, (refl, rest))))

split_commas_free : (t : Text) → NoComma t → split_commas t ≡ t ∷ []
unfolding split_commas
split_commas_free [] h = refl
split_commas_free (c ∷ t) h = rw (split_commas_free t h.1, h.0) refl

split_commas_first :
    (t rest : Text) → NoComma t → split_commas (t ++ (b',' ∷ rest)) ≡ t ∷ split_commas rest
unfolding split_commas
split_commas_first [] rest h = refl
split_commas_first (c ∷ t) rest h = rw (split_commas_first t rest h.1, h.0) refl

split_commas-print_schedule :
    (e : ScheduleRange) (es : List ScheduleRange)
    → InWeek e
    → All InWeek es
    → split_commas (print_schedule (e ∷ es)) ≡ map range_line (e ∷ es)
unfolding print_schedule join_commas
split_commas-print_schedule e [] w ws = split_commas_free (range_line e) (range_line-NoComma e w)
split_commas-print_schedule e (f ∷ es) w ws =
    split_commas_first (range_line e) (print_schedule (f ∷ es)) (range_line-NoComma e w)
    ∙ ap (λ ts. range_line e ∷ ts) (split_commas-print_schedule f es ws.0 ws.1)

all_ranges-range_line :
    (es : List ScheduleRange) → All InWeek es → all_ranges (map range_line es) ≡ es
unfolding all_ranges
all_ranges-range_line [] h = refl
all_ranges-range_line (e ∷ es) h =
    ap (λ t. entry_ranges t ++ all_ranges (map range_line es)) (trim-range_line e h.0)
    ∙ ap (λ r. r ++ all_ranges (map range_line es)) (entry_ranges-range_line e h.0)
    ∙ ap (λ r. e ∷ r) (all_ranges-range_line es h.1)

append_nil : (t : Text) → t ++ [] ≡ t
append_nil [] = refl
append_nil (c ∷ t) = ap (λ u. c ∷ u) (append_nil t)

-- A schedule starts with the letter of a day, so that it is not hours without a day.
print_schedule_first :
    (e : ScheduleRange) (es : List ScheduleRange)
    → (t : Text) × (print_schedule (e ∷ es) ≡ range_line e ++ t)
unfolding print_schedule join_commas
print_schedule_first e [] = ([], sym (append_nil (range_line e)))
print_schedule_first e (f ∷ es) = (b',' ∷ print_schedule (f ∷ es), refl)

normalized-print_schedule :
    (e : ScheduleRange) (es : List ScheduleRange)
    → InWeek e
    → normalized (print_schedule (e ∷ es)) ≡ print_schedule (e ∷ es)
unfolding normalized
normalized-print_schedule e es w =
    let (a, b, c, name, named, x, y, z) = day_IsNamed e.day w.0 in
    let (t, first) = print_schedule_first e es in
    let rest = b ∷ c ∷ b' ' ∷ (hours_text e ++ t) in
    let shape : print_schedule (e ∷ es) ≡ a ∷ rest =
      first ∙ ap (λ u. u ++ t) (range_line_shape e name) in
    let bare : times_of (trim (print_schedule (e ∷ es))) ≡ none =
      ap (λ u. times_of (trim u)) shape
      ∙ ap times_of (trim_letter a rest x)
      ∙ times_of-letter a (trim_end rest) x in
    rw (normalized, bare) refl

-- A schedule that is written in the form of the code, each range on a day of the week with two
-- different times of a day, is read back as it was.
pub parse_schedule-print_schedule :
    (es : List ScheduleRange) → All InWeek es → parse_schedule (print_schedule es) ≡ es
unfolding parse_schedule print_schedule
parse_schedule-print_schedule [] h = refl
parse_schedule-print_schedule (e ∷ es) h =
    ap (λ t. all_ranges (split_commas t)) (normalized-print_schedule e es h.0)
    ∙ ap all_ranges (split_commas-print_schedule e es h.0 h.1)
    ∙ all_ranges-range_line (e ∷ es) h
