-- ===== src/Reservations/Hours.antt =====
-- The opening hours of app/services/reservations.py. A local instant is the reading of the wall
-- clock in microseconds since 1970-01-01 00:00, a `time` the microseconds since midnight.
use naicha_backend.Database.{minute}
use naicha_backend.Models.Rows.{DayHours, RawRange, malformed, texts}
use naicha_backend.Prelude.{
  Bool, List, Option, [], codes, false, if◌then◌else◌, leb, ltb, max, none, select, some, sort_by,
  true, ℕ, ◌%◌, ◌&&◌, ◌*◌, ◌++◌, ◌+◌, ◌-◌, ◌/◌, ◌==◌, ◌||◌, ◌∷◌,
}

abbrev pub day : ℕ
day = 86400000000

abbrev pub date_of : ℕ → ℕ
date_of local = local / day

-- `isoweekday`: 1970-01-01 was a Thursday.
unfoldable pub isoweekday : ℕ → ℕ
isoweekday date = (date + 3) % 7 + 1

abbrev pub is_space : ℕ → Bool
is_space c = c == 32 || leb 9 c && leb c 13

abbrev is_digit : ℕ → Bool
is_digit c = leb b'0' c && leb c b'9'

skip_spaces : List ℕ → List ℕ
skip_spaces [] = []
skip_spaces (c ∷ cs) = let rest = skip_spaces cs in if is_space c then rest else c ∷ cs

-- The digits of `int(text)`, with single underscores between them and spaces behind.
digits_from : ℕ → Bool → List ℕ → Option ℕ
digits_from n after_digit [] = if after_digit then some n else none
digits_from n after_digit (c ∷ cs) =
    let next = digits_from (n * 10 + (c - b'0')) true cs in
    let gap = digits_from n false cs in
    if is_digit c
    then next
    else if c == b'_' && after_digit
    then gap
    else elim (skip_spaces (c ∷ cs)) [ [] ↦ if after_digit then some n else none | _ ∷ _ ↦ none ]

-- The optional sign of `int(text)`; a number below zero is no hour and no minute.
signed : List ℕ → Option ℕ
signed [] = none
signed (c ∷ cs) =
    if c == b'+'
    then digits_from 0 false cs
    else if c == b'-'
    then elim (digits_from 0 false cs) [ none ↦ none | some n ↦ if n == 0 then some 0 else none ]
    else digits_from 0 false (c ∷ cs)

-- `int(text)`; `none` is ValueError, or a number below zero.
unfoldable pub parse_int : List ℕ → Option ℕ
unfolding skip_spaces digits_from signed
parse_int text = signed (skip_spaces text)

-- `text.split(":", 1)`, where the text has a colon.
unfoldable pub split_colon : List ℕ → Option (List ℕ × List ℕ)
split_colon [] = none
split_colon (c ∷ cs) =
    let rest = split_colon cs in
    if c == b':' then some ([], cs) else elim rest [ none ↦ none | some (a, b) ↦ some (c ∷ a, b) ]

-- `_parse_time`, in microseconds since midnight.
unfoldable pub parse_time : List ℕ → Option ℕ
unfolding split_colon parse_int
parse_time text = elim (split_colon text) [
  | none ↦ none
  | some (h, m) ↦ elim (parse_int h) [
    | none ↦ none
    | some hour ↦ elim (parse_int m) [
      | none ↦ none
      | some min_ ↦ if ltb hour 24 && ltb min_ 60 then some ((hour * 60 + min_) * minute) else none
    ]
  ]
]

abbrev Range : Type 0
Range = ℕ × ℕ

-- The well-formed ranges of one entry.
unfoldable pub entry_ranges : List RawRange → List Range
unfolding parse_time
entry_ranges [] = []
entry_ranges (malformed ∷ rs) = entry_ranges rs
entry_ranges (texts a b ∷ rs) = elim (parse_time (codes a)) [
  | none ↦ entry_ranges rs
  | some start ↦ elim (parse_time (codes b)) [
    | none ↦ entry_ranges rs
    | some end ↦ (start, end) ∷ entry_ranges rs
  ]
]

abbrev pub has_weekday : ℕ → DayHours → Bool
has_weekday weekday entry = elim entry.weekday [ none ↦ false | some w ↦ w == weekday ]

unfoldable pub ranges_of : List DayHours → List Range
unfolding entry_ranges
ranges_of [] = []
ranges_of (e ∷ es) = entry_ranges e.ranges ++ ranges_of es

-- The order of a list of pairs of times.
abbrev pub range_index : Range → ℕ
range_index (start, end) = start * day + end

abbrev pub or_else : List Range → List Range → List Range
or_else [] rs = rs
or_else (r ∷ rs) _ = r ∷ rs

-- `_iter_ranges_for_weekday`; without an entry for the day, the ranges of all entries.
unfoldable pub iter_ranges_for_weekday : List DayHours → ℕ → List Range
unfolding ranges_of
iter_ranges_for_weekday hours weekday =
    or_else (sort_by range_index (ranges_of (select (has_weekday weekday) hours)))
      (sort_by range_index (ranges_of hours))

-- The loop of `_within_open_hours`, on the ranges of the day of the target.
unfoldable pub within_ranges : ℕ → List Range → Bool
within_ranges target [] = false
within_ranges target ((start, end) ∷ rs) =
    let midnight = date_of target * day in
    leb (midnight + start) target && leb target (midnight + end) || within_ranges target rs

-- `_within_open_hours`
unfoldable pub within_open_hours : ℕ → List DayHours → Bool
unfolding within_ranges
within_open_hours target hours =
    within_ranges target (iter_ranges_for_weekday hours (isoweekday (date_of target)))

-- The rest of the day: the first range that has not ended.
unfoldable pub later_today : ℕ → List Range → Option ℕ
later_today target [] = none
later_today target ((start, end) ∷ rs) =
    let rest = later_today target rs in
    let midnight = date_of target * day in
    if leb target (midnight + end)
    then some (if ltb target (midnight + start) then midnight + start else target)
    else rest

-- The first range of the next day.
unfoldable pub first_tomorrow : ℕ → List Range → Option ℕ
first_tomorrow target [] = none
first_tomorrow target ((start, end) ∷ rs) = some ((date_of target + 1) * day + start)

-- `_align_to_open_hours`
unfoldable pub align_to_open_hours : ℕ → List DayHours → Option ℕ
unfolding within_open_hours later_today first_tomorrow
align_to_open_hours target hours =
    let weekday = isoweekday (date_of target) in
    if within_open_hours target hours
    then some target
    else elim (later_today target (iter_ranges_for_weekday hours weekday)) [
      | some t ↦ some t
      | none ↦ first_tomorrow target (iter_ranges_for_weekday hours (weekday % 7 + 1))
    ]

-- `_floor_to_slot`: the minute within its hour, rounded down; seconds and below dropped.
unfoldable pub floor_to_slot : ℕ → ℕ → ℕ
floor_to_slot target slot_minutes =
    let step = max slot_minutes 1 in
    let hour = target / (60 * minute) in
    let minute_ = target / minute % 60 in (hour * 60 + minute_ / step * step) * minute
