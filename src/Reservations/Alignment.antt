-- ===== src/Reservations/Alignment.antt =====
-- Where `_align_to_open_hours` and `_floor_to_slot` put an instant.
use native.Mathlib.Nat.{div-add-mod, div-mul-le_self, lt-div-mul-add, mod-lt, mul-div_cancel}
use naicha_backend.Database.{minute}
use naicha_backend.Locks.Sections.{closed}
use naicha_backend.Models.Rows.{DayHours}
use naicha_backend.Prelude.{
  All, All-append, All-select, All-sort_by, Bool-cases, List, Option-cases, [], ap, arith, inl, inr,
  length, length-sort_by, max, refl, select, some, sort_by, subst, true, ℕ, ◌%◌, ◌*◌, ◌+◌, ◌/◌, ◌<◌,
  ◌∷◌, ◌≡◌, ◌≤◌,
}
use naicha_backend.Reservations.Hours.{
  align_to_open_hours, date_of, day, entry_ranges, first_tomorrow, floor_to_slot, has_weekday,
  isoweekday, iter_ranges_for_weekday, later_today, or_else, range_index, ranges_of,
  within_open_hours, within_ranges,
}
use naicha_backend.Want.Days.{within}

-- A range of one day that does not run past midnight.
abbrev pub IsOrdered : ℕ × ℕ → Type 0
IsOrdered (start, end) = (start ≤ end) × (end < day)

-- The ranges of every entry are ordered.
abbrev pub HasOrderedRanges : List DayHours → Type 0
HasOrderedRanges hours = All (λ (e : DayHours). All IsOrdered (entry_ranges e.ranges)) hours

ranges_of-IsOrdered :
    (hours : List DayHours) → HasOrderedRanges hours → All IsOrdered (ranges_of hours)
unfolding ranges_of
ranges_of-IsOrdered [] h = tt
ranges_of-IsOrdered (e ∷ es) h =
    All-append IsOrdered (entry_ranges e.ranges) (ranges_of es) h.0 (ranges_of-IsOrdered es h.1)

or_else-IsOrdered :
    (rs ss : List (ℕ × ℕ)) → All IsOrdered rs → All IsOrdered ss → All IsOrdered (or_else rs ss)
or_else-IsOrdered [] ss h k = k
or_else-IsOrdered (r ∷ rs) ss h k = h

iter_ranges-IsOrdered :
    (hours : List DayHours) (weekday : ℕ)
    → HasOrderedRanges hours
    → All IsOrdered (iter_ranges_for_weekday hours weekday)
unfolding iter_ranges_for_weekday
iter_ranges-IsOrdered hours weekday h =
    let chosen = select (has_weekday weekday) hours in
    or_else-IsOrdered (sort_by range_index (ranges_of chosen))
      (sort_by range_index (ranges_of hours))
      (All-sort_by IsOrdered range_index (ranges_of chosen) (
        ranges_of-IsOrdered chosen (
          All-select (λ (e : DayHours). All IsOrdered (entry_ranges e.ranges)) (has_weekday weekday)
            hours h)))
      (All-sort_by IsOrdered range_index (ranges_of hours) (ranges_of-IsOrdered hours h))

later_today-ge : (target u : ℕ) (rs : List (ℕ × ℕ)) → later_today target rs ≡ some u → target ≤ u
unfolding later_today
later_today-ge target u [] e = absurd (ground arith)
later_today-ge target u ((start, end) ∷ rs) e = ground (arith, later_today-ge target u rs)

before_midnight : (target : ℕ) → target < (date_of target + 1) * day
before_midnight target =
    omega (arith, mod-lt target {m = day} (omega arith), div-add-mod target day)

first_tomorrow-gt :
    (target u : ℕ) (rs : List (ℕ × ℕ)) → first_tomorrow target rs ≡ some u → target < u
unfolding first_tomorrow
first_tomorrow-gt target u [] e = absurd (ground arith)
first_tomorrow-gt target u ((start, end) ∷ rs) e = ground (arith, before_midnight target)

date_of-on : (d t : ℕ) → t < day → date_of (d * day + t) ≡ d
date_of-on d t h =
    omega (arith, h, div-add-mod (d * day + t) day, mod-lt (d * day + t) {m = day} (omega arith))

later_today-within :
    (target u : ℕ) (rs : List (ℕ × ℕ))
    → All IsOrdered rs
    → later_today target rs ≡ some u
    → (date_of u ≡ date_of target) × (within_ranges u rs ≡ true)
unfolding later_today within_ranges
later_today-within target u [] h e = absurd (ground arith)
later_today-within target u ((start, end) ∷ rs) h e =
    let same_day = date_of-on (date_of target) start in
    let rest = later_today-within target u rs h.1 in
    (ground (arith, rest, same_day), ground (arith, rest, same_day))

first_tomorrow-within :
    (target u : ℕ) (rs : List (ℕ × ℕ))
    → All IsOrdered rs
    → first_tomorrow target rs ≡ some u
    → (date_of u ≡ date_of target + 1) × (within_ranges u rs ≡ true)
unfolding first_tomorrow within_ranges
first_tomorrow-within target u [] h e = absurd (ground arith)
first_tomorrow-within target u ((start, end) ∷ rs) h e =
    let next_day = date_of-on (date_of target + 1) start in
    (ground (arith, next_day), ground (arith, next_day))

weekday_of_tomorrow : (d : ℕ) → isoweekday (d + 1) ≡ isoweekday d % 7 + 1
unfolding isoweekday
weekday_of_tomorrow d = omega arith

within_open_hours-on :
    (hours : List DayHours) (u d : ℕ)
    → date_of u ≡ d
    → within_ranges u (iter_ranges_for_weekday hours (isoweekday d)) ≡ true
    → within_open_hours u hours ≡ true
unfolding within_open_hours
within_open_hours-on hours u d on h = rw on h

align_to_open_hours-open :
    (hours : List DayHours) (target u : ℕ)
    → HasOrderedRanges hours
    → align_to_open_hours target hours ≡ some u
    → (target ≤ u) × (date_of u ≤ date_of target + 1) × (within_open_hours u hours ≡ true)
unfolding align_to_open_hours
align_to_open_hours-open hours target u h e =
    let d = date_of target in
    let today = iter_ranges_for_weekday hours (isoweekday d) in
    let tomorrow = iter_ranges_for_weekday hours (isoweekday d % 7 + 1) in
    elim (Bool-cases (within_open_hours target hours)) [
      | inl open_now ↦
          (let here : target ≡ u = ground arith in
            (
              omega (arith, here),
              omega (arith, ap date_of here),
              subst (λ t. within_open_hours t hours ≡ true) here open_now,
            ))
      | inr closed ↦ elim (Option-cases (later_today target today)) [
        | inl over ↦
            (let first : first_tomorrow target tomorrow ≡ some u = ground arith in
              let (on, within) =
                first_tomorrow-within target u tomorrow
                  (iter_ranges-IsOrdered hours (isoweekday d % 7 + 1) h) first in
              (
                omega (arith, first_tomorrow-gt target u tomorrow first),
                omega (arith, on),
                within_open_hours-on hours u (d + 1) on (rw (weekday_of_tomorrow d) within),
              ))
        | inr (t, later) ↦
            (let first : later_today target today ≡ some u = ground (arith, later) in
              let (on, within) =
                later_today-within target u today (iter_ranges-IsOrdered hours (isoweekday d) h)
                  first in
              (
                later_today-ge target u today first,
                omega (arith, on),
                within_open_hours-on hours u d on within,
              ))
      ]
    ]

-- The ranges of the entries for a weekday.
abbrev pub own_ranges : List DayHours → ℕ → List (ℕ × ℕ)
own_ranges hours weekday = ranges_of (select (has_weekday weekday) hours)

-- Every weekday has a range of its own.
abbrev pub HasEveryDay : List DayHours → Type 0
HasEveryDay hours =
    (weekday : ℕ) → 1 ≤ weekday → weekday ≤ 7 → 0 < length (own_ranges hours weekday)

or_else-own : (rs ss : List (ℕ × ℕ)) → 0 < length rs → or_else rs ss ≡ rs
or_else-own [] ss h = absurd (omega (arith, h))
or_else-own (r ∷ rs) ss h = refl

iter_ranges-own :
    (hours : List DayHours) (date : ℕ)
    → HasEveryDay hours
    → iter_ranges_for_weekday hours (isoweekday date)
      ≡ sort_by range_index (own_ranges hours (isoweekday date))
unfolding iter_ranges_for_weekday isoweekday
iter_ranges-own hours date every =
    let weekday = (date + 3) % 7 + 1 in
    or_else-own (sort_by range_index (own_ranges hours weekday))
      (sort_by range_index (ranges_of hours))
      (omega (
        arith,
        length-sort_by range_index (own_ranges hours weekday),
        every weekday (omega arith) (omega (arith, mod-lt (date + 3) {m = 7} (omega arith))),
      ))

-- With opening hours whose ranges do not run past midnight, an aligned instant is never before the
-- one that was asked for, comes at latest on the day after, and lies within the opening hours: within
-- a range of an entry for its own weekday, where every weekday has one.
pub align_to_open_hours-within :
    (hours : List DayHours) (target u : ℕ)
    → HasOrderedRanges hours
    → HasEveryDay hours
    → align_to_open_hours target hours ≡ some u
    → (target ≤ u)
      × (date_of u ≤ date_of target + 1)
      × (within_ranges u (sort_by range_index (own_ranges hours (isoweekday (date_of u)))) ≡ true)
unfolding within_open_hours
align_to_open_hours-within hours target u h every e =
    let (late, soon, within) = align_to_open_hours-open hours target u h e in
    (late, soon, rw (← iter_ranges-own hours (date_of u) every) within)

minutes_of : (target : ℕ) → target / minute ≡ target / (60 * minute) * 60 + target / minute % 60
minutes_of target = omega arith

hour_and_minute :
    (hour m : ℕ)
    → m < 60
    → ((hour * 60 + m) * minute / (60 * minute) ≡ hour)
      × ((hour * 60 + m) * minute / minute % 60 ≡ m)
hour_and_minute hour m h = (omega (arith, h), omega (arith, h))

-- A slot begins at most its length before the instant, at a whole number of slots into the same hour,
-- and the start of a slot is in its own slot. The length is in minutes, and positive.
pub floor_to_slot-lem :
    (target step : ℕ)
    → 0 < step
    → let start = floor_to_slot target step in
      (start ≤ target)
      × (target < start + step * minute)
      × (start / (60 * minute) ≡ target / (60 * minute))
      × (floor_to_slot start step ≡ start)
unfolding floor_to_slot
floor_to_slot-lem target step h =
    let hour = target / (60 * minute) in
    let m = target / minute % 60 in
    let k = m / step in
    let below : k * step ≤ m = div-mul-le_self m step in
    let above : m < k * step + step = lt-div-mul-add {a = m} h in
    let small : m < 60 = mod-lt (target / minute) {m = 60} (omega arith) in
    let positive : (max step 1) ≡ step = omega (arith, h) in
    let (same_hour, same_minute) = hour_and_minute hour (k * step) (omega (arith, below, small)) in
    let again : k * step / step ≡ k = mul-div_cancel k h in
    let split = minutes_of target in
    rw positive (
      omega (arith, below, split),
      omega (arith, above, split),
      same_hour,
      (rw (same_hour, same_minute, again) refl),
    )
