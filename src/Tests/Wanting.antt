-- ===== src/Tests/Wanting.antt =====
-- A guest who wants a product twice, and the statistics of the day.
use naicha_backend.Exec.{err, is_ok, ok}
use naicha_backend.Prelude.{
  All, String, [], arith, if◌then◌else◌, none, refl, some, ◌++◌, ◌+◌, ◌-◌, ◌∷◌, ◌≡◌, ◌≤◌,
}
use naicha_backend.Reservations.Plan.{Zone}
use naicha_backend.Table.{find}
use naicha_backend.Tests.Data.{empty_db, shop_settings}
use naicha_backend.Want.{
  WantEvent, WantState, WantStats, get_stats, rate_limited, record_want, resolve_range, stats_of,
}
use naicha_backend.Want.Days.{IsSteady}
use naicha_backend.Want.Spaced.{IsSpaced, record_want-IsSpaced, wanted_event}
use naicha_backend.Want.Totals.{IsCounted, get_stats-IsCounted}

abbrev sha256 : String → String → String
sha256 ip key = ip

abbrev nobody_yet : WantState
nobody_yet = record { rows = empty_db; events = []; next_event_id = 1 }

abbrev wanted_once : WantState
wanted_once = (record_want shop_settings sha256 100 100 1 none (some "10.0.0.1") nobody_yet).1

wanted_once-IsSpaced : IsSpaced 5 wanted_once.events
unfolding record_want find
wanted_once-IsSpaced = (tt, tt)

record_want-IsSpaced_example :
    let (r, s') = record_want shop_settings sha256 200 198 1 none (some "10.0.0.1") wanted_once in
    IsSpaced 5 s'.events
    × (s'.events ≡ (
        if is_ok r
        then wanted_once.events
          ++ wanted_event shop_settings sha256 200 198 1 none (some "10.0.0.1") wanted_once ∷ []
        else wanted_once.events))
record_want-IsSpaced_example =
    record_want-IsSpaced shop_settings sha256 200 198 1 none (some "10.0.0.1") wanted_once 5
      (omega arith) wanted_once-IsSpaced

-- The second call within the minute is refused.
limited_again :
    (record_want shop_settings sha256 200 200 1 none (some "10.0.0.1") wanted_once).0
    ≡ err rate_limited
unfolding record_want find
limited_again = refl

abbrev eight_hours : Zone
eight_hours = record { to_local = λ t. t + 28800000000; to_utc = λ t. t - 28800000000 }

eight_hours-IsSteady : IsSteady eight_hours 0
eight_hours-IsSteady = record { mono = λ t u k h. omega arith; there = λ t x k h. omega arith }

abbrev counted : WantStats
counted = stats_of eight_hours 7 none 300 wanted_once.events

past : All (λ (e : WantEvent). e.created_at ≤ 300) wanted_once.events
unfolding record_want find
past = (omega arith, tt)

answered : get_stats eight_hours (some "7d") none 300 wanted_once ≡ ok counted
unfolding get_stats resolve_range
answered = refl

get_stats-IsCounted_example : IsCounted wanted_once.events counted
get_stats-IsCounted_example =
    get_stats-IsCounted eight_hours (some "7d") none 300 wanted_once counted 0 eight_hours-IsSteady
      (omega arith) past answered
