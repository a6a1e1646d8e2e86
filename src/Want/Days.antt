-- ===== src/Want/Days.antt =====
-- The daily series of the statistics.
use naicha_backend.Prelude.{
  All, Bool, Bool-cases, List, [], arith, inl, inr, leb, ltb, refl, select, suc, sum_by, sym, true,
  zero, ℕ, ◌&&◌, ◌*◌, ◌+◌, ◌-◌, ◌/◌, ◌∷◌, ◌≡◌, ◌≤◌,
}
use naicha_backend.Reservations.Hours.{day}
use naicha_backend.Reservations.Plan.{Zone}
use naicha_backend.Want.{DayCount, WantEvent, daily_series, on_date}
use naicha_backend.Want.Counting.{count_of, count_of-cons}

-- What is used of the shop's time zone, from some instant on, as of Asia/Shanghai since its last change
-- of 1991: later instants have later local times, and from the instant that `to_utc` gives for a local
-- time on the local time is at least that.
pub record IsSteady (zone : Zone) (epoch : ℕ) : Type 0 where
  pub mono : (t u : ℕ) → epoch ≤ t → t ≤ u → zone.to_local t ≤ zone.to_local u
  pub there : (t x : ℕ) → epoch ≤ zone.to_utc x → zone.to_utc x ≤ t → x ≤ zone.to_local t

-- The events between two dates
abbrev pub within : Zone → ℕ → ℕ → WantEvent → Bool
within zone a n e =
    leb a (zone.to_local e.created_at / day) && ltb (zone.to_local e.created_at / day) (a + n)

next_day :
    (zone : Zone) (a n : ℕ) (es : List WantEvent)
    → count_of (on_date zone a) es + count_of (within zone (a + 1) n) es
      ≡ count_of (within zone a (suc n)) es
next_day zone a n [] = refl
next_day zone a n (e ∷ es) =
    let date = zone.to_local e.created_at / day in
    ground (
      arith,
      count_of-cons (on_date zone a) e es,
      count_of-cons (within zone (a + 1) n) e es,
      count_of-cons (within zone a (suc n)) e es,
      next_day zone a n es,
    )

no_days : (zone : Zone) (a : ℕ) (es : List WantEvent) → count_of (within zone a 0) es ≡ 0
no_days zone a [] = refl
no_days zone a (e ∷ es) = ground (arith, count_of-cons (within zone a 0) e es, no_days zone a es)

pub sum-daily_series :
    (zone : Zone) (es : List WantEvent) (a n : ℕ)
    → sum_by (λ (d : DayCount). d.count) (daily_series zone es a n) ≡ count_of (within zone a n) es
unfolding daily_series
sum-daily_series zone es a zero = sym (no_days zone a es)
sum-daily_series zone es a (suc n) =
    omega (arith, sum-daily_series zone es (a + 1) n, next_day zone a n es)

-- The events since an instant
abbrev pub since : ℕ → WantEvent → Bool
since start e = leb start e.created_at

pub dated :
    (zone : Zone) (epoch from reference : ℕ) (es : List WantEvent)
    → IsSteady zone epoch
    → epoch ≤ zone.to_utc (from * day)
    → All (λ (e : WantEvent). e.created_at ≤ reference) es
    → All
        (λ e. within zone from (zone.to_local reference / day - from + 1) e ≡ true)
        (select (since (zone.to_utc (from * day))) es)
dated zone epoch from reference [] steady recent_enough past = tt
dated zone epoch from reference (e ∷ es) steady recent_enough past =
    elim (Bool-cases (since (zone.to_utc (from * day)) e)) [
      | inr old ↦ rw old (dated zone epoch from reference es steady recent_enough past.1)
      | inl recent ↦ rw recent (
        (ground (
          arith,
          recent,
          steady.there e.created_at (from * day) recent_enough,
          steady.mono e.created_at reference (ground (arith, recent, recent_enough)) past.0,
        )),
        dated zone epoch from reference es steady recent_enough past.1,
      )
    ]
