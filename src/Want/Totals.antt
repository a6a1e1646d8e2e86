-- ===== src/Want/Totals.antt =====
-- The totals of the shop count every event.
use naicha_backend.Advertisements.Configs.{past}
use naicha_backend.Exec.{Result-cases, ok}
use naicha_backend.Prelude.{
  All, All-sort_by, Bool, List, Option, String, [], ap, arith, inl, inr, length, length-sort_by,
  length-take_le, select, select-select, sort_by, subst, suc, sum_by, sym, take, zero, ℕ, ◌&&◌, ◌*◌,
  ◌+◌, ◌-◌, ◌/◌, ◌==◌, ◌∙◌, ◌∷◌, ◌≡◌, ◌≤◌,
}
use naicha_backend.Reservations.Hours.{day}
use naicha_backend.Reservations.Plan.{Zone}
use naicha_backend.Want.{
  DayCount, ProductTotal, WantEvent, WantState, WantStats, fetch_events_since, get_stats,
  most_common, resolve_limit, resolve_range, start_date, stats_of, totals_from,
}
use naicha_backend.Want.Counter.{
  IsCounter-totals_from, entries, of_product, total_of, total_of-totals_from,
}
use naicha_backend.Want.Counting.{count_of, count_of-All, count_of-sort_by}
use naicha_backend.Want.Days.{IsSteady, dated, since, sum-daily_series, within}

All-take : {A : Type 0} (P : A → Type 0) (n : ℕ) (xs : List A) → All P xs → All P (take n xs)
All-take P zero xs h = tt
All-take P (suc n) [] h = tt
All-take P (suc n) (x ∷ xs) h = (h.0, All-take P n xs h.1)

count_of-since :
    (p : WantEvent → Bool) (start : ℕ) (es : List WantEvent)
    → count_of p (fetch_events_since start es) ≡ count_of (λ e. since start e && p e) es
unfolding fetch_events_since
count_of-since p start es =
    count_of-sort_by p (λ e. e.created_at) (select (since start) es)
    ∙ ap length (select-select p (since start) es)

length-since :
    (start : ℕ) (es : List WantEvent)
    → length (fetch_events_since start es) ≡ count_of (since start) es
unfolding fetch_events_since
length-since start es = length-sort_by (λ e. e.created_at) (select (since start) es)

daily-counts :
    (zone : Zone) (epoch days : ℕ) (limit : Option ℕ) (reference : ℕ) (es : List WantEvent)
    → IsSteady zone epoch
    → epoch ≤ (stats_of zone days limit reference es).start
    → All (λ (e : WantEvent). e.created_at ≤ reference) es
    → let stats = stats_of zone days limit reference es in
      sum_by (λ (d : DayCount). d.count) stats.daily ≡ count_of (since stats.start) es
unfolding stats_of fetch_events_since
daily-counts zone epoch days limit reference es steady recent_enough past =
    let from = start_date zone reference days in
    let start = zone.to_utc (from * day) in
    let n = zone.to_local reference / day - from + 1 in
    let recent = select (since start) es in
    sum-daily_series zone (sort_by (λ e. e.created_at) recent) from n
    ∙ count_of-sort_by (within zone from n) (λ e. e.created_at) recent
    ∙ count_of-All (within zone from n) recent
        (dated zone epoch from reference es steady recent_enough past)

product-counts :
    (zone : Zone) (days : ℕ) (limit : Option ℕ) (reference : ℕ) (es : List WantEvent)
    → let stats = stats_of zone days limit reference es in
      All
        (λ (t : ProductTotal).
          t.total ≡ count_of (λ e. since stats.start e && e.product_id == t.product_id) es)
        stats.top_products
unfolding stats_of most_common total_of
product-counts zone days limit reference es =
    let start = zone.to_utc (start_date zone reference days * day) in
    let events = fetch_events_since start es in
    let count = λ (p : ℕ). count_of (λ (e : WantEvent). since start e && e.product_id == p) es in
    let P = λ (t : ProductTotal). t.total ≡ count t.product_id in
    let totals = totals_from [] events in
    All-take P (resolve_limit limit) (sort_by (λ t. length events - t.total) totals) (
      All-sort_by P (λ t. length events - t.total) totals
        (entries count totals (IsCounter-totals_from events [] tt) (λ p there.
          omega (arith, total_of-totals_from p events [], count_of-since (of_product p) start es))))

listed :
    (zone : Zone) (days : ℕ) (limit : Option ℕ) (reference : ℕ) (es : List WantEvent)
    → length (stats_of zone days limit reference es).top_products ≤ 100
unfolding stats_of most_common
listed zone days limit reference es =
    let start = zone.to_utc (start_date zone reference days * day) in
    let events = fetch_events_since start es in
    let totals = sort_by (λ (t : ProductTotal). length events - t.total) (totals_from [] events) in
    ground (arith, length-take_le (resolve_limit limit) totals)

-- Statistics that count the events since their start.
abbrev pub IsCounted : List WantEvent → WantStats → Type 0
IsCounted es stats =
    (sum_by (λ (d : DayCount). d.count) stats.daily ≡ count_of (since stats.start) es)
    × All
        (λ (t : ProductTotal).
          t.total ≡ count_of (λ e. since stats.start e && e.product_id == t.product_id) es)
        stats.top_products
    × (length stats.top_products ≤ 100)

-- Where the range starts at an instant from which on the clock of the time zone is never set back, and
-- no event is after the instant of the statistics: the counts of the days add up to the number of
-- events since the start of the range; the total of a product is the number of its events since then;
-- and at most a hundred products are listed.
pub get_stats-IsCounted :
    (zone : Zone) (range_key : Option String) (limit : Option ℕ) (reference : ℕ) (s : WantState)
    (stats : WantStats) (epoch : ℕ)
    → IsSteady zone epoch
    → epoch ≤ stats.start
    → All (λ (e : WantEvent). e.created_at ≤ reference) s.events
    → get_stats zone range_key limit reference s ≡ ok stats
    → IsCounted s.events stats
unfolding get_stats
get_stats-IsCounted zone range_key limit reference s stats epoch steady recent_enough past e =
    elim (Result-cases (resolve_range range_key)) [
      | inl (x, refused) ↦ absurd (ground (arith, e, refused))
      | inr (days, there) ↦
          (let same : stats_of zone days limit reference s.events ≡ stats =
              ground (arith, e, there) in
            subst (IsCounted s.events) same (
              daily-counts zone epoch days limit reference s.events steady
                  (subst (λ (x : WantStats). epoch ≤ x.start) (sym same) recent_enough) past,
              product-counts zone days limit reference s.events,
              listed zone days limit reference s.events,
            ))
    ]
