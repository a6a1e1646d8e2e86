-- ===== src/Want.antt =====
-- WantService of app/services/want.py: guests and users mark products that they want, at most once a
-- minute each, and the shop sees the totals.
pub mod Spaced
mod Counting
pub mod Days
mod Counter
pub mod Totals
use naicha_backend.Database.{Db, Settings, minute}
use naicha_backend.Exec.{Exec, Result, err, ok}
use naicha_backend.Models.{ProductStatus, product_status_tagged, ◌is◌}
use naicha_backend.Models.Rows.{Product}
use naicha_backend.Prelude.{
  Bool, List, Option, String, [], any, false, if◌then◌else◌, is_some, leb, length, max, min, none,
  not, select, some, sort_by, str_eq, suc, take, zero, ℕ, ◌&&◌, ◌*◌, ◌++◌, ◌+◌, ◌-◌, ◌/◌, ◌==◌, ◌∷◌,
}
use naicha_backend.Reservations.Hours.{day}
use naicha_backend.Reservations.Plan.{Zone}
use naicha_backend.Table.{find}

pub data WantError : Type 0 where
  feature_disabled target_not_found no_identity rate_limited unsupported_range : WantError

pub record WantEvent : Type 0 where
  pub id : ℕ
  pub product_id : ℕ
  pub user_id : Option ℕ
  pub ip_hash : Option String
  pub created_at : ℕ

-- The table of events with its sequence, beside the other rows.
pub record WantState : Type 0 where
  pub rows : Db
  pub events : List WantEvent
  pub next_event_id : ℕ

-- `_hash_ip`, with the SHA-256 of the address and the key.
abbrev pub hash_ip : (String → String → String) → String → Option String → Option String
hash_ip sha256 secret_key none = none
hash_ip sha256 secret_key (some ip) = if str_eq ip "" then none else some (sha256 ip secret_key)

abbrev pub same_ip : Option String → Option String → Bool
same_ip none other = false
same_ip (some ip) none = false
same_ip (some ip) (some other) = str_eq ip other

abbrev pub same_user : Option ℕ → Option ℕ → Bool
same_user none other = false
same_user (some u) none = false
same_user (some u) (some v) = u == v

-- The filter on the requester: by the user, or else by the address.
abbrev pub same_requester : Option ℕ → Option String → WantEvent → Bool
same_requester none ip_hash e = same_ip ip_hash e.ip_hash
same_requester (some u) ip_hash e = same_user (some u) e.user_id

-- `_is_rate_limited`
unfoldable pub is_rate_limited : ℕ → Option ℕ → Option String → ℕ → List WantEvent → Bool
is_rate_limited product_id user_id ip_hash now events =
    any
      (λ e.
        e.product_id == product_id
        && (leb (now - minute) e.created_at && same_requester user_id ip_hash e))
      events

abbrev pub is_available : Option Product → Bool
is_available none = false
is_available (some p) = p.status is ProductStatus.active

abbrev pub new_event : ℕ → ℕ → Option ℕ → Option String → ℕ → WantEvent
new_event id product_id user_id ip_hash created_at = record {
  id = id;
  product_id = product_id;
  user_id = user_id;
  ip_hash = ip_hash;
  created_at = created_at;
}

-- `record_want`; the database sets `created_at` to the start of the transaction, which comes before
-- `now` is read.
unfoldable pub record_want :
    Settings
    → (String → String → String)
    → ℕ
    → ℕ
    → ℕ
    → Option ℕ
    → Option String
    → Exec WantState WantError WantEvent
unfolding is_rate_limited
record_want settings sha256 now created_at product_id user_id ip s =
    let ip_hash = hash_ip sha256 settings.secret_key ip in
    let event = new_event s.next_event_id product_id user_id ip_hash created_at in
    if not settings.want_enabled
    then (err feature_disabled, s)
    else if not (is_available (find (λ (p : Product). p.product_id) product_id s.rows.products))
    then (err target_not_found, s)
    else if not (is_some user_id) && not (is_some ip_hash)
    then (err no_identity, s)
    else if is_rate_limited product_id user_id ip_hash now s.events
    then (err rate_limited, s)
    else (
      ok event,
      record s { events = s.events ++ event ∷ []; next_event_id = s.next_event_id + 1 },
    )

-- `_resolve_range`
unfoldable pub resolve_range : Option String → Result WantError ℕ
resolve_range none = ok 7
resolve_range (some key) =
    if str_eq key ""
    then ok 7
    else if str_eq key "1d"
    then ok 1
    else if str_eq key "7d"
    then ok 7
    else if str_eq key "30d"
    then ok 30
    else err unsupported_range

abbrev pub resolve_limit : Option ℕ → ℕ
resolve_limit none = 20
resolve_limit (some limit) = if limit == 0 then 20 else max 1 (min limit 100)

pub record ProductTotal : Type 0 where
  pub product_id : ℕ
  pub total : ℕ

-- `totals[event.product_id] += 1` of a Counter, which keeps the order of first occurrence.
unfoldable pub count_product : ℕ → List ProductTotal → List ProductTotal
count_product id [] = record { product_id = id; total = 1 } ∷ []
count_product id (t ∷ ts) =
    if t.product_id == id then record t { total = t.total + 1 } ∷ ts else t ∷ count_product id ts

unfoldable pub totals_from : List ProductTotal → List WantEvent → List ProductTotal
unfolding count_product
totals_from ts [] = ts
totals_from ts (e ∷ es) = totals_from (count_product e.product_id ts) es

-- `totals.most_common(limit)`: the largest first, equal ones as they were first seen.
unfoldable pub most_common : ℕ → ℕ → List ProductTotal → List ProductTotal
most_common total limit ts = take limit (sort_by (λ t. total - t.total) ts)

pub record DayCount : Type 0 where
  pub date : ℕ
  pub count : ℕ

-- The events of a local date, which is a number of days.
abbrev pub on_date : Zone → ℕ → WantEvent → Bool
on_date zone date e = zone.to_local e.created_at / day == date

abbrev pub day_count : Zone → List WantEvent → ℕ → DayCount
day_count zone events date = record {
  date = date;
  count = length (select (on_date zone date) events);
}

-- `_generate_date_range` with the counts: so many days from a date.
unfoldable pub daily_series : Zone → List WantEvent → ℕ → ℕ → List DayCount
daily_series zone events start zero = []
daily_series zone events start (suc n) =
    day_count zone events start ∷ daily_series zone events (start + 1) n

pub record WantStats : Type 0 where
  pub start : ℕ
  pub top_products : List ProductTotal
  pub daily : List DayCount

-- `start_local` as a date
abbrev pub start_date : Zone → ℕ → ℕ → ℕ
start_date zone reference days = zone.to_local reference / day - (days - 1)

-- `_fetch_events_since`
unfoldable pub fetch_events_since : ℕ → List WantEvent → List WantEvent
fetch_events_since start events =
    sort_by (λ e. e.created_at) (select (λ e. leb start e.created_at) events)

-- The payload of `get_stats` for a range of so many days, without the names of the products.
unfoldable pub stats_of : Zone → ℕ → Option ℕ → ℕ → List WantEvent → WantStats
unfolding totals_from most_common daily_series fetch_events_since
stats_of zone days limit reference all =
    let from = start_date zone reference days in
    let start = zone.to_utc (from * day) in
    let events = fetch_events_since start all in
    record {
      start = start;
      top_products = most_common (length events) (resolve_limit limit) (totals_from [] events);
      daily = daily_series zone events from (zone.to_local reference / day - from + 1);
    }

-- `get_stats`
unfoldable pub get_stats :
    Zone → Option String → Option ℕ → ℕ → WantState → Result WantError WantStats
unfolding resolve_range stats_of
get_stats zone range_key limit reference s = elim (resolve_range range_key) [
  | err e ↦ err e
  | ok days ↦ ok (stats_of zone days limit reference s.events)
]
