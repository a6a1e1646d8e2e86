-- ===== src/Reservations/Plan.antt =====
-- `plan` of app/services/reservations.py. The conversions between UTC and the wall clock of the
-- shop's time zone are those of `zoneinfo`, and enter as two functions.
use naicha_backend.Database.{Db, Settings, minute}
use naicha_backend.Errors.{
  ReservationReason, beyond_24_hours, disabled, not_in_future, outside_open_hours, too_soon,
}
use naicha_backend.Exec.{Exec, Result, err, ok}
use naicha_backend.Models.Rows.{ShopProfile}
use naicha_backend.Prelude.{
  Option, [], if◌then◌else◌, leb, ltb, max, none, not, some, true, ℕ, ◌*◌, ◌+◌, ◌-◌, ◌∷◌,
}
use naicha_backend.Reservations.Hours.{align_to_open_hours, day, floor_to_slot}
use naicha_backend.Reservations.Slots.{reserve_slot}

pub record Zone : Type 0 where
  pub to_local : ℕ → ℕ
  pub to_utc : ℕ → ℕ

pub record ReservationPlan : Type 0 where
  pub scheduled_at_utc : ℕ
  pub slot_id : ℕ
  pub slot_start_utc : ℕ
  pub slot_end_utc : ℕ

abbrev default_profile : ShopProfile
default_profile = record { is_open = true; open_hours = []; timezone = "Asia/Shanghai" }

-- `ShopService.get_profile`: the row, made with its defaults if it is missing.
unfoldable pub get_profile : Db → ShopProfile × Db
get_profile db = elim db.shop_profile [
  | none ↦ (default_profile, record db { shop_profile = some default_profile })
  | some p ↦ (p, db)
]

-- The alignment to the opening hours, where the profile has any.
abbrev pub aligned_target : ShopProfile → ℕ → Option ℕ
aligned_target p target = elim p.open_hours [
  | [] ↦ some target
  | h ∷ hs ↦ align_to_open_hours target (h ∷ hs)
]

abbrev pub lead_minutes : Settings → ℕ
lead_minutes settings = max settings.reservation_reminder_minutes 5

-- The checks of the wall-clock time.
unfoldable pub check_target : Settings → ℕ → ℕ → Result ReservationReason (Unit {0})
check_target settings local_now target =
    if leb target local_now
    then err not_in_future
    else if ltb day (target - local_now)
    then err beyond_24_hours
    else if ltb target (local_now + lead_minutes settings * minute)
    then err too_soon
    else ok tt

abbrev pub slot_length : Settings → ℕ
slot_length settings = max settings.reservation_slot_granularity_minutes 5

-- The end of `plan`: the slot of the target, in UTC, and the plan.
unfoldable pub reserve_plan : Settings → Zone → ℕ → ℕ → Exec Db ReservationReason ReservationPlan
reserve_plan settings zone now target db =
    let start_local = floor_to_slot target (slot_length settings) in
    let start = zone.to_utc start_local in
    let end = zone.to_utc (start_local + slot_length settings * minute) in
    let (reserved, db') = reserve_slot settings now start end db in
    elim reserved [
      | err e ↦ (err e, db')
      | ok s ↦ (
        ok (record {
          scheduled_at_utc = zone.to_utc target;
          slot_id = s.slot_id;
          slot_start_utc = s.slot_start;
          slot_end_utc = s.slot_end;
        }),
        db',
      )
    ]

-- The checks, and the reservation if they pass.
unfoldable pub plan_target :
    Settings → Zone → ℕ → Option ℕ → Exec Db ReservationReason ReservationPlan
unfolding check_target reserve_plan
plan_target settings zone now none db = (err outside_open_hours, db)
plan_target settings zone now (some target) db =
    elim (check_target settings (zone.to_local now) target) [
      | err e ↦ (err e, db)
      | ok _ ↦ reserve_plan settings zone now target db
    ]

-- `plan`
unfoldable pub plan : Settings → Zone → ℕ → ℕ → Exec Db ReservationReason ReservationPlan
plan settings zone now scheduled_at db =
    if not settings.reservation_enabled
    then (err disabled, db)
    else (let (profile, db') = get_profile db in
        plan_target settings zone now (aligned_target profile (zone.to_local scheduled_at)) db')
