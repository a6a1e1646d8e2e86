-- ===== src/Tests/Reserving.antt =====
-- Slots, opening hours, plans and the sweeps over scheduled orders.
use naicha_backend.Database.{Db, minute}
use naicha_backend.Errors.{ReservationReason}
use naicha_backend.Exec.{Result, ok}
use naicha_backend.Models.Rows.{DayHours, Order, ReservationSlot, texts}
use naicha_backend.Orders.Access.{get_order}
use naicha_backend.Prelude.{
  All, List, [], arith, insert_by, none, refl, some, sort_by, true, ℕ, ◌*◌, ◌+◌, ◌<◌, ◌∷◌, ◌≡◌, ◌≤◌,
}
use naicha_backend.Reservations.Alignment.{
  HasEveryDay, HasOrderedRanges, align_to_open_hours-within, own_ranges,
}
use naicha_backend.Reservations.Capacity.{IsWithin, reserve_slot-All, reserved_at}
use naicha_backend.Reservations.Due.{send_due_reminders}
use naicha_backend.Reservations.Hours.{
  align_to_open_hours, date_of, day, entry_ranges, floor_to_slot, isoweekday,
  iter_ranges_for_weekday, later_today, parse_int, parse_time, range_index, ranges_of, split_colon,
  within_open_hours, within_ranges,
}
use naicha_backend.Reservations.Plan.{
  ReservationPlan, aligned_target, check_target, get_profile, lead_minutes, plan, plan_target,
  reserve_plan, slot_length,
}
use naicha_backend.Reservations.Slots.{ensure_slot, reserve_slot}
use naicha_backend.Reservations.Sweeps.{reminded, send_due_reminders-once}
use naicha_backend.Reservations.Window.{plan-window}
use naicha_backend.Table.{find, map_some, update}
use naicha_backend.Tests.Data.{busy_db, paid_order, shop_settings, utc}

-- A slot that is nearly full.
abbrev slot : ReservationSlot
slot = record {
  slot_id = 1;
  slot_start = 600;
  slot_end = 1200;
  capacity = 3;
  reserved_count = 2;
  updated_at = 0;
}

abbrev slot_db : Db
slot_db = record busy_db { slots = slot ∷ [] }

reserve_slot-All_example : All IsWithin (reserve_slot shop_settings 10 600 1200 slot_db).1.slots
reserve_slot-All_example = reserve_slot-All shop_settings 10 600 1200 slot_db (omega arith, tt)

-- Open from nine to five on every day.
abbrev hours : List DayHours
hours = record { weekday = none; ranges = texts "09:00" "17:00" ∷ [] } ∷ []

nine_to_five : HasOrderedRanges hours
unfolding entry_ranges parse_time split_colon parse_int
nine_to_five = (((omega arith, omega arith), tt), tt)

-- At eight the next opening is at nine.
nine : align_to_open_hours (480 * minute) hours ≡ some (540 * minute)
unfolding align_to_open_hours within_open_hours later_today iter_ranges_for_weekday within_ranges
    ranges_of entry_ranges parse_time split_colon parse_int sort_by insert_by isoweekday
nine = refl

-- Open from nine to five, with an entry for every weekday.
abbrev on_weekday : ℕ → DayHours
on_weekday weekday = record { weekday = some weekday; ranges = texts "09:00" "17:00" ∷ [] }

abbrev week : List DayHours
week =
    on_weekday 1
    ∷ on_weekday 2
    ∷ on_weekday 3
    ∷ on_weekday 4
    ∷ on_weekday 5
    ∷ on_weekday 6
    ∷ on_weekday 7
    ∷ []

week-HasEveryDay : HasEveryDay week
unfolding ranges_of entry_ranges parse_time split_colon parse_int
week-HasEveryDay weekday early late = ground (arith, early, late)

week-HasOrderedRanges : HasOrderedRanges week
unfolding entry_ranges parse_time split_colon parse_int
week-HasOrderedRanges =
    let day_ : (540 * minute ≤ 1020 * minute) × (1020 * minute < day) =
      (omega arith, omega arith) in
    let one : ((540 * minute ≤ 1020 * minute) × (1020 * minute < day)) × Unit {0} = (day_, tt) in
    (one, (one, (one, (one, (one, (one, (one, tt)))))))

nine_on_weekdays : align_to_open_hours (480 * minute) week ≡ some (540 * minute)
unfolding align_to_open_hours within_open_hours later_today iter_ranges_for_weekday within_ranges
    ranges_of entry_ranges parse_time split_colon parse_int sort_by insert_by isoweekday
nine_on_weekdays = refl

align_to_open_hours-within_example :
    (480 * minute ≤ 540 * minute)
    × (date_of (540 * minute) ≤ date_of (480 * minute) + 1)
    × (within_ranges
          (540 * minute)
          (sort_by range_index (own_ranges week (isoweekday (date_of (540 * minute)))))
        ≡ true)
align_to_open_hours-within_example =
    align_to_open_hours-within week (480 * minute) (540 * minute) week-HasOrderedRanges
      week-HasEveryDay nine_on_weekdays

abbrev shop_db : Db
shop_db = record busy_db {
  shop_profile = some (record { is_open = true; open_hours = hours; timezone = "UTC" });
}

abbrev planned : Result ReservationReason ReservationPlan × Db
planned = plan shop_settings utc (500 * minute) (560 * minute) shop_db

abbrev granted : ReservationPlan
granted = record {
  scheduled_at_utc = 560 * minute;
  slot_id = 1;
  slot_start_utc = 560 * minute;
  slot_end_utc = 570 * minute;
}

planned-ok : planned ≡ (ok granted, planned.1)
unfolding plan get_profile plan_target check_target reserve_plan reserve_slot ensure_slot
    floor_to_slot find update align_to_open_hours within_open_hours later_today
    iter_ranges_for_weekday within_ranges ranges_of entry_ranges parse_time split_colon parse_int
    sort_by insert_by isoweekday
planned-ok = refl

plan-window_example :
    (target : ℕ) × (aligned_target (get_profile shop_db).0 (560 * minute) ≡ some target)
    × (granted.scheduled_at_utc ≡ target)
    × (500 * minute + lead_minutes shop_settings * minute ≤ target)
    × (target ≤ 500 * minute + day)
    × (granted.slot_start_utc ≡ floor_to_slot target (slot_length shop_settings))
    × (0 < reserved_at granted.slot_start_utc planned.1)
plan-window_example =
    plan-window shop_settings utc (500 * minute) (560 * minute) shop_db planned.1 granted planned-ok

-- A paid order for the tenth hour.
abbrev scheduled_order : Order
scheduled_order = record paid_order { is_scheduled = true; scheduled_at = some (600 * minute) }

abbrev scheduled_db : Db
scheduled_db = record busy_db { orders = scheduled_order ∷ [] }

send_due_reminders-once_example :
    let db' = (send_due_reminders shop_settings (590 * minute) scheduled_db).1 in
    ((j : ℕ)
      → get_order db' j
        ≡ map_some (reminded shop_settings (590 * minute)) (get_order scheduled_db j))
    × (send_due_reminders shop_settings (590 * minute) db' ≡ ([], db'))
send_due_reminders-once_example =
    send_due_reminders-once shop_settings (590 * minute) scheduled_db refl
