-- ===== src/Reservations/Slots.antt =====
-- `_reserve_slot` and `release_slot` of app/services/reservations.py: the counter of a slot.
use naicha_backend.Database.{Db, Settings}
use naicha_backend.Errors.{ReservationReason, slot_full}
use naicha_backend.Exec.{Exec, err, ok}
use naicha_backend.Models.Rows.{ReservationSlot}
use naicha_backend.Prelude.{
  List, Option, [], if◌then◌else◌, leb, max, none, some, ℕ, ◌++◌, ◌+◌, ◌-◌, ◌==◌, ◌∷◌,
}
use naicha_backend.Table.{find, update}

abbrev by_start : List ReservationSlot → ℕ → Option ReservationSlot
by_start slots start = find (λ s. s.slot_start) start slots

abbrev pub new_slot : Settings → ℕ → ℕ → ℕ → ℕ → ReservationSlot
new_slot settings now start end slot_id = record {
  slot_id = slot_id;
  slot_start = start;
  slot_end = end;
  capacity = max settings.reservation_slot_capacity 1;
  reserved_count = 0;
  updated_at = now;
}

-- The slot that begins at an instant: the row with its end set anew, or a new row.
unfoldable pub ensure_slot : Settings → ℕ → ℕ → ℕ → Db → Db
ensure_slot settings now start end db = elim (by_start db.slots start) [
  | none ↦ record db {
    slots = db.slots ++ new_slot settings now start end db.next_slot_id ∷ [];
    next_slot_id = db.next_slot_id + 1;
  }
  | some s ↦ record db {
    slots = update (λ s. s.slot_start) start (λ s. record s { slot_end = end }) db.slots;
  }
]

-- One more reservation on the slot.
abbrev pub count_up : ℕ → ReservationSlot → ReservationSlot
count_up now s = record s { reserved_count = s.reserved_count + 1; updated_at = now }

-- `_reserve_slot`. After `ensure_slot` the row is always there, so the case `none` never arises.
unfoldable pub reserve_slot : Settings → ℕ → ℕ → ℕ → Exec Db ReservationReason ReservationSlot
unfolding ensure_slot
reserve_slot settings now start end db =
    let db' = ensure_slot settings now start end db in
    elim (by_start db'.slots start) [
      | none ↦ (err slot_full, db')
      | some s ↦ if leb s.capacity s.reserved_count then (err slot_full, db') else (
        ok (count_up now s),
        record db' { slots = update (λ s. s.slot_start) start (count_up now) db'.slots },
      )
    ]

-- One reservation less, never below zero.
abbrev pub count_down : ℕ → ReservationSlot → ReservationSlot
count_down now s =
    if leb s.reserved_count 0
    then record s { reserved_count = 0; updated_at = now }
    else record s { reserved_count = s.reserved_count - 1; updated_at = now }

-- `release_slot`; no such row, no change. A slot id of zero counts as none.
unfoldable pub release_slot : ℕ → Option ℕ → Db → Db
release_slot now none db = db
release_slot now (some slot_id) db =
    if slot_id == 0
    then db
    else record db { slots = update (λ s. s.slot_id) slot_id (count_down now) db.slots }
