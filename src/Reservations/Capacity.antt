-- ===== src/Reservations/Capacity.antt =====
-- No slot is booked beyond its capacity, and each call moves one counter by one.
use naicha_backend.Database.{Db, Settings}
use naicha_backend.Exec.{is_ok, ok}
use naicha_backend.Loyalty.Balance.{granted}
use naicha_backend.Models.Rows.{ReservationSlot}
use naicha_backend.Prelude.{
  All, All-append, Bool-cases, Option, Option-cases, [], arith, if◌then◌else◌, inl, inr, leb, none,
  refl, some, subst, sym, ℕ, ◌&&◌, ◌++◌, ◌+◌, ◌==◌, ◌∷◌, ◌≡◌, ◌≤◌,
}
use naicha_backend.Reservations.Slots.{
  count_down, count_up, ensure_slot, new_slot, release_slot, reserve_slot,
}
use naicha_backend.Table.{All-update, find, find-append, find-update, key-find, update}

abbrev pub IsWithin : ReservationSlot → Type 0
IsWithin s = s.reserved_count ≤ s.capacity

-- How many reservations the slot that begins at an instant holds.
abbrev pub reserved_at : ℕ → Db → ℕ
reserved_at start db = elim (find (λ (s : ReservationSlot). s.slot_start) start db.slots) [
  | none ↦ 0
  | some s ↦ s.reserved_count
]

reserved_at-ensure_slot :
    (settings : Settings) (now start end j : ℕ) (db : Db)
    → reserved_at j (ensure_slot settings now start end db) ≡ reserved_at j db
unfolding ensure_slot
reserved_at-ensure_slot settings now start end j db =
    let new = new_slot settings now start end db.next_slot_id in
    let moved = λ (s : ReservationSlot). record s { slot_end = end } in
    ground (
      arith,
      find-append (λ (s : ReservationSlot). s.slot_start) j db.slots new,
      find-update (λ (s : ReservationSlot). s.slot_start) start j moved db.slots (λ s. refl),
    )

ensure_slot-All :
    (settings : Settings) (now start end : ℕ) (db : Db)
    → All IsWithin db.slots
    → All IsWithin (ensure_slot settings now start end db).slots
unfolding ensure_slot
ensure_slot-All settings now start end db h =
    elim (Option-cases (find (λ (s : ReservationSlot). s.slot_start) start db.slots)) [
      | inl absent ↦
          (let new = new_slot settings now start end db.next_slot_id in
            let after : (ensure_slot settings now start end db).slots ≡ db.slots ++ new ∷ [] =
              ground arith in
            subst (All IsWithin) (sym after)
              (All-append IsWithin db.slots (new ∷ []) h (omega arith, tt)))
      | inr (s, found) ↦
          (let key = λ (s : ReservationSlot). s.slot_start in
            let moved = λ (s : ReservationSlot). record s { slot_end = end } in
            let after : (ensure_slot settings now start end db).slots
                ≡ update key start moved db.slots =
              ground arith in
            subst (All IsWithin) (sym after)
              (All-update key IsWithin start moved db.slots (λ r f within. within) h))
    ]

-- A reservation keeps every slot within its capacity, whether it is granted or refused.
pub reserve_slot-All :
    (settings : Settings) (now start end : ℕ) (db : Db)
    → All IsWithin db.slots
    → All IsWithin (reserve_slot settings now start end db).1.slots
unfolding reserve_slot
reserve_slot-All settings now start end db h =
    let ensured = ensure_slot settings now start end db in
    let within = ensure_slot-All settings now start end db h in
    elim (Option-cases (find (λ (s : ReservationSlot). s.slot_start) start ensured.slots)) [
      | inl absent ↦
          (let after : (reserve_slot settings now start end db).1.slots ≡ ensured.slots =
              ground arith in
            subst (All IsWithin) (sym after) within)
      | inr (s, found) ↦ elim (Bool-cases (leb s.capacity s.reserved_count)) [
        | inl full ↦
            (let after : (reserve_slot settings now start end db).1.slots ≡ ensured.slots =
                ground arith in
              subst (All IsWithin) (sym after) within)
        | inr free ↦
            (let key = λ (s : ReservationSlot). s.slot_start in
              let after : (reserve_slot settings now start end db).1.slots
                  ≡ update key start (count_up now) ensured.slots =
                ground arith in
              subst (All IsWithin) (sym after) (
                All-update key IsWithin start (count_up now) ensured.slots
                  (λ r f before. ground (arith, found, f, free)) within))
      ]
    ]

-- So does a release.
pub release_slot-All :
    (now : ℕ) (slot : Option ℕ) (db : Db)
    → All IsWithin db.slots
    → All IsWithin (release_slot now slot db).slots
unfolding release_slot
release_slot-All now none db h = h
release_slot-All now (some id) db h = elim (Bool-cases (id == 0)) [
  | inl no_id ↦
      (let after : (release_slot now (some id) db).slots ≡ db.slots = ground arith in
        subst (All IsWithin) (sym after) h)
  | inr other ↦
      (let key = λ (s : ReservationSlot). s.slot_id in
        let after : (release_slot now (some id) db).slots
            ≡ update key id (count_down now) db.slots =
          ground arith in
        subst (All IsWithin) (sym after) (
          All-update key IsWithin id (count_down now) db.slots
            (λ r f before. ground (arith, before)) h))
]

-- A reservation that is granted adds one to the counter of the slot that begins at that instant, a
-- refused one nothing; every other counter stays.
pub reserve_slot-effect :
    (settings : Settings) (now start end j : ℕ) (db : Db)
    → let (reserved, db') = reserve_slot settings now start end db in
      reserved_at j db' ≡ reserved_at j db + (if is_ok reserved && start == j then 1 else 0)
unfolding reserve_slot
reserve_slot-effect settings now start end j db =
    let ensured = ensure_slot settings now start end db in
    let key = λ (s : ReservationSlot). s.slot_start in
    let counted = find-update key start j (count_up now) ensured.slots (λ s. refl) in
    ground (arith, reserved_at-ensure_slot settings now start end j db, counted)

pub reserve_slot-answer :
    (settings : Settings) (now start end : ℕ) (db : Db) (s : ReservationSlot)
    → (reserve_slot settings now start end db).0 ≡ ok s
    → s.slot_start ≡ start
unfolding reserve_slot
reserve_slot-answer settings now start end db s granted =
    let ensured = ensure_slot settings now start end db in
    let key = λ (s : ReservationSlot). s.slot_start in
    elim (Option-cases (find key start ensured.slots)) [
      | inl absent ↦ absurd (ground arith)
      | inr (t, found) ↦ ground (arith, key-find key start ensured.slots found)
    ]
