-- ===== src/Reservations/Window.antt =====
-- What a granted plan promises.
use naicha_backend.Database.{Db, Settings, minute}
use naicha_backend.Exec.{Result-cases, ok}
use naicha_backend.Loyalty.Balance.{granted}
use naicha_backend.Prelude.{Option-cases, arith, inl, inr, some, ℕ, ◌*◌, ◌+◌, ◌<◌, ◌≡◌, ◌≤◌}
use naicha_backend.Reservations.Capacity.{reserve_slot-answer, reserve_slot-effect, reserved_at}
use naicha_backend.Reservations.Hours.{day, floor_to_slot}
use naicha_backend.Reservations.Plan.{
  ReservationPlan, Zone, aligned_target, check_target, get_profile, lead_minutes, plan, plan_target,
  reserve_plan, slot_length,
}
use naicha_backend.Reservations.Slots.{reserve_slot}

check_target-ok :
    (settings : Settings) (local_now target : ℕ)
    → check_target settings local_now target ≡ ok tt
    → (local_now + lead_minutes settings * minute ≤ target) × (target ≤ local_now + day)
unfolding check_target
check_target-ok settings local_now target e = (ground arith, ground arith)

reserve_plan-ok :
    (settings : Settings) (zone : Zone) (now target : ℕ) (db db' : Db) (p : ReservationPlan)
    → reserve_plan settings zone now target db ≡ (ok p, db')
    → (p.scheduled_at_utc ≡ zone.to_utc target)
      × (p.slot_start_utc ≡ zone.to_utc (floor_to_slot target (slot_length settings)))
      × (0 < reserved_at p.slot_start_utc db')
unfolding reserve_plan
reserve_plan-ok settings zone now target db db' p e =
    let start_local = floor_to_slot target (slot_length settings) in
    let start = zone.to_utc start_local in
    let end = zone.to_utc (start_local + slot_length settings * minute) in
    let counts = reserve_slot-effect settings now start end start db in
    let (reserved, after) = reserve_slot settings now start end db in
    elim (Result-cases reserved) [
      | inl (x, full) ↦ absurd (ground arith)
      | inr (s, granted) ↦
          (let begins = reserve_slot-answer settings now start end db s granted in
            (
              ground (arith, granted),
              ground (arith, granted, begins),
              ground (arith, granted, begins, counts),
            ))
    ]

-- A plan that is granted is for a wall-clock time that is the one asked for, aligned to the opening
-- hours where the shop has any: at least the lead time after now, at most a day ahead. Its slot
-- begins at the start of the slot of that time, and holds a reservation by then.
pub plan-window :
    (settings : Settings) (zone : Zone) (now scheduled_at : ℕ) (db db' : Db) (p : ReservationPlan)
    → plan settings zone now scheduled_at db ≡ (ok p, db')
    → (target : ℕ) × (aligned_target (get_profile db).0 (zone.to_local scheduled_at) ≡ some target)
      × (p.scheduled_at_utc ≡ zone.to_utc target)
      × (zone.to_local now + lead_minutes settings * minute ≤ target)
      × (target ≤ zone.to_local now + day)
      × (p.slot_start_utc ≡ zone.to_utc (floor_to_slot target (slot_length settings)))
      × (0 < reserved_at p.slot_start_utc db')
unfolding plan plan_target
plan-window settings zone now scheduled_at db db' p e =
    let asked = aligned_target (get_profile db).0 (zone.to_local scheduled_at) in
    elim (Option-cases asked) [
      | inl shut ↦ absurd (ground arith)
      | inr (t, aligned) ↦ elim (Result-cases (check_target settings (zone.to_local now) t)) [
        | inl (x, refused) ↦ absurd (ground arith)
        | inr (_, passed) ↦
            (let (soonest, latest) = check_target-ok settings (zone.to_local now) t passed in
              let run : reserve_plan settings zone now t (get_profile db).1 ≡ (ok p, db') =
                ground (arith, aligned, passed) in
              let (at, slot, held_) =
                reserve_plan-ok settings zone now t (get_profile db).1 db' p run in
              (t, aligned, at, soonest, latest, slot, held_))
      ]
    ]
