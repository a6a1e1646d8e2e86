-- ===== src/Orders/Create/Frame.antt =====
-- Which tables each part of `_create_order_internal` leaves alone.
use naicha_backend.Database.{Db, Settings, minute}
use naicha_backend.Exec.{ok}
use naicha_backend.Orders.Errors.{CreateRequest, ItemRequest}
use naicha_backend.Orders.Idempotency.{Waiting, ensure_idempotency}
use naicha_backend.Orders.Lines.{DraftItem, create_lines, take_stock}
use naicha_backend.Orders.Lines.Stock.{create_line-ok, create_lines-cons}
use naicha_backend.Orders.Placing.{Context, plan_reservation}
use naicha_backend.Prelude.{
  List, Option, Option-cases, String, [], arith, inl, inr, none, some, ℕ, ◌*◌, ◌+◌, ◌∙◌, ◌∷◌, ◌≡◌,
}
use naicha_backend.Reservations.Hours.{floor_to_slot}
use naicha_backend.Reservations.Plan.{
  Zone, aligned_target, get_profile, plan, plan_target, reserve_plan, slot_length,
}
use naicha_backend.Reservations.Slots.{ensure_slot, reserve_slot}

-- The orders and their items, with the sequences of both.
pub record KeepsOrders (before after : Db) : Type 0 where
  pub orders : after.orders ≡ before.orders
  pub order_items : after.order_items ≡ before.order_items
  pub next_order_id : after.next_order_id ≡ before.next_order_id
  pub next_item_id : after.next_item_id ≡ before.next_item_id

pub KeepsOrders-trans : {a b c : Db} → KeepsOrders a b → KeepsOrders b c → KeepsOrders a c
KeepsOrders-trans h k = record {
  orders = k.orders ∙ h.orders;
  order_items = k.order_items ∙ h.order_items;
  next_order_id = k.next_order_id ∙ h.next_order_id;
  next_item_id = k.next_item_id ∙ h.next_item_id;
}

pub ensure_idempotency-keeps :
    (w : Waiting) (now : ℕ) (k hash : String) (db : Db)
    → let db' = (ensure_idempotency w now k hash db).1 in
      KeepsOrders db db' × (db'.products ≡ db.products)
unfolding ensure_idempotency
ensure_idempotency-keeps w now k hash db = ground arith

-- Only the slots, their sequence and the shop profile.
abbrev pub OnlySlots : Db → Db → Type 0
OnlySlots db db' =
    KeepsOrders db db' × (db'.products ≡ db.products) × (db'.idempotency_keys ≡ db.idempotency_keys)

ensure_slot-OnlySlots :
    (settings : Settings) (now start end : ℕ) (db : Db)
    → OnlySlots db (ensure_slot settings now start end db)
unfolding ensure_slot
ensure_slot-OnlySlots settings now start end db = ground arith

reserve_slot-OnlySlots :
    (settings : Settings) (now start end : ℕ) (db : Db)
    → OnlySlots db (reserve_slot settings now start end db).1
unfolding reserve_slot
reserve_slot-OnlySlots settings now start end db =
    ground (arith, ensure_slot-OnlySlots settings now start end db)

get_profile-OnlySlots : (db : Db) → OnlySlots db (get_profile db).1
unfolding get_profile
get_profile-OnlySlots db = ground arith

reserve_plan-OnlySlots :
    (settings : Settings) (zone : Zone) (now target : ℕ) (db : Db)
    → OnlySlots db (reserve_plan settings zone now target db).1
unfolding reserve_plan
reserve_plan-OnlySlots settings zone now target db =
    let start_local = floor_to_slot target (slot_length settings) in
    let start = zone.to_utc start_local in
    let end = zone.to_utc (start_local + slot_length settings * minute) in
    ground (arith, reserve_slot-OnlySlots settings now start end db)

plan_target-OnlySlots :
    (settings : Settings) (zone : Zone) (now : ℕ) (target : Option ℕ) (db : Db)
    → OnlySlots db (plan_target settings zone now target db).1
unfolding plan_target
plan_target-OnlySlots settings zone now none db = ground arith
plan_target-OnlySlots settings zone now (some t) db =
    ground (arith, reserve_plan-OnlySlots settings zone now t db)

plan-OnlySlots :
    (settings : Settings) (zone : Zone) (now at : ℕ) (db : Db)
    → OnlySlots db (plan settings zone now at db).1
unfolding plan
plan-OnlySlots settings zone now at db =
    let (profile, db') = get_profile db in
    ground (
      arith,
      get_profile-OnlySlots db,
      plan_target-OnlySlots settings zone now (aligned_target profile (zone.to_local at)) db',
    )

pub plan_reservation-OnlySlots :
    (settings : Settings) (c : Context) (payload : CreateRequest) (db : Db)
    → OnlySlots db (plan_reservation settings c payload db).1
unfolding plan_reservation
plan_reservation-OnlySlots settings c payload db = elim (Option-cases payload.scheduled_at) [
  | inl at_once ↦ ground arith
  | inr (at, scheduled) ↦ ground (arith, plan-OnlySlots settings c.zone c.now at db)
]

-- A run of the loop that returns.
pub create_lines-keeps :
    (items : List ItemRequest) (db db' : Db) (ds : List DraftItem)
    → create_lines items db ≡ (ok ds, db')
    → KeepsOrders db db' × (db'.idempotency_keys ≡ db.idempotency_keys)
unfolding create_lines take_stock
create_lines-keeps [] db db' ds e = ground arith
create_lines-keeps (item ∷ items) db db' ds e =
    let (d, rest, mid, first, later, _) = create_lines-cons item items db db' ds e in
    let (p, found, covered, after) = create_line-ok item db mid d first in
    ground (arith, after, create_lines-keeps items mid db' rest later)
