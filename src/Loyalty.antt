-- ===== src/Loyalty.antt =====
-- LoyaltyService of app/services/loyalty.py: points for a paid order, coupons at every tenth point,
-- and the use of a coupon.
pub mod Balance
pub mod Keeps
pub mod Repeat
use naicha_backend.Database.{Db, Settings}
use naicha_backend.Errors.{CouponError, coupon_invalid, coupon_not_found}
use naicha_backend.Exec.{Exec, err, ok}
use naicha_backend.Models.{
  CouponStatus, CouponType, LoyaltyReason, OrderStatus, coupon_status_tagged, coupon_type_tagged,
  loyalty_reason_tagged, order_status_tagged, ◌is◌,
}
use naicha_backend.Models.Rows.{Coupon, Decimal, LoyaltyTransaction, Order, OrderItem, User}
use naicha_backend.Prelude.{
  Bool, List, Option, [], false, if◌then◌else◌, leb_ℤ, length, max, none, not, pos, pos_part,
  select, some, suc, sum_by, zero, ℕ, ◌%◌, ◌&&◌, ◌*◌, ◌++◌, ◌+◌, ◌-ℤ◌, ◌/◌, ◌==◌, ◌^◌, ◌||◌, ◌∷◌,
}
use naicha_backend.Table.{find, update}

-- COUPON_THRESHOLD
abbrev pub coupon_threshold : ℕ
coupon_threshold = 10

-- `_get_order_cups`
unfoldable pub get_order_cups : ℕ → List OrderItem → ℕ
get_order_cups order_id items =
    sum_by (λ i. i.quantity) (select (λ i. i.order_id == order_id) items)

-- `_calculate_points`: the cups times the ratio, rounded down; none if the ratio is not positive.
unfoldable pub calculate_points : Decimal → ℕ → ℕ
calculate_points ratio total_cups =
    if total_cups == 0
    then 0
    else if leb_ℤ ratio.coeff (pos 0)
    then 0
    else total_cups * pos_part ratio.coeff / 10 ^ ratio.places

-- The transaction that charges for a coupon.
abbrev pub grant_row : ℕ → LoyaltyTransaction
grant_row user_id = record {
  user_id = user_id;
  order_id = none;
  delta_points = pos 0 -ℤ pos coupon_threshold;
  reason = LoyaltyReason.coupon_grant;
}

-- The transaction that credits a paid order.
abbrev pub award_row : ℕ → ℕ → ℕ → LoyaltyTransaction
award_row user_id order_id points = record {
  user_id = user_id;
  order_id = some order_id;
  delta_points = pos points;
  reason = LoyaltyReason.order_paid;
}

abbrev pub new_coupon : ℕ → ℕ → ℕ → Coupon
new_coupon now user_id coupon_id = record {
  coupon_id = coupon_id;
  user_id = user_id;
  type_tag = CouponType.free_any_drink;
  status = CouponStatus.active;
  meta = record {
    min_order_amount = none;
    discount_amount = none;
    discount_percentage = none;
    max_discount_amount = none;
  };
  issued_at = some now;
  used_at = none;
  used_in_order_id = none;
}

-- `_issue_coupon`
unfoldable pub issue_coupon : ℕ → ℕ → Db → Db
issue_coupon now user_id db = record db {
  loyalty_transactions = db.loyalty_transactions ++ grant_row user_id ∷ [];
  coupons = db.coupons ++ new_coupon now user_id db.next_coupon_id ∷ [];
  next_coupon_id = db.next_coupon_id + 1;
}

-- `for _ in range(coupons_to_issue)`
unfoldable pub issue_coupons : ℕ → ℕ → ℕ → Db → Db
unfolding issue_coupon
issue_coupons zero now user_id db = db
issue_coupons (suc n) now user_id db = issue_coupons n now user_id (issue_coupon now user_id db)

-- The query for an award of the same order to the same user.
unfoldable pub already_awarded : ℕ → ℕ → List LoyaltyTransaction → Bool
already_awarded user_id order_id [] = false
already_awarded user_id order_id (t ∷ ts) =
    t.user_id == user_id
      && elim t.order_id [ none ↦ false | some o ↦ o == order_id ]
      && (t.reason is LoyaltyReason.order_paid)
    || already_awarded user_id order_id ts

-- The writes of an award of some points to a user.
unfoldable pub award_points : ℕ → ℕ → ℕ → User → Db → Db
award_points now order_id points user db =
    let augmented = user.loyalty_points + points in
    let set_points = λ (u : User). record u { loyalty_points = augmented % coupon_threshold } in
    issue_coupons (augmented / coupon_threshold) now user.user_id (record db {
      users = update (λ u. u.user_id) user.user_id set_points db.users;
      loyalty_transactions = db.loyalty_transactions ++ award_row user.user_id order_id points ∷ [];
    })

-- `award_on_payment`
unfoldable pub award_on_payment : Settings → ℕ → Order → Bool → Db → Db
award_on_payment settings now order skip_duplicate_check db = elim order.user_id [
  | none ↦ db
  | some user_id ↦
      if not skip_duplicate_check && already_awarded user_id order.order_id db.loyalty_transactions
      then db
      else (let cups = get_order_cups order.order_id db.order_items in
          let points = calculate_points settings.loyalty_points_ratio cups in
          if points == 0 then db else elim (find (λ (u : User). u.user_id) user_id db.users) [
            | none ↦ db
            | some user ↦ award_points now order.order_id points user db
          ])
]

-- `use_coupon`; the query is by the coupon and its owner.
unfoldable pub use_coupon : ℕ → ℕ → ℕ → ℕ → Exec Db CouponError Coupon
use_coupon now coupon_id user_id order_id db =
    elim (find (λ (c : Coupon). c.coupon_id) coupon_id db.coupons) [
      | none ↦ (err (coupon_not_found coupon_id), db)
      | some c ↦
          if not (c.user_id == user_id)
          then (err (coupon_not_found coupon_id), db)
          else if not (c.status is CouponStatus.active)
          then (err (coupon_invalid coupon_id), db)
          else (let mark = λ (r : Coupon). record r {
            status = CouponStatus.used;
            used_at = some now;
            used_in_order_id = some order_id;
          } in
              (
                ok (mark c),
                record db { coupons = update (λ r. r.coupon_id) coupon_id mark db.coupons },
              ))
    ]

-- The orders that count for the stamp card.
abbrev counts_for_stamps : OrderStatus → Bool
counts_for_stamps s =
    s is OrderStatus.paid
    || s is OrderStatus.in_production
    || s is OrderStatus.ready_for_pickup
    || s is OrderStatus.completed

pub record StampStatus : Type 0 where
  pub total_completed_orders : ℕ
  pub stamps_in_cycle : ℕ
  pub rewards_available : ℕ
  pub cycle_size : ℕ

abbrev belongs_to : ℕ → Option ℕ → Bool
belongs_to user_id none = false
belongs_to user_id (some u) = u == user_id

-- `get_stamp_status`
unfoldable pub get_stamp_status : ℕ → Db → StampStatus
get_stamp_status user_id db =
    let counted = λ (o : Order). belongs_to user_id o.user_id && counts_for_stamps o.status in
    let completed = length (select counted db.orders) in
    let cycle = max coupon_threshold 1 in
    record {
      total_completed_orders = completed;
      stamps_in_cycle = completed % cycle;
      rewards_available = completed / cycle;
      cycle_size = cycle;
    }
