-- ===== src/Tests/Loyalty.antt =====
-- Points and coupons of a user with nine points.
use naicha_backend.Database.{Db}
use naicha_backend.Errors.{coupon_invalid}
use naicha_backend.Exec.{err, ok}
use naicha_backend.Loyalty.{award_on_payment, award_row, new_coupon, use_coupon}
use naicha_backend.Loyalty.Keeps.{IsBalanced, award_on_payment-IsBalanced}
use naicha_backend.Loyalty.Repeat.{award_twice, use_coupon-once}
use naicha_backend.Models.{CouponStatus}
use naicha_backend.Models.Rows.{Coupon}
use naicha_backend.Prelude.{[], arith, false, refl, some, true, ◌∷◌, ◌≡◌}
use naicha_backend.Table.{find, update}
use naicha_backend.Tests.Data.{busy_db, pending_order, shop_settings}

-- Nine points from earlier orders.
abbrev db : Db
db = record busy_db { loyalty_transactions = award_row 7 9 9 ∷ [] }

db-IsBalanced : IsBalanced 7 db
unfolding find
db-IsBalanced = record { balance = refl; coupons = refl; not_full = omega arith }

award_on_payment-IsBalanced_example :
    IsBalanced 7 (award_on_payment shop_settings 300 pending_order true db)
award_on_payment-IsBalanced_example =
    award_on_payment-IsBalanced shop_settings 300 pending_order true 7 db db-IsBalanced

award_twice_example :
    let db' = award_on_payment shop_settings 300 pending_order true db in
    award_on_payment shop_settings 400 pending_order false db' ≡ db'
award_twice_example = award_twice shop_settings 300 400 pending_order true db

abbrev coupon_db : Db
coupon_db = record db { coupons = new_coupon 200 7 1 ∷ [] }

abbrev used_coupon : Coupon
used_coupon = record (new_coupon 200 7 1) {
  status = CouponStatus.used;
  used_at = some 300;
  used_in_order_id = some 1;
}

use-ok :
    use_coupon 300 1 7 1 coupon_db
    ≡ (ok used_coupon, record coupon_db { coupons = used_coupon ∷ [] })
unfolding use_coupon find update
use-ok = refl

use_coupon-once_example :
    let db' : Db = record coupon_db { coupons = used_coupon ∷ [] } in
    (used_coupon.user_id ≡ 7)
    × (used_coupon.status ≡ CouponStatus.used)
    × (use_coupon 400 1 7 2 db' ≡ (err (coupon_invalid 1), db'))
use_coupon-once_example =
    use_coupon-once 300 400 1 7 1 2 coupon_db (record coupon_db { coupons = used_coupon ∷ [] })
      used_coupon use-ok
