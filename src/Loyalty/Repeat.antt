-- ===== src/Loyalty/Repeat.antt =====
-- What a second call of `award_on_payment` or of `use_coupon` does.
use naicha_backend.Database.{Db, Settings}
use naicha_backend.Errors.{coupon_invalid}
use naicha_backend.Exec.{err, ok}
use naicha_backend.Loyalty.{
  already_awarded, award_on_payment, award_points, award_row, coupon_threshold, grant_row,
  issue_coupon, issue_coupons, use_coupon,
}
use naicha_backend.Loyalty.Keeps.{award_on_payment-cases}
use naicha_backend.Models.{CouponStatus}
use naicha_backend.Models.Rows.{Coupon, LoyaltyTransaction, Order, User}
use naicha_backend.Prelude.{
  Bool, List, Option-cases, [], arith, false, inl, inr, refl, some, suc, true, zero, ℕ, ◌%◌, ◌++◌,
  ◌+◌, ◌/◌, ◌||◌, ◌∙◌, ◌∷◌, ◌≡◌,
}
use naicha_backend.Table.{find, find-update, update}

already_awarded-append :
    (u o : ℕ) (ts : List LoyaltyTransaction) (t : LoyaltyTransaction)
    → already_awarded u o (ts ++ t ∷ []) ≡ (already_awarded u o ts || already_awarded u o (t ∷ []))
unfolding already_awarded
already_awarded-append u o [] t = ground arith
already_awarded-append u o (x ∷ ts) t = ground (arith, already_awarded-append u o ts t)

already_awarded-issue_coupons :
    (n now v u o : ℕ) (db : Db)
    → already_awarded u o db.loyalty_transactions ≡ true
    → already_awarded u o (issue_coupons n now v db).loyalty_transactions ≡ true
unfolding issue_coupons issue_coupon
already_awarded-issue_coupons zero now v u o db h = h
already_awarded-issue_coupons (suc n) now v u o db h =
    already_awarded-issue_coupons n now v u o (issue_coupon now v db)
      (already_awarded-append u o db.loyalty_transactions (grant_row v) ∙ ground (arith, h))

already_awarded-award_points :
    (now order_id points : ℕ) (user : User) (db : Db)
    → already_awarded user.user_id order_id
        (award_points now order_id points user db).loyalty_transactions
      ≡ true
unfolding award_points already_awarded
already_awarded-award_points now order_id points user db =
    let augmented = user.loyalty_points + points in
    let set_points = λ (x : User). record x { loyalty_points = augmented % coupon_threshold } in
    let paid = award_row user.user_id order_id points in
    let start = record db {
      users = update (λ x. x.user_id) user.user_id set_points db.users;
      loyalty_transactions = db.loyalty_transactions ++ paid ∷ [];
    } in
    already_awarded-issue_coupons (augmented / coupon_threshold) now user.user_id user.user_id
      order_id start
      (already_awarded-append user.user_id order_id db.loyalty_transactions paid ∙ ground arith)

award_on_payment-duplicate :
    (settings : Settings) (now user_id : ℕ) (order : Order) (db : Db)
    → order.user_id ≡ some user_id
    → already_awarded user_id order.order_id db.loyalty_transactions ≡ true
    → award_on_payment settings now order false db ≡ db
unfolding award_on_payment
award_on_payment-duplicate settings now user_id order db of_user awarded = ground arith

-- A call of `award_on_payment` that searches for duplicates (`skip_duplicate_check` is false), right
-- after a call for the same order with or without that search, changes nothing.
pub award_twice :
    (settings : Settings) (now later : ℕ) (order : Order) (skip_duplicate_check : Bool) (db : Db)
    → let db' = award_on_payment settings now order skip_duplicate_check db in
      award_on_payment settings later order false db' ≡ db'
award_twice settings now later order skip_duplicate_check db =
    elim (award_on_payment-cases settings now order skip_duplicate_check db) [
      | inl (unchanged, again) ↦ rw unchanged (again later)
      | inr (user, points, of_user, found, after) ↦ rw after (
          award_on_payment-duplicate settings later user.user_id order
            (award_points now order.order_id points user db) of_user
            (already_awarded-award_points now order.order_id points user db))
    ]

-- A coupon that `use_coupon` has returned belongs to the user, and the answer shows it as used;
-- any later use of it by the same user, for any order, is refused as invalid and changes nothing.
pub use_coupon-once :
    (now later id user_id order_id order_id' : ℕ) (db db' : Db) (c : Coupon)
    → use_coupon now id user_id order_id db ≡ (ok c, db')
    → (c.user_id ≡ user_id)
      × (c.status ≡ CouponStatus.used)
      × (use_coupon later id user_id order_id' db' ≡ (err (coupon_invalid id), db'))
unfolding use_coupon
use_coupon-once now later id user_id order_id order_id' db db' c e =
    elim (Option-cases (find (λ (r : Coupon). r.coupon_id) id db.coupons)) [
      | inl absent ↦ absurd (ground arith)
      | inr (r, found) ↦
          (let mark = λ (r : Coupon). record r {
            status = CouponStatus.used;
            used_at = some now;
            used_in_order_id = some order_id;
          } in
            let marked =
              find-update (λ (r : Coupon). r.coupon_id) id id mark db.coupons (λ r. refl) in
            (ground arith, ground arith, ground (arith, marked)))
    ]
