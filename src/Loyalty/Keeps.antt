-- ===== src/Loyalty/Keeps.antt =====
-- An award keeps the account of every user in balance.
use native.Mathlib.Nat.{div-add-mod, mod-lt}
use naicha_backend.Database.{Db, Settings}
use naicha_backend.Loyalty.{
  already_awarded, award_on_payment, award_points, calculate_points, coupon_threshold,
  get_order_cups,
}
use naicha_backend.Loyalty.Balance.{
  award_points-Awarded, coupons_of, earned, granted, points_of, points_of-award_points,
}
use naicha_backend.Models.Rows.{Order, User}
use naicha_backend.Prelude.{
  Bool, Bool-cases, Option-cases, arith, false, inl, inr, not, some, true, ℕ, ◌&&◌, ◌*◌, ◌+◌, ◌<◌,
  ◌==◌, ◌≡◌, ◌⊎◌,
}
use naicha_backend.Table.{find, key-find}

-- The account of a user is in balance: the points that the ledger credits are those on the card and
-- ten for each coupon that it charges for, the coupons are those charged for, and the card is not full.
pub record IsBalanced (u : ℕ) (db : Db) : Type 0 where
  pub balance :
      points_of u db + coupon_threshold * granted u db.loyalty_transactions
      ≡ earned u db.loyalty_transactions
  pub coupons : coupons_of u db.coupons ≡ granted u db.loyalty_transactions
  pub not_full : points_of u db < coupon_threshold

award_points-IsBalanced :
    (now order_id points u : ℕ) (user : User) (db : Db)
    → find (λ (x : User). x.user_id) user.user_id db.users ≡ some user
    → IsBalanced u db
    → IsBalanced u (award_points now order_id points user db)
award_points-IsBalanced now order_id points u user db found h =
    let more = award_points-Awarded now order_id points u user db found in
    let card = points_of-award_points now order_id points u user db found in
    let augmented = user.loyalty_points + points in
    let divided = div-add-mod augmented coupon_threshold in
    let small = mod-lt augmented {m = coupon_threshold} (omega arith) in
    let own : (user.user_id == u) ≡ true → points_of u db ≡ user.loyalty_points =
      λ same. ground (arith, found) in
    elim (Bool-cases (user.user_id == u)) [
      | inl same ↦ record {
        balance =
            ground
              (arith, same, own, card, more.earned_more, more.granted_more, h.balance, divided);
        coupons = ground (arith, same, more.coupons_more, more.granted_more, h.coupons);
        not_full = ground (arith, same, card, small);
      }
      | inr other ↦ record {
        balance = ground (arith, other, card, more.earned_more, more.granted_more, h.balance);
        coupons = ground (arith, other, more.coupons_more, more.granted_more, h.coupons);
        not_full = ground (arith, other, card, h.not_full);
      }
    ]

-- A call either changes nothing, and then neither does a later one that searches, or it adds the points of the order to a user that there is.
pub award_on_payment-cases :
    (settings : Settings) (now : ℕ) (order : Order) (skip : Bool) (db : Db)
    → ((award_on_payment settings now order skip db ≡ db)
        × ((later : ℕ) → award_on_payment settings later order false db ≡ db))
      ⊎ ((user : User) × (points : ℕ) × (order.user_id ≡ some user.user_id)
          × (find (λ (x : User). x.user_id) user.user_id db.users ≡ some user)
          × (award_on_payment settings now order skip db
              ≡ award_points now order.order_id points user db))
unfolding award_on_payment
award_on_payment-cases settings now order skip db = elim (Option-cases order.user_id) [
  | inl no_one ↦ inl (ground arith, λ later. ground arith)
  | inr (v, of_user) ↦ elim (Option-cases (find (λ (x : User). x.user_id) v db.users)) [
    | inl absent ↦ inl (ground arith, λ later. ground arith)
    | inr (user, found) ↦
        (let key = key-find (λ (x : User). x.user_id) v db.users found in
          let points =
            calculate_points settings.loyalty_points_ratio
              (get_order_cups order.order_id db.order_items) in
          elim (Bool-cases (not skip && already_awarded v order.order_id db.loyalty_transactions)) [
            | inl duplicate ↦ inl (ground arith, λ later. ground arith)
            | inr new ↦ elim (Bool-cases (points == 0)) [
              | inl nothing ↦ inl (ground arith, λ later. ground arith)
              | inr some_points ↦
                  inr (user, points, ground (arith, key), ground (arith, key), ground arith)
            ]
          ])
  ]
]

-- An award for a paid order keeps the account of every user in balance, whether it is for that user,
-- for another one or for no one, and with the search for duplicates or without it.
pub award_on_payment-IsBalanced :
    (settings : Settings) (now : ℕ) (order : Order) (skip_duplicate_check : Bool) (u : ℕ) (db : Db)
    → IsBalanced u db
    → IsBalanced u (award_on_payment settings now order skip_duplicate_check db)
award_on_payment-IsBalanced settings now order skip_duplicate_check u db h =
    elim (award_on_payment-cases settings now order skip_duplicate_check db) [
      | inl (unchanged, _) ↦ rw unchanged h
      | inr (user, points, of_user, found, after) ↦
          rw after (award_points-IsBalanced now order.order_id points u user db found h)
    ]
