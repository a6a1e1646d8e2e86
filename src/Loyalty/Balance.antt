-- ===== src/Loyalty/Balance.antt =====
-- The points of a user against the ledger of loyalty transactions, and the coupons that it grants.
use naicha_backend.Database.{Db}
use naicha_backend.Loyalty.{
  award_points, award_row, coupon_threshold, grant_row, issue_coupon, issue_coupons, new_coupon,
}
use naicha_backend.Models.{LoyaltyReason, loyalty_reason_tagged, ◌is◌}
use naicha_backend.Models.Rows.{Coupon, LoyaltyTransaction, User}
use naicha_backend.Prelude.{
  List, [], arith, if◌then◌else◌, none, pos_part, refl, some, suc, zero, ℕ, ◌%◌, ◌&&◌, ◌++◌, ◌+◌,
  ◌/◌, ◌==◌, ◌∙◌, ◌∷◌, ◌≡◌,
}
use naicha_backend.Table.{find, find-update, update}

-- The points that the ledger credits a user with for paid orders.
abbrev pub earned : ℕ → List LoyaltyTransaction → ℕ
earned u [] = 0
earned u (t ∷ ts) =
    (if t.user_id == u && (t.reason is LoyaltyReason.order_paid)
      then pos_part t.delta_points
      else 0)
    + earned u ts

-- How many coupons the ledger has charged a user for.
abbrev pub granted : ℕ → List LoyaltyTransaction → ℕ
granted u [] = 0
granted u (t ∷ ts) =
    (if t.user_id == u && (t.reason is LoyaltyReason.coupon_grant) then 1 else 0) + granted u ts

abbrev pub points_of : ℕ → Db → ℕ
points_of u db = elim (find (λ (x : User). x.user_id) u db.users) [
  | none ↦ 0
  | some x ↦ x.loyalty_points
]

abbrev pub coupons_of : ℕ → List Coupon → ℕ
coupons_of u [] = 0
coupons_of u (c ∷ cs) = (if c.user_id == u then 1 else 0) + coupons_of u cs

earned-append :
    (u : ℕ) (ts : List LoyaltyTransaction) (t : LoyaltyTransaction)
    → earned u (ts ++ t ∷ []) ≡ earned u ts + earned u (t ∷ [])
earned-append u [] t = ground arith
earned-append u (x ∷ ts) t = ground (arith, earned-append u ts t)

granted-append :
    (u : ℕ) (ts : List LoyaltyTransaction) (t : LoyaltyTransaction)
    → granted u (ts ++ t ∷ []) ≡ granted u ts + granted u (t ∷ [])
granted-append u [] t = ground arith
granted-append u (x ∷ ts) t = ground (arith, granted-append u ts t)

coupons_of-append :
    (u : ℕ) (cs : List Coupon) (c : Coupon)
    → coupons_of u (cs ++ c ∷ []) ≡ coupons_of u cs + coupons_of u (c ∷ [])
coupons_of-append u [] c = ground arith
coupons_of-append u (x ∷ cs) c = ground (arith, coupons_of-append u cs c)

-- What the loop over the coupons does.
record Issued (u n v : ℕ) (before after : Db) : Type 0 where
  users : after.users ≡ before.users
  earned_same : earned u after.loyalty_transactions ≡ earned u before.loyalty_transactions
  granted_more :
      granted u after.loyalty_transactions
      ≡ granted u before.loyalty_transactions + (if v == u then n else 0)
  coupons_more :
      coupons_of u after.coupons ≡ coupons_of u before.coupons + (if v == u then n else 0)

issue_coupon-Issued : (u now v : ℕ) (db : Db) → Issued u 1 v db (issue_coupon now v db)
unfolding issue_coupon
issue_coupon-Issued u now v db = record {
  users = refl;
  earned_same = ground (arith, earned-append u db.loyalty_transactions (grant_row v));
  granted_more = ground (arith, granted-append u db.loyalty_transactions (grant_row v));
  coupons_more =
      ground (arith, coupons_of-append u db.coupons (new_coupon now v db.next_coupon_id));
}

issue_coupons-Issued : (n u now v : ℕ) (db : Db) → Issued u n v db (issue_coupons n now v db)
unfolding issue_coupons
issue_coupons-Issued zero u now v db = record {
  users = refl;
  earned_same = refl;
  granted_more = ground arith;
  coupons_more = ground arith;
}
issue_coupons-Issued (suc n) u now v db =
    let one = issue_coupon-Issued u now v db in
    let more = issue_coupons-Issued n u now v (issue_coupon now v db) in
    record {
      users = more.users ∙ one.users;
      earned_same = more.earned_same ∙ one.earned_same;
      granted_more = ground (arith, more.granted_more, one.granted_more);
      coupons_more = ground (arith, more.coupons_more, one.coupons_more);
    }

-- What an award adds to each side of the account of a user.
pub record Awarded (u v points issued : ℕ) (before after : Db) : Type 0 where
  pub earned_more :
      earned u after.loyalty_transactions
      ≡ earned u before.loyalty_transactions + (if v == u then points else 0)
  pub granted_more :
      granted u after.loyalty_transactions
      ≡ granted u before.loyalty_transactions + (if v == u then issued else 0)
  pub coupons_more :
      coupons_of u after.coupons ≡ coupons_of u before.coupons + (if v == u then issued else 0)

module _ (now order_id points u : ℕ) (user : User) (db : Db)
    (found : find (λ (x : User). x.user_id) user.user_id db.users ≡ some user) where
  abbrev pub issued : ℕ
  issued = (user.loyalty_points + points) / coupon_threshold

  pub award_points-Awarded :
      Awarded u user.user_id points issued db (award_points now order_id points user db)
  unfolding award_points
  award_points-Awarded =
      let paid = award_row user.user_id order_id points in
      let set_points = λ (x : User). record x {
        loyalty_points = (user.loyalty_points + points) % coupon_threshold;
      } in
      let start = record db {
        users = update (λ x. x.user_id) user.user_id set_points db.users;
        loyalty_transactions = db.loyalty_transactions ++ paid ∷ [];
      } in
      let loop = issue_coupons-Issued issued u now user.user_id start in
      record {
        earned_more =
            ground (arith, loop.earned_same, earned-append u db.loyalty_transactions paid);
        granted_more =
            ground (arith, loop.granted_more, granted-append u db.loyalty_transactions paid);
        coupons_more = loop.coupons_more;
      }

  pub points_of-award_points : points_of u (award_points now order_id points user db) ≡ (
      if user.user_id == u
      then (user.loyalty_points + points) % coupon_threshold
      else points_of u db)
  unfolding award_points
  points_of-award_points =
      let augmented = user.loyalty_points + points in
      let set_points = λ (x : User). record x { loyalty_points = augmented % coupon_threshold } in
      let start = record db {
        users = update (λ x. x.user_id) user.user_id set_points db.users;
        loyalty_transactions =
            db.loyalty_transactions ++ award_row user.user_id order_id points ∷ [];
      } in
      let loop = issue_coupons-Issued (augmented / coupon_threshold) u now user.user_id start in
      let set =
        find-update (λ (x : User). x.user_id) user.user_id u set_points db.users (λ x. refl) in
      ground (arith, loop.users, set, found)
