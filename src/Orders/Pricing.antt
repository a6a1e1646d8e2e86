-- ===== src/Orders/Pricing.antt =====
-- The price arithmetic of OrderService: options, unit price, coupon, points, delivery fee, and the
-- waiting time. All of it is free of side effects.
pub mod Bounds
pub mod Eta
use naicha_backend.Database.{Db}
use naicha_backend.Exec.{Result, bind, err, ok}
use naicha_backend.Models.{
  CouponStatus, CouponType, InventoryStatus, OrderType, coupon_status_tagged, coupon_type_tagged,
  inventory_status_tagged, order_type_tagged, ◌is◌,
}
use naicha_backend.Models.Rows.{
  Coupon, CouponMeta, Decimal, Product, SpecOption, SpecSelection, User,
}
use naicha_backend.Money.{cents, hundredth, min_decimal, mul_decimal, quantize_currency}
use naicha_backend.Orders.Errors.{
  OrderError, coupon_needs_login, coupon_unusable, option_not_allowed, option_not_found,
  option_sold_out, points_need_login, validation,
}
use naicha_backend.Prelude.{
  Bool, List, Option, String, [], contains, false, if◌then◌else◌, leb, leb_ℤ, ltb, ltb_ℤ, map, min,
  min_ℤ, none, not, pos, pos_part, select, some, true, ℕ, ℤ, ◌&&◌, ◌*◌, ◌+ℤ◌, ◌/◌, ◌==◌, ◌||◌, ◌∷◌,
}
use naicha_backend.Table.{find}

-- `products.get(product_id)` on the dict of `_load_products_with_groups`. The query asks for the
-- ids of the payload, and only those are looked up.
abbrev pub get_product : Db → ℕ → Option Product
get_product db product_id = find (λ p. p.product_id) product_id db.products

-- `product_groups.get(product_id, set())`.
abbrev pub allowed_groups : Db → ℕ → List ℕ
allowed_groups db product_id =
    map (λ m. m.group_id) (select (λ m. m.product_id == product_id) db.spec_mappings)

-- `options_lookup.get(option_id)` on the dict of `_load_spec_options`, and the name of its group.
abbrev pub get_option : Db → ℕ → Option SpecOption
get_option db option_id = find (λ o. o.option_id) option_id db.spec_options

abbrev pub group_name : Db → ℕ → Option String
group_name db group_id = elim (find (λ g. g.group_id) group_id db.spec_groups) [
  | none ↦ none
  | some g ↦ some g.name
]

abbrev is_empty : List ℕ → Bool
is_empty [] = true
is_empty (x ∷ xs) = false

-- One round of the loop of `_pick_spec_options`.
pub pick_option : Db → List ℕ → ℕ → ℕ → Result OrderError SpecSelection
pick_option db groups product_id option_id = elim (get_option db option_id) [
  | none ↦ err (validation (option_not_found option_id))
  | some o ↦
      if not (is_empty groups) && not (contains o.group_id groups)
      then err (validation (option_not_allowed option_id product_id))
      else if not (o.inventory_status is InventoryStatus.in_stock)
      then err (validation (option_sold_out option_id))
      else ok (record {
        group_id = o.group_id;
        group_name = group_name db o.group_id;
        option_id = o.option_id;
        option_name = o.name;
        price_modifier = o.price_modifier;
      })
]

-- `_pick_spec_options`: the selections and the sum of their modifiers.
unfoldable pub pick_spec_options :
    Db → List ℕ → ℕ → List ℕ → Result OrderError (List SpecSelection × ℤ)
unfolding pick_option
pick_spec_options db groups product_id [] = ok ([], pos 0)
pick_spec_options db groups product_id (option_id ∷ ids) =
    bind (pick_option db groups product_id option_id) λ s.
      bind (pick_spec_options db groups product_id ids) λ r. ok (s ∷ r.0, s.price_modifier +ℤ r.1)

-- `_calculate_unit_price`
unfoldable pub calculate_unit_price : ℤ → ℤ → ℤ
calculate_unit_price base_price modifiers = quantize_currency (cents (base_price +ℤ modifiers))

-- `min` of a list that is not empty, the first value given.
unfoldable pub min_price : ℤ → List ℤ → ℤ
min_price m [] = m
min_price m (x ∷ xs) = min_price (min_ℤ m x) xs

abbrev decimal_or : Option Decimal → Decimal → Decimal
decimal_or none d = d
decimal_or (some x) d = x

abbrev zero_decimal : Decimal
zero_decimal = record { coeff = pos 0; places = 0 }

pub record CouponInfo : Type 0 where
  pub coupon_id : ℕ
  pub type_tag : CouponType
  pub discount_amount : ℤ
  pub min_order_amount : Option ℤ
  pub is_applicable : Bool

-- `min_order_amount is not None and subtotal < min_order_amount`
abbrev below_minimum : ℤ → Option ℤ → Bool
below_minimum subtotal none = false
below_minimum subtotal (some m) = ltb_ℤ subtotal m

abbrev quantize_some : Option Decimal → Option ℤ
quantize_some none = none
quantize_some (some d) = some (quantize_currency d)

-- The discount before the last rounding, by the type of the coupon, and whether it applies.
unfoldable pub raw_discount : CouponType → CouponMeta → ℤ → List ℤ → Decimal × Bool
raw_discount CouponType.amount_off meta subtotal prices =
    if below_minimum subtotal (quantize_some meta.min_order_amount)
    then (cents (min_ℤ (pos 0) subtotal), false)
    else (
      cents (min_ℤ (quantize_currency (decimal_or meta.discount_amount zero_decimal)) subtotal),
      true,
    )
raw_discount CouponType.percentage_off meta subtotal prices =
    let percentage = decimal_or meta.discount_percentage zero_decimal in
    let most = quantize_currency (decimal_or meta.max_discount_amount (cents subtotal)) in
    let discount = mul_decimal (cents subtotal) (hundredth percentage) in
    (min_decimal (min_decimal discount (cents most)) (cents subtotal), true)
raw_discount CouponType.free_any_drink meta subtotal [] = (cents (pos 0), true)
raw_discount CouponType.free_any_drink meta subtotal (p ∷ ps) = (cents (min_price p ps), true)
raw_discount CouponType.unsupported meta subtotal prices = (cents (pos 0), false)

-- The query for the coupon: of that user, and active.
abbrev pub active_coupon : Db → ℕ → ℕ → Option Coupon
active_coupon db coupon_id user_id =
    elim (find (λ (c : Coupon). c.coupon_id) coupon_id db.coupons) [
      | none ↦ none
      | some c ↦ if c.user_id == user_id && (c.status is CouponStatus.active) then some c else none
    ]

-- The answer for a coupon that was found.
unfoldable pub coupon_discount : Coupon → ℤ → List ℤ → ℤ × CouponInfo
unfolding raw_discount
coupon_discount c subtotal prices =
    let (raw, applicable) = raw_discount c.type_tag c.meta subtotal prices in
    let discount = if applicable then quantize_currency raw else pos 0 in
    (
      discount,
      record {
        coupon_id = c.coupon_id;
        type_tag = c.type_tag;
        discount_amount = discount;
        min_order_amount = quantize_some c.meta.min_order_amount;
        is_applicable = applicable;
      },
    )

-- `_calculate_coupon`
unfoldable pub calculate_coupon :
    Db → Option ℕ → ℤ → Option User → List ℤ → Result OrderError (ℤ × Option CouponInfo)
unfolding coupon_discount
calculate_coupon db none subtotal user prices = ok (pos 0, none)
calculate_coupon db (some coupon_id) subtotal none prices = err (validation coupon_needs_login)
calculate_coupon db (some coupon_id) subtotal (some user) prices =
    elim (active_coupon db coupon_id user.user_id) [
      | none ↦ err (validation coupon_unusable)
      | some c ↦
          (let (discount, info) = coupon_discount c subtotal prices in ok (discount, some info))
    ]

pub record PointsInfo : Type 0 where
  pub available : ℕ
  pub used : ℕ
  pub discount : ℤ

-- `max(payable, 0) * 0.3 * 100`, rounded down: thirty percent of the amount, at a cent a point.
abbrev pub points_cap : ℤ → ℕ
points_cap payable = pos_part payable * 3 / 10

-- `_calculate_points`
unfoldable pub calculate_points : ℕ → ℤ → Option User → Result OrderError (ℤ × Option PointsInfo)
calculate_points requested payable none =
    if ltb 0 requested then err (validation points_need_login) else ok (pos 0, none)
calculate_points requested payable (some user) =
    if leb requested 0 || leb user.loyalty_points 0
    then ok (pos 0, some (record { available = user.loyalty_points; used = 0; discount = pos 0 }))
    else (let actual = min (min requested user.loyalty_points) (points_cap payable) in
        let discount = quantize_currency (hundredth (record { coeff = pos actual; places = 0 })) in
        ok (
          discount,
          some (record { available = user.loyalty_points; used = actual; discount = discount }),
        ))

-- `_calculate_delivery_fee`: six yuan below thirty.
unfoldable pub calculate_delivery_fee : OrderType → ℤ → ℤ
calculate_delivery_fee order_type subtotal =
    if not (order_type is OrderType.delivery)
    then pos 0
    else quantize_currency (cents (if leb_ℤ (pos 3000) subtotal then pos 0 else pos 600))
