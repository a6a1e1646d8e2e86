-- ===== src/Orders/Preview/Bounds.antt =====
-- What a quoted price consists of.
use naicha_backend.Database.{Db}
use naicha_backend.Exec.{bind, bind-eq-ok, ok}
use naicha_backend.Models.{OrderType, order_type_tagged, ◌is◌}
use naicha_backend.Models.Rows.{User}
use naicha_backend.Money.{cents, quantize_currency}
use naicha_backend.Money.Rounding.{quantize-cents}
use naicha_backend.Orders.Errors.{CalculateRequest}
use naicha_backend.Orders.Preview.{
  PriceLine, PriceQuote, calculate_price_only, price_lines, quote_lines, sum_lines,
}
use naicha_backend.Orders.Pricing.{calculate_coupon, calculate_delivery_fee, calculate_points}
use naicha_backend.Orders.Pricing.Bounds.{calculate_points-bounds}
use naicha_backend.Prelude.{
  List, Option, ap, arith, if◌then◌else◌, ltb_ℤ, map, max_ℤ, pos, pos_part, sym, ℕ, ℤ, ◌&&◌, ◌*◌,
  ◌+ℤ◌, ◌-ℤ◌, ◌∙◌, ◌≡◌, ◌≤◌,
}

-- The parts of a quote for priced lines.
record Quoted (db : Db) (payload : CalculateRequest) (user : Option User) (lines : List PriceLine)
    (q : PriceQuote) : Type 0 where
  breakdown : q.breakdown ≡ lines
  subtotal : q.subtotal ≡ sum_lines lines
  points :
      calculate_points payload.points_use (max_ℤ (pos 0) (q.subtotal -ℤ q.coupon_discount)) user
      ≡ ok (q.points_discount, q.points_info)
  fee : q.delivery_fee ≡ calculate_delivery_fee payload.order_type q.subtotal
  final_amount :
      q.final_amount
      ≡ max_ℤ (pos 0) (q.subtotal -ℤ q.coupon_discount -ℤ q.points_discount +ℤ q.delivery_fee)

quote_lines-Quoted :
    (db : Db) (now : ℕ) (payload : CalculateRequest) (user : Option User) (lines : List PriceLine)
    (q : PriceQuote)
    → quote_lines db now payload user lines ≡ ok q
    → Quoted db payload user lines q
unfolding quote_lines
quote_lines-Quoted db now payload user lines q e =
    let subtotal = quantize_currency (cents (sum_lines lines)) in
    let exact : subtotal ≡ sum_lines lines = quantize-cents (sum_lines lines) in
    let (c, coupon, e1) =
      bind-eq-ok
        (calculate_coupon db payload.coupon_id subtotal user
          (map (λ (l : PriceLine). l.unit_price) lines))
        _ e in
    let (p, points, e2) =
      bind-eq-ok (calculate_points payload.points_use (max_ℤ (pos 0) (subtotal -ℤ c.0)) user) _
        e1 in
    let due =
      max_ℤ (pos 0)
        (subtotal -ℤ c.0 -ℤ p.0 +ℤ calculate_delivery_fee payload.order_type subtotal) in
    record {
      breakdown = ground arith;
      subtotal = ground (arith, exact);
      points = ground (arith, points);
      fee = ground arith;
      final_amount = ground (arith, quantize-cents due);
    }

priced_and_quoted :
    (db : Db) (now : ℕ) (payload : CalculateRequest) (user : Option User) (q : PriceQuote)
    → calculate_price_only db now payload user ≡ ok q
    → bind (price_lines db payload.items) (quote_lines db now payload user) ≡ ok q
unfolding calculate_price_only
priced_and_quoted db now payload user q e = ground arith

calculate_delivery_fee-lem :
    (t : OrderType) (subtotal : ℤ)
    → calculate_delivery_fee t subtotal
      ≡ (if (t is OrderType.delivery) && ltb_ℤ subtotal (pos 3000) then pos 600 else pos 0)
unfolding calculate_delivery_fee
calculate_delivery_fee-lem t subtotal =
    ground (arith, quantize-cents (pos 600), quantize-cents (pos 0))

-- A quoted price is made of lines that the price of every item gives. Its subtotal is their sum to
-- the cent, and the amount to pay is exactly the subtotal less the discounts plus the delivery fee,
-- or nothing where that is below zero. The points take at most three tenths of what the coupon
-- leaves, and a fee of six yuan is asked for just for a delivery below thirty.
pub calculate_price_only-quote :
    (db : Db) (now : ℕ) (payload : CalculateRequest) (user : Option User) (q : PriceQuote)
    → calculate_price_only db now payload user ≡ ok q
    → (price_lines db payload.items ≡ ok q.breakdown)
      × (q.subtotal ≡ sum_lines q.breakdown)
      × (q.final_amount
          ≡ max_ℤ (pos 0) (q.subtotal -ℤ q.coupon_discount -ℤ q.points_discount +ℤ q.delivery_fee))
      × (10 * pos_part q.points_discount
          ≤ 3 * pos_part (max_ℤ (pos 0) (q.subtotal -ℤ q.coupon_discount)))
      × (q.delivery_fee ≡ (
          if (payload.order_type is OrderType.delivery) && ltb_ℤ q.subtotal (pos 3000)
          then pos 600
          else pos 0))
calculate_price_only-quote db now payload user q e =
    let (lines, priced, e1) =
      bind-eq-ok (price_lines db payload.items) (quote_lines db now payload user)
        (priced_and_quoted db now payload user q e) in
    let quoted = quote_lines-Quoted db now payload user lines q e1 in
    let (n, is_n, _, _, third) =
      calculate_points-bounds payload.points_use (max_ℤ (pos 0) (q.subtotal -ℤ q.coupon_discount))
        q.points_discount user q.points_info quoted.points in
    (
      priced ∙ ap ok (sym quoted.breakdown),
      quoted.subtotal ∙ ap sum_lines (sym quoted.breakdown),
      quoted.final_amount,
      ground (arith, is_n, third),
      quoted.fee ∙ calculate_delivery_fee-lem payload.order_type q.subtotal,
    )
