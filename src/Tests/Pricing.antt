-- ===== src/Tests/Pricing.antt =====
-- Prices of a basket of milk tea.
use naicha_backend.Database.{about_minutes}
use naicha_backend.Exec.{err, ok}
use naicha_backend.Orders.Pricing.{calculate_points}
use naicha_backend.Models.{OrderType, order_type_tagged, ◌is◌}
use naicha_backend.Money.{hundredth, quantize_currency}
use naicha_backend.Orders.Errors.{CalculateRequest}
use naicha_backend.Orders.Preview.{
  PriceQuote, calculate_price_only, price_line, price_lines, quote_lines, sum_lines,
}
use naicha_backend.Orders.Preview.Bounds.{calculate_price_only-quote}
use naicha_backend.Orders.Pricing.{
  calculate_coupon, calculate_delivery_fee, calculate_unit_price, pick_spec_options,
}
use naicha_backend.Prelude.{
  [], if◌then◌else◌, ltb_ℤ, max_ℤ, none, pos, pos_part, refl, some, times, true, ◌&&◌, ◌*◌, ◌+ℤ◌,
  ◌-ℤ◌, ◌∷◌, ◌≡◌, ◌≤◌,
}
use naicha_backend.Table.{find}
use naicha_backend.Tests.Data.{ann, empty_db}

abbrev basket : CalculateRequest
basket = record {
  items = record { product_id = 1; quantity = 2; spec_option_ids = [] } ∷ [];
  coupon_id = none;
  points_use = 4;
  order_type = OrderType.delivery;
  has_address = true;
}

abbrev no_quote : PriceQuote
no_quote = record {
  subtotal = pos 0;
  coupon_discount = pos 0;
  points_discount = pos 0;
  delivery_fee = pos 0;
  final_amount = pos 0;
  breakdown = [];
  coupon_info = none;
  points_info = none;
  eta_minutes = 0;
  eta_text = about_minutes 0;
}

abbrev quote : PriceQuote
quote = elim (calculate_price_only empty_db 0 basket (some ann)) [ ok q ↦ q | err e ↦ no_quote ]

quote-ok : calculate_price_only empty_db 0 basket (some ann) ≡ ok quote
unfolding calculate_price_only price_lines price_line pick_spec_options calculate_unit_price
    quantize_currency find times ◌+ℤ◌ ◌-ℤ◌ quote_lines calculate_coupon calculate_points hundredth
    calculate_delivery_fee
quote-ok = refl

calculate_price_only-quote_example :
    (price_lines empty_db basket.items ≡ ok quote.breakdown)
    × (quote.subtotal ≡ sum_lines quote.breakdown)
    × (quote.final_amount
        ≡ max_ℤ (pos 0) (
            quote.subtotal -ℤ quote.coupon_discount -ℤ quote.points_discount +ℤ quote.delivery_fee))
    × (10 * pos_part quote.points_discount
        ≤ 3 * pos_part (max_ℤ (pos 0) (quote.subtotal -ℤ quote.coupon_discount)))
    × (quote.delivery_fee ≡ (
        if (OrderType.delivery is OrderType.delivery) && ltb_ℤ quote.subtotal (pos 3000)
        then pos 600
        else pos 0))
calculate_price_only-quote_example =
    calculate_price_only-quote empty_db 0 basket (some ann) quote quote-ok

points-ok :
    calculate_points 4 (pos 3000) (some ann)
    ≡ ok (pos 4, some (record { available = 9; used = 4; discount = pos 4 }))
unfolding calculate_points quantize_currency hundredth times
points-ok = refl
