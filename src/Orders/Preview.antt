-- ===== src/Orders/Preview.antt =====
-- `calculate_price_only` of app/services/orders.py: the price of a basket, with no write.
pub mod Bounds
use naicha_backend.Database.{Db, EtaText}
use naicha_backend.Exec.{Result, bind, err, ok}
use naicha_backend.Models.{
  InventoryStatus, OrderType, ProductStatus, inventory_status_tagged, order_type_tagged,
  product_status_tagged, ◌is◌,
}
use naicha_backend.Models.Rows.{Product, SpecSelection, User}
use naicha_backend.Money.{cents, quantize_currency}
use naicha_backend.Orders.Errors.{
  CalculateRequest, ItemRequest, OrderError, address_required, coupon_needs_login, no_items,
  points_need_login, product_inactive, product_not_found, product_sold_out, truthy, validation,
}
use naicha_backend.Orders.Pricing.{
  CouponInfo, PointsInfo, allowed_groups, calculate_coupon, calculate_delivery_fee,
  calculate_points, calculate_unit_price, get_product, pick_spec_options,
}
use naicha_backend.Orders.Pricing.Eta.{estimate_eta_minutes, format_eta_text}
use naicha_backend.Prelude.{
  Bool, List, Option, String, [], false, if◌then◌else◌, is_some, ltb, map, max_ℤ, none, not, pos,
  some, sum_by, times, true, ℕ, ℤ, ◌&&◌, ◌+ℤ◌, ◌-ℤ◌, ◌==◌, ◌∷◌,
}

pub record PriceLine : Type 0 where
  pub product_id : ℕ
  pub product_name : String
  pub quantity : ℕ
  pub base_price : ℤ
  pub specs : List SpecSelection
  pub unit_price : ℤ
  pub subtotal : ℤ

pub record PriceQuote : Type 0 where
  pub subtotal : ℤ
  pub coupon_discount : ℤ
  pub points_discount : ℤ
  pub delivery_fee : ℤ
  pub final_amount : ℤ
  pub breakdown : List PriceLine
  pub coupon_info : Option CouponInfo
  pub points_info : Option PointsInfo
  pub eta_minutes : ℕ
  pub eta_text : EtaText

abbrev pub sum_lines : List PriceLine → ℤ
sum_lines [] = pos 0
sum_lines (l ∷ ls) = l.subtotal +ℤ sum_lines ls

-- `remaining_stock is not None and remaining_stock < quantity`
abbrev pub is_short : Option ℕ → ℕ → Bool
is_short none quantity = false
is_short (some stock) quantity = ltb stock quantity

-- The guards of the loop on a product that was found.
abbrev pub check_product : ℕ → Product → ℕ → Result OrderError (Unit {0})
check_product product_id p quantity =
    if not (p.status is ProductStatus.active)
    then err (validation (product_inactive product_id))
    else if not (p.inventory_status is InventoryStatus.in_stock)
    then err (validation (product_sold_out product_id))
    else if is_short p.stock_quantity quantity
    then err (validation (product_sold_out product_id))
    else ok tt

-- One round of the loop over the items.
unfoldable pub price_line : Db → ItemRequest → Result OrderError PriceLine
price_line db item = elim (get_product db item.product_id) [
  | none ↦ err (validation (product_not_found item.product_id))
  | some p ↦ bind (check_product item.product_id p item.quantity) λ _.
      bind
        (pick_spec_options db (allowed_groups db item.product_id) item.product_id
          item.spec_option_ids)
        λ r.
          let unit_price = calculate_unit_price p.base_price r.1 in
          ok (record {
            product_id = p.product_id;
            product_name = p.name;
            quantity = item.quantity;
            base_price = quantize_currency (cents p.base_price);
            specs = r.0;
            unit_price = unit_price;
            subtotal = quantize_currency (cents (times item.quantity unit_price));
          })
]

unfoldable pub price_lines : Db → List ItemRequest → Result OrderError (List PriceLine)
unfolding price_line
price_lines db [] = ok []
price_lines db (item ∷ items) =
    bind (price_line db item) λ l. bind (price_lines db items) λ ls. ok (l ∷ ls)

-- The discounts, the fee and the amount to pay, from the priced lines.
unfoldable pub quote_lines :
    Db → ℕ → CalculateRequest → Option User → List PriceLine → Result OrderError PriceQuote
quote_lines db now payload user lines =
    let subtotal = quantize_currency (cents (sum_lines lines)) in
    bind (calculate_coupon db payload.coupon_id subtotal user (map (λ l. l.unit_price) lines)) λ c.
      bind (calculate_points payload.points_use (max_ℤ (pos 0) (subtotal -ℤ c.0)) user) λ p.
        let fee = calculate_delivery_fee payload.order_type subtotal in
        let eta =
          estimate_eta_minutes now payload.order_type (sum_by (λ l. l.quantity) lines) false none in
        ok (record {
          subtotal = subtotal;
          coupon_discount = c.0;
          points_discount = p.0;
          delivery_fee = fee;
          final_amount = quantize_currency (cents (max_ℤ (pos 0) (subtotal -ℤ c.0 -ℤ p.0 +ℤ fee)));
          breakdown = lines;
          coupon_info = c.1;
          points_info = p.1;
          eta_minutes = eta;
          eta_text = format_eta_text eta none;
        })

abbrev pub no_items_in : List ItemRequest → Bool
no_items_in [] = true
no_items_in (x ∷ xs) = false

-- `calculate_price_only`
unfoldable pub calculate_price_only :
    Db → ℕ → CalculateRequest → Option User → Result OrderError PriceQuote
unfolding price_lines quote_lines
calculate_price_only db now payload user =
    if no_items_in payload.items
    then err (validation no_items)
    else if (payload.order_type is OrderType.delivery) && not payload.has_address
    then err (validation address_required)
    else if truthy payload.coupon_id && not (is_some user)
    then err (validation coupon_needs_login)
    else if not (payload.points_use == 0) && not (is_some user)
    then err (validation points_need_login)
    else bind (price_lines db payload.items) (quote_lines db now payload user)
