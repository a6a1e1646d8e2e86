-- ===== src/Orders/Lines.antt =====
-- The loop of `_create_order_internal` over the items: the guards, the stock that is taken from the
-- locked product rows, and the drafts of the order items.
pub mod Stock
pub mod Price
use naicha_backend.Database.{Db}
use naicha_backend.Exec.{Exec, err, ok, pure, ◌>>=◌, ◌>>◌}
use naicha_backend.Models.{InventoryStatus, inventory_status_tagged, ◌is◌}
use naicha_backend.Models.Rows.{Product, SpecSelection}
use naicha_backend.Orders.Errors.{ItemRequest, OrderError, Reason, validation}
use naicha_backend.Orders.Preview.{check_product}
use naicha_backend.Orders.Pricing.{
  allowed_groups, calculate_unit_price, get_product, pick_spec_options,
}
use naicha_backend.Prelude.{
  List, String, [], if◌then◌else◌, none, not, pos, some, times, ℕ, ℤ, ◌&&◌, ◌+ℤ◌, ◌-◌, ◌==◌, ◌∷◌,
}
use naicha_backend.Table.{update}

-- An entry of `db_items_payload`.
pub record DraftItem : Type 0 where
  pub product_id : ℕ
  pub product_name : String
  pub quantity : ℕ
  pub unit_price : ℤ
  pub selected_specs : List SpecSelection

-- What the loop writes to a product whose stock is counted and covers the quantity.
unfoldable pub deduct : ℕ → Product → Product
deduct quantity p = elim p.stock_quantity [
  | none ↦ p
  | some stock ↦ record p {
    stock_quantity = some (stock - quantity);
    inventory_status =
        if stock - quantity == 0 && not (p.inventory_status is InventoryStatus.sold_out)
        then InventoryStatus.sold_out
        else p.inventory_status;
  }
]

unfoldable pub take_stock : ℕ → ℕ → Db → Db
take_stock product_id quantity db = record db {
  products = update (λ p. p.product_id) product_id (deduct quantity) db.products;
}

-- One round of the loop.
unfoldable pub create_line : ItemRequest → Exec Db OrderError DraftItem
unfolding take_stock
create_line item db = elim (get_product db item.product_id) [
  | none ↦ (err (validation (Reason.product_not_found item.product_id)), db)
  | some p ↦ elim (check_product item.product_id p item.quantity) [
    | err e ↦ (err e, db)
    | ok _ ↦
        (let db' = take_stock item.product_id item.quantity db in
          elim (pick_spec_options db' (allowed_groups db' item.product_id) item.product_id
            item.spec_option_ids) [
              | err e ↦ (err e, db')
              | ok (specs, modifiers) ↦ (
                ok (record {
                  product_id = p.product_id;
                  product_name = p.name;
                  quantity = item.quantity;
                  unit_price = calculate_unit_price p.base_price modifiers;
                  selected_specs = specs;
                }),
                db',
              )
            ])
  ]
]

unfoldable pub create_lines : List ItemRequest → Exec Db OrderError (List DraftItem)
create_lines [] = pure []
create_lines (item ∷ items) = do l ← create_line item; ls ← create_lines items; pure (l ∷ ls)

-- `total_price`, the sum of `unit_price * item.quantity`.
unfoldable pub drafts_total : List DraftItem → ℤ
drafts_total [] = pos 0
drafts_total (d ∷ ds) = times d.quantity d.unit_price +ℤ drafts_total ds
