-- ===== src/Inventory.antt =====
-- InventoryService of app/services/inventory.py.
pub mod Count
pub mod Restore
use naicha_backend.Database.{Db, StockChange, option_inventory_update, product_inventory_update}
use naicha_backend.Exec.{Exec, err, ok}
use naicha_backend.Models.{InventoryStatus, inventory_status_tagged, ◌is◌}
use naicha_backend.Models.Rows.{OrderItem, Product, SpecOption}
use naicha_backend.Prelude.{
  Bool, List, Option, [], false, if◌then◌else◌, leb, ltb, none, some, true, ℕ, ◌&&◌, ◌++◌, ◌+◌,
  ◌==◌, ◌∷◌,
}
use naicha_backend.Table.{find, update}

-- `product_deltas` of `restore_from_order_items`: what each product gets back, in order of first
-- mention.
abbrev pub Deltas : Type 0
Deltas = List (ℕ × ℕ)

unfoldable pub get_delta : ℕ → Deltas → ℕ
get_delta k [] = 0
get_delta k ((j, n) ∷ d) = if j == k then n else get_delta k d

unfoldable pub has_delta : ℕ → Deltas → Bool
has_delta k [] = false
has_delta k ((j, n) ∷ d) = if j == k then true else has_delta k d

-- `product_deltas[k] = product_deltas.get(k, 0) + n`
unfoldable pub add_delta : ℕ → ℕ → Deltas → Deltas
add_delta k n [] = (k, n) ∷ []
add_delta k n ((j, m) ∷ d) = if j == k then (j, m + n) ∷ d else (j, m) ∷ add_delta k n d

-- The first loop, from the deltas so far.
unfoldable pub product_deltas_from : Deltas → List OrderItem → Deltas
unfolding add_delta
product_deltas_from d [] = d
product_deltas_from d (item ∷ items) =
    product_deltas_from (elim item.product_id [ none ↦ d | some k ↦ add_delta k item.quantity d ])
      items

abbrev product_deltas : List OrderItem → Deltas
product_deltas = product_deltas_from []

-- One round of the second loop: the product, and its entry in the summary if it changed.
unfoldable pub restore_product : ℕ → Deltas → Product → Product × Option StockChange
restore_product now deltas p =
    let delta = get_delta p.product_id deltas in
    if leb delta 0 then (p, none) else elim p.stock_quantity [
      | none ↦ (p, none)
      | some before ↦ (
        record p {
          stock_quantity = some (before + delta);
          inventory_status =
              if ltb 0 (before + delta) && (p.inventory_status is InventoryStatus.sold_out)
              then InventoryStatus.in_stock
              else p.inventory_status;
          updated_at = now;
        },
        some (record {
          product_id = p.product_id;
          restored_quantity = delta;
          stock_before = before;
          stock_after = before + delta;
        }),
      )
    ]

abbrev push {ℓ} : {A : Type ℓ} → Option A → List A → List A
push none xs = xs
push (some a) xs = a ∷ xs

-- The second loop, over the rows that the query for the ids in `product_deltas` returns.
unfoldable pub restore_products : ℕ → Deltas → List Product → List Product × List StockChange
unfolding restore_product
restore_products now deltas [] = ([], [])
restore_products now deltas (p ∷ ps) =
    let (qs, changes) = restore_products now deltas ps in
    if has_delta p.product_id deltas
    then (let (q, change) = restore_product now deltas p in (q ∷ qs, push change changes))
    else (p ∷ qs, changes)

-- `restore_from_order_items`
unfoldable pub restore_from_order_items : ℕ → List OrderItem → Db → List StockChange × Db
unfolding product_deltas_from restore_products
restore_from_order_items now items db =
    let (ps, changes) = restore_products now (product_deltas items) db.products in
    (changes, record db { products = ps })

pub data InventoryError : Type 0 where
  product_missing option_missing : InventoryError

-- `update_product_inventory`; the answer is the row, changed or not.
unfoldable pub update_product_inventory :
    ℕ → ℕ → ℕ → InventoryStatus → Exec Db InventoryError Product
update_product_inventory now admin_id product_id inventory_status db =
    elim (find (λ (p : Product). p.product_id) product_id db.products) [
      | none ↦ (err product_missing, db)
      | some p ↦
          if p.inventory_status is inventory_status
          then (ok p, db)
          else (let set = λ (r : Product). record r {
            inventory_status = inventory_status;
            updated_at = now;
          } in
              (
                ok (set p),
                record db {
                  products = update (λ r. r.product_id) product_id set db.products;
                  audit_logs =
                      db.audit_logs
                      ++ product_inventory_update admin_id product_id p.inventory_status
                          inventory_status
                        ∷ [];
                },
              ))
    ]

-- `update_spec_option_inventory`
unfoldable pub update_spec_option_inventory :
    ℕ → ℕ → InventoryStatus → Exec Db InventoryError SpecOption
update_spec_option_inventory admin_id option_id inventory_status db =
    elim (find (λ (o : SpecOption). o.option_id) option_id db.spec_options) [
      | none ↦ (err option_missing, db)
      | some o ↦
          if o.inventory_status is inventory_status
          then (ok o, db)
          else (let set = λ (r : SpecOption). record r { inventory_status = inventory_status } in
              (
                ok (set o),
                record db {
                  spec_options = update (λ r. r.option_id) option_id set db.spec_options;
                  audit_logs =
                      db.audit_logs
                      ++ option_inventory_update admin_id option_id o.inventory_status
                          inventory_status
                        ∷ [];
                },
              ))
    ]
