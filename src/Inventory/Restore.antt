-- ===== src/Inventory/Restore.antt =====
-- `restore_from_order_items` gives back, of every product, what the items hold of it.
use naicha_backend.Database.{Db}
use naicha_backend.Inventory.{
  Deltas, add_delta, get_delta, has_delta, product_deltas_from, restore_from_order_items,
  restore_products,
}
use naicha_backend.Inventory.Count.{held, stock, stock_in}
use naicha_backend.Models.Rows.{OrderItem, Product}
use naicha_backend.Prelude.{
  List, Option, Option-cases, [], ap, arith, false, if◌then◌else◌, inl, inr, none, refl, some, ℕ,
  ◌+◌, ◌==◌, ◌∷◌, ◌≡◌,
}
use naicha_backend.Table.{find}

get_delta-add_delta :
    (k j n : ℕ) (d : Deltas)
    → get_delta k (add_delta j n d) ≡ get_delta k d + (if j == k then n else 0)
unfolding get_delta add_delta
get_delta-add_delta k j n [] = ground arith
get_delta-add_delta k j n ((i, m) ∷ d) = ground (arith, get_delta-add_delta k j n d)

-- The first loop sums the quantities up, product by product.
get_delta-product_deltas_from :
    (k : ℕ) (d : Deltas) (items : List OrderItem)
    → get_delta k (product_deltas_from d items) ≡ get_delta k d + held k items
unfolding product_deltas_from
get_delta-product_deltas_from k d [] = omega arith
get_delta-product_deltas_from k d (item ∷ items) = elim (Option-cases item.product_id) [
  | inl other ↦ rw other (omega (arith, get_delta-product_deltas_from k d items))
  | inr (p, is_p) ↦ rw is_p (
      omega (
        arith,
        get_delta-product_deltas_from k (add_delta p item.quantity d) items,
        get_delta-add_delta k p item.quantity d,
      ))
]

has_delta-get_delta : (k : ℕ) (d : Deltas) → has_delta k d ≡ false → get_delta k d ≡ 0
unfolding has_delta get_delta
has_delta-get_delta k [] h = refl
has_delta-get_delta k ((j, n) ∷ d) h = ground (arith, has_delta-get_delta k d)

abbrev pub plus : ℕ → Option ℕ → Option ℕ
plus n none = none
plus n (some m) = some (m + n)

stock_in-restore_products :
    (now : ℕ) (d : Deltas) (ps : List Product) (k : ℕ)
    → stock_in (restore_products now d ps).0 k ≡ plus (get_delta k d) (stock_in ps k)
unfolding restore_products find
stock_in-restore_products now d [] k = refl
stock_in-restore_products now d (p ∷ ps) k =
    ground (arith, stock_in-restore_products now d ps k, has_delta-get_delta p.product_id d)

-- The counted stock of every product goes up by what the items hold of it, over all items together.
pub stock-restore_from_order_items :
    (now : ℕ) (items : List OrderItem) (db : Db) (k : ℕ)
    → stock k (restore_from_order_items now items db).1 ≡ plus (held k items) (stock k db)
unfolding restore_from_order_items get_delta
stock-restore_from_order_items now items db k =
    rw
      (
        stock_in-restore_products now (product_deltas_from [] items) db.products k,
        get_delta-product_deltas_from k [] items,
      )
      (ap (λ n. plus n (stock k db)) (omega arith))
