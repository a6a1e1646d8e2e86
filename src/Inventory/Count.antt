-- ===== src/Inventory/Count.antt =====
-- The counted stock of a product, as theorems speak of it.
use naicha_backend.Database.{Db}
use naicha_backend.Models.Rows.{OrderItem, Product}
use naicha_backend.Prelude.{List, Option, [], if◌then◌else◌, none, some, ℕ, ◌+◌, ◌==◌, ◌∷◌}
use naicha_backend.Table.{find}

-- `none` where there is no such product or its stock is not counted.
abbrev pub stock_in : List Product → ℕ → Option ℕ
stock_in products k = elim (find (λ p. p.product_id) k products) [
  | none ↦ none
  | some p ↦ p.stock_quantity
]

abbrev pub stock : ℕ → Db → Option ℕ
stock k db = stock_in db.products k

-- How much of a product the items of an order hold.
abbrev pub held : ℕ → List OrderItem → ℕ
held k [] = 0
held k (i ∷ items) =
    (elim i.product_id [ none ↦ 0 | some p ↦ if p == k then i.quantity else 0 ]) + held k items
