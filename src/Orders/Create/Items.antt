-- ===== src/Orders/Create/Items.antt =====
-- The items of a new order hold what the request asked for.
use naicha_backend.Database.{Db}
use naicha_backend.Exec.{ok}
use naicha_backend.Inventory.Count.{held}
use naicha_backend.Models.Rows.{OrderItem, Product}
use naicha_backend.Orders.Access.{items_of}
use naicha_backend.Orders.Errors.{ItemRequest}
use naicha_backend.Orders.Lines.{DraftItem, create_line, create_lines}
use naicha_backend.Orders.Lines.Stock.{create_line-ok, create_lines-cons, ordered}
use naicha_backend.Orders.Placing.{number_items}
use naicha_backend.Prelude.{
  Bool, Bool-cases, List, [], ap, arith, if◌then◌else◌, inl, inr, refl, select, ℕ, ◌++◌, ◌+◌, ◌==◌,
  ◌∙◌, ◌∷◌, ◌≡◌,
}
use naicha_backend.Table.{key-find}

drafted : ℕ → List DraftItem → ℕ
drafted k [] = 0
drafted k (d ∷ ds) = (if d.product_id == k then d.quantity else 0) + drafted k ds

held-number_items :
    (k order_id item_id : ℕ) (ds : List DraftItem)
    → held k (number_items order_id item_id ds) ≡ drafted k ds
unfolding number_items drafted
held-number_items k order_id item_id [] = refl
held-number_items k order_id item_id (d ∷ ds) =
    ground (arith, held-number_items k order_id (item_id + 1) ds)

create_line-draft :
    (item : ItemRequest) (db mid : Db) (d : DraftItem)
    → create_line item db ≡ (ok d, mid)
    → (d.product_id ≡ item.product_id) × (d.quantity ≡ item.quantity)
unfolding create_line
create_line-draft item db mid d e =
    let (p, found, covered, after) = create_line-ok item db mid d e in
    ground (arith, key-find (λ (r : Product). r.product_id) item.product_id db.products found)

drafted-ordered :
    (k : ℕ) (items : List ItemRequest) (db db' : Db) (ds : List DraftItem)
    → create_lines items db ≡ (ok ds, db')
    → drafted k ds ≡ ordered k items
unfolding create_lines drafted
drafted-ordered k [] db db' ds e = ground arith
drafted-ordered k (item ∷ items) db db' ds e =
    let (d, rest, mid, first, later, shape) = create_lines-cons item items db db' ds e in
    let (same_product, same_quantity) = create_line-draft item db mid d first in
    rw shape (ground (arith, drafted-ordered k items mid db' rest later))

-- Of every product the items of the new order hold what the request asked for.
pub held-create_lines :
    (k order_id item_id : ℕ) (items : List ItemRequest) (db db' : Db) (ds : List DraftItem)
    → create_lines items db ≡ (ok ds, db')
    → held k (number_items order_id item_id ds) ≡ ordered k items
held-create_lines k order_id item_id items db db' ds e =
    held-number_items k order_id item_id ds ∙ drafted-ordered k items db db' ds e

select-append {ℓ} :
    {A : Type ℓ} (p : A → Bool) (xs ys : List A) → select p (xs ++ ys) ≡ select p xs ++ select p ys
select-append p [] ys = refl
select-append p (x ∷ xs) ys = elim (Bool-cases (p x)) [
  | inl in_it ↦ rw in_it (ap (λ l. x ∷ l) (select-append p xs ys))
  | inr out ↦ rw out (select-append p xs ys)
]

items_of-number_items :
    (order_id item_id : ℕ) (ds : List DraftItem)
    → items_of order_id (number_items order_id item_id ds) ≡ number_items order_id item_id ds
unfolding number_items
items_of-number_items order_id item_id [] = refl
items_of-number_items order_id item_id (d ∷ ds) =
    ground (arith, items_of-number_items order_id (item_id + 1) ds)

-- The items of a new order are found by its id, where no older item has that id.
pub items_of-append :
    (order_id item_id : ℕ) (old : List OrderItem) (ds : List DraftItem)
    → items_of order_id old ≡ []
    → items_of order_id (old ++ number_items order_id item_id ds) ≡ number_items order_id item_id ds
items_of-append order_id item_id old ds fresh =
    rw (select-append, fresh) (items_of-number_items order_id item_id ds)
