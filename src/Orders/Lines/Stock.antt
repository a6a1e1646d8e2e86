-- ===== src/Orders/Lines/Stock.antt =====
-- What the loop over the items does to the stock, and what it leaves alone.
use naicha_backend.Database.{Db}
use naicha_backend.Exec.{>>=-eq-ok, Result, ok}
use naicha_backend.Inventory.Count.{stock}
use naicha_backend.Models.Rows.{Product}
use naicha_backend.Orders.Errors.{ItemRequest, OrderError}
use naicha_backend.Orders.Lines.{DraftItem, create_line, create_lines, deduct, take_stock}
use naicha_backend.Orders.Preview.{is_short}
use naicha_backend.Orders.Pricing.{get_product}
use naicha_backend.Prelude.{
  List, Option-cases, [], ap, arith, false, if◌then◌else◌, inl, inr, some, ℕ, ◌+◌, ◌-◌, ◌==◌, ◌∙◌,
  ◌∷◌, ◌≡◌, ◌≤◌,
}
use naicha_backend.Table.{find-update}

-- How much of a product a list of items asks for.
abbrev pub ordered : ℕ → List ItemRequest → ℕ
ordered k [] = 0
ordered k (item ∷ items) = (if item.product_id == k then item.quantity else 0) + ordered k items

deduct_key : (q : ℕ) (p : Product) → (deduct q p).product_id ≡ p.product_id
unfolding deduct
deduct_key q p = ground arith

-- A deduction that the stock covers, seen at any product.
stock-take_stock :
    (j q k n : ℕ) (p : Product) (db : Db)
    → get_product db j ≡ some p
    → is_short p.stock_quantity q ≡ false
    → stock k db ≡ some n
    → let taken = if j == k then q else 0 in
      (taken ≤ n) × (stock k (take_stock j q db) ≡ some (n - taken))
unfolding take_stock deduct
stock-take_stock j q k n p db found covered h =
    ground
      (arith, find-update (λ (r : Product). r.product_id) j k (deduct q) db.products (deduct_key q))

-- A round that returns has found the product, and its stock covers the quantity.
pub create_line-ok :
    (item : ItemRequest) (db db' : Db) (d : DraftItem)
    → create_line item db ≡ (ok d, db')
    → (p : Product) × (get_product db item.product_id ≡ some p)
      × (is_short p.stock_quantity item.quantity ≡ false)
      × (db' ≡ take_stock item.product_id item.quantity db)
unfolding create_line
create_line-ok item db db' d e = elim (Option-cases (get_product db item.product_id)) [
  | inl absent ↦ absurd (ground arith)
  | inr (p, found) ↦ (p, found, ground arith, ground arith)
]

create_line-stock :
    (item : ItemRequest) (db db' : Db) (d : DraftItem) (k n : ℕ)
    → create_line item db ≡ (ok d, db')
    → stock k db ≡ some n
    → let taken = if item.product_id == k then item.quantity else 0 in
      (taken ≤ n) × (stock k db' ≡ some (n - taken))
create_line-stock item db db' d k n e h =
    let (p, found, covered, after) = create_line-ok item db db' d e in
    rw after (stock-take_stock item.product_id item.quantity k n p db found covered h)

pub create_lines-cons :
    (item : ItemRequest) (items : List ItemRequest) (db db' : Db) (ds : List DraftItem)
    → create_lines (item ∷ items) db ≡ (ok ds, db')
    → (d : DraftItem) × (rest : List DraftItem) × (mid : Db) × (create_line item db ≡ (ok d, mid))
      × (create_lines items mid ≡ (ok rest, db'))
      × (ds ≡ d ∷ rest)
unfolding create_lines
create_lines-cons item items db db' ds e =
    let (d, mid, first, more) = >>=-eq-ok (create_line item) _ db db' ds e in
    let (rest, last, later, done) = >>=-eq-ok (create_lines items) _ mid db' ds more in
    (
      d,
      rest,
      mid,
      first,
      later
          ∙ ap (λ (s : Db). (ok rest, s))
              (ap (λ (r : Result OrderError (List DraftItem) × Db). r.1) done),
      ground arith,
    )

-- Where the loop returns, the counted stock of every product covers all that the items ask for of
-- it, over all lines together, and exactly that much is gone.
pub create_lines-takes_stock :
    (items : List ItemRequest) (db db' : Db) (ds : List DraftItem) (k n : ℕ)
    → create_lines items db ≡ (ok ds, db')
    → stock k db ≡ some n
    → (ordered k items ≤ n) × (stock k db' ≡ some (n - ordered k items))
unfolding create_lines
create_lines-takes_stock [] db db' ds k n e h = ground arith
create_lines-takes_stock (item ∷ items) db db' ds k n e h =
    let (d, rest, mid, first, later, _) = create_lines-cons item items db db' ds e in
    let (covered, after) = create_line-stock item db mid d k n first h in
    let (covered', after') =
      create_lines-takes_stock items mid db' rest k
        (n - (if item.product_id == k then item.quantity else 0)) later after in
    (omega arith, rw after' (ap some (omega arith)))
