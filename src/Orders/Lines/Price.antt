-- ===== src/Orders/Lines/Price.antt =====
-- The loop of `_create_order_internal` and that of `calculate_price_only` price the same items alike.
use naicha_backend.Database.{Db}
use naicha_backend.Exec.{bind-eq-ok, ok}
use naicha_backend.Models.Rows.{Product}
use naicha_backend.Money.Rounding.{quantize-cents}
use naicha_backend.Orders.Errors.{ItemRequest}
use naicha_backend.Orders.Lines.{
  DraftItem, create_line, create_lines, deduct, drafts_total, take_stock,
}
use naicha_backend.Orders.Lines.Stock.{create_line-ok, create_lines-cons}
use naicha_backend.Orders.Preview.{PriceLine, price_line, price_lines, sum_lines}
use naicha_backend.Orders.Pricing.{allowed_groups, pick_spec_options}
use naicha_backend.Prelude.{
  List, Option, [], ap, arith, map, none, refl, some, sym, times, ℕ, ℤ, ◌∙◌, ◌∷◌, ◌≡◌,
}
use naicha_backend.Table.{find, find-update, update}

-- The price of a product, whatever its stock.
abbrev price_in : List Product → ℕ → Option ℤ
price_in products k = elim (find (λ p. p.product_id) k products) [
  | none ↦ none
  | some p ↦ some p.base_price
]

-- Rows that differ from others in stock only.
abbrev SamePrices : List Product → List Product → Type 0
SamePrices ps qs = (k : ℕ) → price_in ps k ≡ price_in qs k

-- The session with other product rows.
abbrev with_products : Db → List Product → Db
with_products db ps = record db { products = ps }

deduct_key : (q : ℕ) (p : Product) → (deduct q p).product_id ≡ p.product_id
unfolding deduct
deduct_key q p = ground arith

price_in-deduct :
    (j q k : ℕ) (ps : List Product)
    → price_in (update (λ p. p.product_id) j (deduct q) ps) k ≡ price_in ps k
unfolding deduct
price_in-deduct j q k ps =
    ground (arith, find-update (λ (p : Product). p.product_id) j k (deduct q) ps (deduct_key q))

pick_spec_options-with_products :
    (db : Db) (ps : List Product) (groups : List ℕ) (pid : ℕ) (ids : List ℕ)
    → pick_spec_options (with_products db ps) groups pid ids ≡ pick_spec_options db groups pid ids
unfolding pick_spec_options
pick_spec_options-with_products db ps groups pid [] = refl
pick_spec_options-with_products db ps groups pid (id ∷ ids) =
    simp (pick_spec_options-with_products db ps groups pid ids)

take_stock-with_products :
    (j q : ℕ) (db : Db) (ps : List Product)
    → take_stock j q (with_products db ps)
      ≡ with_products db (update (λ p. p.product_id) j (deduct q) ps)
unfolding take_stock
take_stock-with_products j q db ps = refl

create_line-price :
    (item : ItemRequest) (db mid : Db) (ps : List Product) (d : DraftItem) (l : PriceLine)
    → SamePrices ps db.products
    → create_line item (with_products db ps) ≡ (ok d, mid)
    → price_line db item ≡ ok l
    → (d.unit_price ≡ l.unit_price)
      × (d.quantity ≡ l.quantity)
      × (l.subtotal ≡ times l.quantity l.unit_price)
unfolding create_line price_line
create_line-price item db mid ps d l same e h = ground (
  arith,
  same item.product_id,
  quantize-cents (times l.quantity l.unit_price),
  pick_spec_options-with_products db
      (update (λ p. p.product_id) item.product_id (deduct item.quantity) ps)
      (allowed_groups db item.product_id) item.product_id item.spec_option_ids,
)

-- A round leaves the session with other product rows, at the same prices.
create_line-SamePrices :
    (item : ItemRequest) (db mid : Db) (ps : List Product) (d : DraftItem)
    → SamePrices ps db.products
    → create_line item (with_products db ps) ≡ (ok d, mid)
    → (qs : List Product) × (mid ≡ with_products db qs) × SamePrices qs db.products
create_line-SamePrices item db mid ps d same e =
    let (p, found, covered, after) = create_line-ok item (with_products db ps) mid d e in
    (
      update (λ p. p.product_id) item.product_id (deduct item.quantity) ps,
      after ∙ take_stock-with_products item.product_id item.quantity db ps,
      λ k. price_in-deduct item.product_id item.quantity k ps ∙ same k,
    )

price_lines-cons :
    (item : ItemRequest) (items : List ItemRequest) (db : Db) (ls : List PriceLine)
    → price_lines db (item ∷ items) ≡ ok ls
    → (l : PriceLine) × (rest : List PriceLine) × (price_line db item ≡ ok l)
      × (price_lines db items ≡ ok rest)
      × (ls ≡ l ∷ rest)
unfolding price_lines
price_lines-cons item items db ls e =
    let (l, first, more) = bind-eq-ok (price_line db item) _ e in
    let (rest, later, done) = bind-eq-ok (price_lines db items) _ more in
    (l, rest, first, later, cc done)

create_lines-price_from :
    (items : List ItemRequest) (db db' : Db) (ps : List Product) (ds : List DraftItem)
    (ls : List PriceLine)
    → SamePrices ps db.products
    → create_lines items (with_products db ps) ≡ (ok ds, db')
    → price_lines db items ≡ ok ls
    → (drafts_total ds ≡ sum_lines ls) × (map (λ d. d.unit_price) ds ≡ map (λ l. l.unit_price) ls)
unfolding create_lines price_lines drafts_total
create_lines-price_from [] db db' ps ds ls same e h = ground arith
create_lines-price_from (item ∷ items) db db' ps ds ls same e h =
    let (d, rest, mid, first, later, shape) =
      create_lines-cons item items (with_products db ps) db' ds e in
    let (l, rest', first', later', shape') = price_lines-cons item items db ls h in
    let (qs, mid_is, same') = create_line-SamePrices item db mid ps d same first in
    let (price, count, total) = create_line-price item db mid ps d l same first first' in
    let (sum_eq, prices_eq) =
      create_lines-price_from items db db' qs rest rest' same'
        (ap (create_lines items) (sym mid_is) ∙ later) later' in
    rw (shape, shape') (ground arith)

-- Where both go through, the price preview and the creation of an order arrive at the same unit
-- prices and the same sum over the lines, although the creation takes the stock in between.
pub create_lines-price :
    (items : List ItemRequest) (db db' : Db) (ds : List DraftItem) (ls : List PriceLine)
    → create_lines items db ≡ (ok ds, db')
    → price_lines db items ≡ ok ls
    → (drafts_total ds ≡ sum_lines ls) × (map (λ d. d.unit_price) ds ≡ map (λ l. l.unit_price) ls)
create_lines-price items db db' ds ls e h =
    create_lines-price_from items db db' db.products ds ls (λ k. refl) e h
