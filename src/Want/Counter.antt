-- ===== src/Want/Counter.antt =====
-- The Counter of the products.
use naicha_backend.Prelude.{
  ==_iff, All, Bool, Bool-cases, List, [], arith, contains, false, if◌then◌else◌, inl, inr, map,
  refl, true, ℕ, ◌+◌, ◌==◌, ◌||◌, ◌∷◌, ◌≡◌,
}
use naicha_backend.Want.{ProductTotal, WantEvent, count_product, totals_from}
use naicha_backend.Want.Counting.{count_of, count_of-cons}

-- The total of a product in a Counter.
unfoldable pub total_of : ℕ → List ProductTotal → ℕ
total_of p [] = 0
total_of p (t ∷ ts) = if t.product_id == p then t.total else total_of p ts

total_of-count_product :
    (p id : ℕ) (ts : List ProductTotal)
    → total_of p (count_product id ts) ≡ total_of p ts + (if id == p then 1 else 0)
unfolding total_of count_product
total_of-count_product p id [] = ground arith
total_of-count_product p id (t ∷ ts) = ground (arith, total_of-count_product p id ts)

abbrev pub of_product : ℕ → WantEvent → Bool
of_product p e = e.product_id == p

pub total_of-totals_from :
    (p : ℕ) (es : List WantEvent) (ts : List ProductTotal)
    → total_of p (totals_from ts es) ≡ total_of p ts + count_of (of_product p) es
unfolding totals_from
total_of-totals_from p [] ts = omega arith
total_of-totals_from p (e ∷ es) ts = ground (
  arith,
  total_of-totals_from p es (count_product e.product_id ts),
  total_of-count_product p e.product_id ts,
  count_of-cons (of_product p) e es,
)

-- A Counter has one entry for each product.
abbrev pub IsCounter : List ProductTotal → Type 0
IsCounter [] = Unit
IsCounter (t ∷ ts) =
    (contains t.product_id (map (λ (u : ProductTotal). u.product_id) ts) ≡ false) × IsCounter ts

products-count_product :
    (k id : ℕ) (ts : List ProductTotal)
    → contains k (map (λ (u : ProductTotal). u.product_id) (count_product id ts))
      ≡ (k == id || contains k (map (λ (u : ProductTotal). u.product_id) ts))
unfolding count_product
products-count_product k id [] = refl
products-count_product k id (t ∷ ts) = ground (arith, products-count_product k id ts)

IsCounter-count_product :
    (id : ℕ) (ts : List ProductTotal) → IsCounter ts → IsCounter (count_product id ts)
unfolding count_product
IsCounter-count_product id [] h = (refl, tt)
IsCounter-count_product id (t ∷ ts) h = elim (Bool-cases (t.product_id == id)) [
  | inl here ↦ rw here h
  | inr there ↦ rw there (
    ground (arith, products-count_product t.product_id id ts, there, h.0),
    IsCounter-count_product id ts h.1,
  )
]

pub IsCounter-totals_from :
    (es : List WantEvent) (ts : List ProductTotal) → IsCounter ts → IsCounter (totals_from ts es)
unfolding totals_from
IsCounter-totals_from [] ts h = h
IsCounter-totals_from (e ∷ es) ts h =
    IsCounter-totals_from es (count_product e.product_id ts)
      (IsCounter-count_product e.product_id ts h)

-- The entries of a Counter are its totals, also among more entries.
pub entries :
    (f : ℕ → ℕ) (ts : List ProductTotal)
    → IsCounter ts
    → ((p : ℕ)
        → contains p (map (λ (u : ProductTotal). u.product_id) ts) ≡ true
        → total_of p ts ≡ f p)
    → All (λ t. t.total ≡ f t.product_id) ts
unfolding total_of
entries f [] h same = tt
entries f (t ∷ ts) h same = (
  ground (arith, same t.product_id),
  entries f ts h.1 (λ p there. ground (arith, same p, there, h.0, ==_iff t.product_id p)),
)
