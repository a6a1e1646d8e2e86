-- ===== src/Menu/Listed.antt =====
-- Which products the menu lists, and where.
use naicha_backend.Database.{Settings}
use naicha_backend.Menu.Payload.{
  Catalogue, Category, CategoryPayload, MenuProduct, ProductPayload, Shelves, build_menu_payload,
  category_ids_of, is_on_sale, product_payload, shelf, shelve, shelve_all, sort_by_ℤ,
}
use naicha_backend.Prelude.{
  All, Bool, Bool-cases, List, List-cases, [], ap, arith, contains, false, if◌then◌else◌, inl, inr,
  map, refl, select, sort_by, true, ℕ, ◌++◌, ◌==◌, ◌∙◌, ◌∷◌, ◌≡◌,
}

abbrev pub IsDistinct : List ℕ → Type 0
IsDistinct [] = Unit
IsDistinct (k ∷ ks) = (contains k ks ≡ false) × IsDistinct ks

shelf-append :
    (c : ℕ) (xs ys : List (ℕ × ProductPayload)) → shelf c (xs ++ ys) ≡ shelf c xs ++ shelf c ys
shelf-append c [] ys = refl
shelf-append c (x ∷ xs) ys = elim (Bool-cases (x.0 == c)) [
  | inl here ↦ rw here (ap (λ zs. x.1 ∷ zs) (shelf-append c xs ys))
  | inr there ↦ rw there (shelf-append c xs ys)
]

shelf-elsewhere :
    (c : ℕ) (payload : ProductPayload) (ids : List ℕ)
    → contains c ids ≡ false
    → shelf c (map (λ id. (id, payload)) ids) ≡ []
shelf-elsewhere c payload [] h = refl
shelf-elsewhere c payload (id ∷ ids) h =
    let other : (id == c) ≡ false = ground (arith, h) in
    rw other (shelf-elsewhere c payload ids (ground (arith, h)))

shelf-once :
    (c : ℕ) (payload : ProductPayload) (ids : List ℕ)
    → IsDistinct ids
    → shelf c (map (λ id. (id, payload)) ids) ≡ (if contains c ids then payload ∷ [] else [])
shelf-once c payload [] h = refl
shelf-once c payload (id ∷ ids) h = elim (Bool-cases (id == c)) [
  | inr there ↦
      (let other : (c == id) ≡ false = ground (arith, there) in
        rw (there, other) (shelf-once c payload ids h.1))
  | inl here ↦
      (let same : (c == id) ≡ true = ground (arith, here) in
        let rest : contains c ids ≡ false = ground (arith, here, h.0) in
        rw (here, same) (ap (λ zs. payload ∷ zs) (shelf-elsewhere c payload ids rest)))
]

if-append :
    {A : Type 0}
    → (b : Bool) (x : A) (xs : List A)
    → (if b then x ∷ [] else []) ++ xs ≡ (if b then x ∷ xs else xs)
if-append true x xs = refl
if-append false x xs = refl

module _ (settings : Settings) (t : Catalogue) where
  -- Whether a product stands in a category, or in none.
  abbrev pub stands_in : ℕ → MenuProduct → Bool
  stands_in c p = contains c (category_ids_of settings p)

  abbrev pub stands_nowhere : MenuProduct → Bool
  stands_nowhere p = elim (category_ids_of settings p) [ [] ↦ true | id ∷ ids ↦ false ]

  shelf-shelve :
      (c : ℕ) (payload : ProductPayload) (ids : List ℕ) (shelves : Shelves)
      → IsDistinct ids
      → shelf c (shelve payload ids shelves).0
        ≡ (if contains c ids then payload ∷ shelf c shelves.0 else shelf c shelves.0)
  shelf-shelve c payload [] shelves h = refl
  shelf-shelve c payload (id ∷ ids) shelves h =
      shelf-append c (map (λ id. (id, payload)) (id ∷ ids)) shelves.0
      ∙ ap (λ xs. xs ++ shelf c shelves.0) (shelf-once c payload (id ∷ ids) h)
      ∙ if-append (contains c (id ∷ ids)) payload (shelf c shelves.0)

  shelf-shelve_all :
      (c : ℕ) (ps : List MenuProduct)
      → All (λ p. IsDistinct (category_ids_of settings p)) ps
      → shelf c (shelve_all settings t ps).0 ≡ map (product_payload t) (select (stands_in c) ps)
  unfolding shelve_all
  shelf-shelve_all c [] h = refl
  shelf-shelve_all c (p ∷ ps) h =
      shelf-shelve c (product_payload t p) (category_ids_of settings p) (shelve_all settings t ps)
        h.0
      ∙ elim (Bool-cases (stands_in c p)) [
        | inl here ↦ rw here (ap (λ xs. product_payload t p ∷ xs) (shelf-shelve_all c ps h.1))
        | inr there ↦ rw there (shelf-shelve_all c ps h.1)
      ]

  loose-shelve_all :
      (ps : List MenuProduct)
      → (shelve_all settings t ps).1 ≡ map (product_payload t) (select stands_nowhere ps)
  unfolding shelve_all
  loose-shelve_all [] = refl
  loose-shelve_all (p ∷ ps) = elim (List-cases (category_ids_of settings p)) [
    | inl nowhere ↦
        (let out : stands_nowhere p ≡ true = rw (nowhere, stands_nowhere) refl in
          rw (out, nowhere, shelve_all) (ap (λ xs. product_payload t p ∷ xs) (loose-shelve_all ps)))
    | inr (id, (ids, there)) ↦
        (let in_ : stands_nowhere p ≡ false = rw (there, stands_nowhere) refl in
          rw (in_, there, shelve_all) (loose-shelve_all ps))
  ]

  -- The products on sale, by their id.
  abbrev pub on_sale : List MenuProduct
  on_sale = select is_on_sale (sort_by (λ (p : MenuProduct). p.row.product_id) t.products)

  -- Where no product names a category twice: the menu has exactly the categories there are, by
  -- `sort_order` and then by id; under each stand exactly the products on sale that name it, each once
  -- and by their ids, and those that name none stand apart, by their ids.
  pub build_menu_payload-products :
      All (λ p. IsDistinct (category_ids_of settings p)) on_sale
      → let menu = build_menu_payload settings t in
        (menu.categories
          ≡ map {B = CategoryPayload}
              (λ (c : Category). record {
                category_id = c.category_id;
                name = c.name;
                sort_order = c.sort_order;
                products = map (product_payload t) (select (stands_in c.category_id) on_sale);
              })
              (sort_by_ℤ
                (λ (c : Category). c.sort_order)
                (sort_by (λ (c : Category). c.category_id) t.categories)))
        × (menu.uncategorized_products ≡ map (product_payload t) (select stands_nowhere on_sale))
  unfolding build_menu_payload
  build_menu_payload-products h =
      let sorted =
        sort_by_ℤ (λ (c : Category). c.sort_order)
          (sort_by (λ (c : Category). c.category_id) t.categories) in
      (
        λ i.
            map
              (λ (c : Category). record {
                category_id = c.category_id;
                name = c.name;
                sort_order = c.sort_order;
                products = shelf-shelve_all c.category_id on_sale h i;
              })
              sorted,
        loose-shelve_all on_sale,
      )
