-- ===== src/Menu/Payload.antt =====
-- `_build_menu_payload` of app/services/menu.py and what it loads, over the tables of
-- app/models/catalog.py; descriptions and pictures are left out, and prices are cents.
use naicha_backend.Database.{Settings}
use naicha_backend.Models.{
  InventoryStatus, ProductStatus, inventory_status_tagged, product_status_tagged, ◌is◌,
}
use naicha_backend.Models.Rows.{Product, ProductSpecMapping, SpecOption}
use naicha_backend.Prelude.{
  Bool, List, Option, String, [], if◌then◌else◌, ltb_ℤ, map, none, select, some, sort_by, ℕ, ℤ,
  ◌++◌, ◌==◌, ◌∷◌,
}
use naicha_backend.Table.{find}

pub record Category : Type 0 where
  pub category_id : ℕ
  pub name : String
  pub sort_order : ℤ

-- A product with its column `category_id` and its relation `categories`.
pub record MenuProduct : Type 0 where
  pub row : Product
  pub category_id : Option ℕ
  pub category_ids : List ℕ

pub record MenuGroup : Type 0 where
  pub group_id : ℕ
  pub name : String
  pub sort_order : ℤ

pub record MenuOption : Type 0 where
  pub row : SpecOption
  pub sort_order : ℤ

pub record Catalogue : Type 0 where
  pub categories : List Category
  pub products : List MenuProduct
  pub groups : List MenuGroup
  pub options : List MenuOption
  pub mappings : List ProductSpecMapping

pub record OptionPayload : Type 0 where
  pub option_id : ℕ
  pub name : String
  pub price_modifier : ℤ
  pub inventory_status : InventoryStatus
  pub sort_order : ℤ

pub record GroupPayload : Type 0 where
  pub group_id : ℕ
  pub name : String
  pub sort_order : ℤ
  pub options : List OptionPayload

pub record ProductPayload : Type 0 where
  pub product_id : ℕ
  pub name : String
  pub base_price : ℤ
  pub status : ProductStatus
  pub inventory_status : InventoryStatus
  pub spec_groups : List GroupPayload

pub record CategoryPayload : Type 0 where
  pub category_id : ℕ
  pub name : String
  pub sort_order : ℤ
  pub products : List ProductPayload

pub record MenuPayload : Type 0 where
  pub categories : List CategoryPayload
  pub uncategorized_products : List ProductPayload
  pub multi_category_enabled : Bool

-- `order_by` a column of integers; rows that are equal there keep their order.
insert_by_ℤ : {A : Type 0} → (A → ℤ) → A → List A → List A
insert_by_ℤ by a [] = a ∷ []
insert_by_ℤ by a (x ∷ xs) = if ltb_ℤ (by x) (by a) then x ∷ insert_by_ℤ by a xs else a ∷ x ∷ xs

unfoldable pub sort_by_ℤ : {A : Type 0} → (A → ℤ) → List A → List A
unfolding insert_by_ℤ
sort_by_ℤ by [] = []
sort_by_ℤ by (x ∷ xs) = insert_by_ℤ by x (sort_by_ℤ by xs)

abbrev pub option_payload : MenuOption → OptionPayload
option_payload o = record {
  option_id = o.row.option_id;
  name = o.row.name;
  price_modifier = o.row.price_modifier;
  inventory_status = o.row.inventory_status;
  sort_order = o.sort_order;
}

-- `options_by_group.get(group_id, [])`, by `sort_order` and then by id.
unfoldable pub options_of : ℕ → List MenuOption → List OptionPayload
options_of id options = map option_payload (
    select (λ o. o.row.group_id == id)
      (sort_by_ℤ (λ (o : MenuOption). o.sort_order)
        (sort_by (λ (o : MenuOption). o.row.option_id) options)))

-- `_load_spec_groups`
unfoldable pub load_spec_groups : Catalogue → List GroupPayload
unfolding options_of
load_spec_groups t =
    map
      (λ (g : MenuGroup). record {
        group_id = g.group_id;
        name = g.name;
        sort_order = g.sort_order;
        options = options_of g.group_id t.options;
      })
      (sort_by_ℤ (λ (g : MenuGroup). g.sort_order)
        (sort_by (λ (g : MenuGroup). g.group_id) t.groups))

-- `product_spec_map.get(product_id, [])`
unfoldable pub groups_of : ℕ → List ProductSpecMapping → List ℕ
groups_of id mappings =
    map (λ (m : ProductSpecMapping). m.group_id) (select (λ m. m.product_id == id) mappings)

-- The groups of a product that are there, in the order of the mappings.
unfoldable pub clone_groups : List GroupPayload → List ℕ → List GroupPayload
clone_groups groups [] = []
clone_groups groups (id ∷ ids) =
    let rest = clone_groups groups ids in
    elim (find (λ (g : GroupPayload). g.group_id) id groups) [ none ↦ rest | some g ↦ g ∷ rest ]

unfoldable pub product_payload : Catalogue → MenuProduct → ProductPayload
unfolding load_spec_groups groups_of clone_groups
product_payload t p = record {
  product_id = p.row.product_id;
  name = p.row.name;
  base_price = p.row.base_price;
  status = p.row.status;
  inventory_status = p.row.inventory_status;
  spec_groups = clone_groups (load_spec_groups t) (groups_of p.row.product_id t.mappings);
}

-- The categories that the setting names.
unfoldable pub category_ids_of : Settings → MenuProduct → List ℕ
category_ids_of settings p =
    if settings.multi_category_enabled
    then p.category_ids
    else (elim p.category_id [ none ↦ [] | some id ↦ if id == 0 then [] else id ∷ [] ])

abbrev pub is_on_sale : MenuProduct → Bool
is_on_sale p = p.row.status is ProductStatus.active

-- The loop over the products: what is appended to `category_products` under which category, and to
-- `uncategorized`.
abbrev pub Shelves : Type 0
Shelves = List (ℕ × ProductPayload) × List ProductPayload

abbrev pub shelve : ProductPayload → List ℕ → Shelves → Shelves
shelve payload [] (shelved, loose) = (shelved, payload ∷ loose)
shelve payload (id ∷ ids) (shelved, loose) =
    (map (λ id. (id, payload)) (id ∷ ids) ++ shelved, loose)

unfoldable pub shelve_all : Settings → Catalogue → List MenuProduct → Shelves
unfolding product_payload category_ids_of
shelve_all settings t [] = ([], [])
shelve_all settings t (p ∷ ps) =
    shelve (product_payload t p) (category_ids_of settings p) (shelve_all settings t ps)

-- `category_products.get(category_id, [])`
abbrev pub shelf : ℕ → List (ℕ × ProductPayload) → List ProductPayload
shelf id shelved = map (λ e. e.1) (select (λ e. e.0 == id) shelved)

-- `_build_menu_payload`
unfoldable pub build_menu_payload : Settings → Catalogue → MenuPayload
unfolding shelve_all
build_menu_payload settings t =
    let products = select is_on_sale (sort_by (λ (p : MenuProduct). p.row.product_id) t.products) in
    let (shelved, loose) = shelve_all settings t products in
    record {
      categories =
          map
            (λ (c : Category). record {
              category_id = c.category_id;
              name = c.name;
              sort_order = c.sort_order;
              products = shelf c.category_id shelved;
            })
            (sort_by_ℤ (λ (c : Category). c.sort_order)
              (sort_by (λ (c : Category). c.category_id) t.categories));
      uncategorized_products = loose;
      multi_category_enabled = settings.multi_category_enabled;
    }
