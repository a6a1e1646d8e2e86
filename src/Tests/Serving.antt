-- ===== src/Tests/Serving.antt =====
-- Two processes that serve the menu, and what stands in it.
use naicha_backend.Menu.{MenuCaches, get_menu_payload, invalidate_menu_cache, undisturbed}
use naicha_backend.Menu.Fresh.{IsCurrent}
use naicha_backend.Menu.Listed.{
  IsDistinct, build_menu_payload-products, on_sale, stands_in, stands_nowhere,
}
use naicha_backend.Menu.Payload.{
  Catalogue, Category, CategoryPayload, build_menu_payload, category_ids_of, product_payload,
  sort_by_ℤ,
}
use naicha_backend.Menu.Served.{MenuEvent, asks, changes, serve_all, serve_all-menus_asked}
use naicha_backend.Models.{InventoryStatus, ProductStatus}
use naicha_backend.Models.Rows.{Product}
use naicha_backend.Prelude.{
  All, List, String, [], false, map, none, pos, refl, select, some, sort_by, true, ◌∷◌, ◌≡◌,
}
use naicha_backend.Tests.Data.{shop_settings}

abbrev no_caches : MenuCaches String
no_caches = record { local = λ p. none; disabled = λ p. false; version = none; remote = none }

no_caches-IsCurrent : IsCurrent "old menu" no_caches
no_caches-IsCurrent = record { local = λ p. tt; remote = tt; connected = λ p. refl }

abbrev events : List (MenuEvent String)
events = asks 1 50 ∷ asks 2 60 ∷ changes 1 "new menu" ∷ asks 2 70 ∷ asks 1 80 ∷ []

serve_all-menus_asked_example :
    serve_all shop_settings events "old menu" no_caches
    ≡ "old menu" ∷ "old menu" ∷ "new menu" ∷ "new menu" ∷ []
serve_all-menus_asked_example =
    serve_all-menus_asked shop_settings events "old menu" no_caches no_caches-IsCurrent

-- A process that asks between an invalidation and the commit leaves the old menu to the others.
late_commit :
    (get_menu_payload shop_settings true 2 60 undisturbed "new menu"
      (get_menu_payload shop_settings true 1 50 undisturbed "old menu"
        (invalidate_menu_cache true 1 undisturbed no_caches)).1).0
    ≡ "old menu"
unfolding get_menu_payload invalidate_menu_cache
late_commit = refl

-- So does one that has read the old menu when a change comes, and stores it after that.
late_store :
    (get_menu_payload shop_settings true 2 60 undisturbed "new menu"
      (get_menu_payload shop_settings true 1 50
        (invalidate_menu_cache true 2 undisturbed)
        "old menu"
        no_caches).1).0
    ≡ "old menu"
unfolding get_menu_payload invalidate_menu_cache
late_store = refl

abbrev tea : Product
tea = record {
  product_id = 7;
  name = "tea";
  base_price = pos 1200;
  status = ProductStatus.active;
  inventory_status = InventoryStatus.in_stock;
  stock_quantity = none;
  updated_at = 0;
}

abbrev catalogue : Catalogue
catalogue = record {
  categories = record { category_id = 2; name = "hot"; sort_order = pos 1 } ∷ [];
  products =
      record { row = tea; category_id = some 2; category_ids = 2 ∷ [] }
      ∷ record { row = record tea { product_id = 3 }; category_id = none; category_ids = [] }
      ∷ [];
  groups = [];
  options = [];
  mappings = [];
}

distinct : All (λ p. IsDistinct (category_ids_of shop_settings p)) (on_sale shop_settings catalogue)
unfolding category_ids_of sort_by
distinct = (tt, ((refl, tt), tt))

build_menu_payload-products_example :
    let menu = build_menu_payload shop_settings catalogue in
    (menu.categories
      ≡ map {B = CategoryPayload}
          (λ (c : Category). record {
            category_id = c.category_id;
            name = c.name;
            sort_order = c.sort_order;
            products = map (product_payload catalogue) (
                select
                  (stands_in shop_settings catalogue c.category_id)
                  (on_sale shop_settings catalogue));
          })
          (sort_by_ℤ
            (λ (c : Category). c.sort_order)
            (sort_by (λ (c : Category). c.category_id) catalogue.categories)))
    × (menu.uncategorized_products
        ≡ map
            (product_payload catalogue)
            (select (stands_nowhere shop_settings catalogue) (on_sale shop_settings catalogue)))
build_menu_payload-products_example = build_menu_payload-products shop_settings catalogue distinct
