-- ===== src/Menu/Served.antt =====
-- Processes that get the menu while it changes.
use naicha_backend.Database.{Settings}
use naicha_backend.Menu.{MenuCaches, get_menu_payload, invalidate_menu_cache, undisturbed}
use naicha_backend.Menu.Fresh.{IsCurrent, IsCurrent-invalidate_menu_cache}
use naicha_backend.Menu.Loaded.{IsCurrent-get_menu_payload}
use naicha_backend.Prelude.{List, [], refl, true, ℕ, ◌∷◌, ◌≡◌}

-- A process gets the menu at a time, or changes the status or the inventory status of a product, or the
-- inventory status of an option, which invalidates the caches.
pub data MenuEvent (P : Type 0) : Type 0 where
  asks : ℕ → ℕ → MenuEvent P
  changes : ℕ → P → MenuEvent P

module _ {P : Type 0} where
  -- What the processes get, one after the other, from a menu and caches on.
  unfoldable pub serve_all : Settings → List (MenuEvent P) → P → MenuCaches P → List P
  serve_all settings [] menu s = []
  serve_all settings (asks p now ∷ es) menu s =
      let (got, s') = get_menu_payload settings true p now undisturbed menu s in
      got ∷ serve_all settings es menu s'
  serve_all settings (changes p menu' ∷ es) menu s =
      serve_all settings es menu' (invalidate_menu_cache true p undisturbed s)

  -- The menus there are at the times somebody asks.
  abbrev pub menus_asked : List (MenuEvent P) → P → List P
  menus_asked [] menu = []
  menus_asked (asks p now ∷ es) menu = menu ∷ menus_asked es menu
  menus_asked (changes p menu' ∷ es) menu = menus_asked es menu'

  -- As long as Redis answers, and gets and changes come one after the other, none beginning before
  -- another has ended with its commit and its task in the background: from fresh caches on, whichever
  -- processes get the menu or change a status or an inventory status in it, and whenever, each gets
  -- the menu there is, as if nothing were cached.
  pub serve_all-menus_asked :
      (settings : Settings) (es : List (MenuEvent P)) (menu : P) (s : MenuCaches P)
      → IsCurrent menu s
      → serve_all settings es menu s ≡ menus_asked es menu
  unfolding serve_all
  serve_all-menus_asked settings [] menu s h = refl
  serve_all-menus_asked settings (asks p now ∷ es) menu s h =
      let (got, fresh) = IsCurrent-get_menu_payload settings menu s p now h in
      cc (
        got,
        serve_all-menus_asked settings es menu
            (get_menu_payload settings true p now undisturbed menu s).1 fresh,
      )
  serve_all-menus_asked settings (changes p menu' ∷ es) menu s h =
      serve_all-menus_asked settings es menu' (invalidate_menu_cache true p undisturbed s)
        (IsCurrent-invalidate_menu_cache menu menu' s p h)
