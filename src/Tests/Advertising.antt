-- ===== src/Tests/Advertising.antt =====
-- Slots, creatives and placements, and what a client is served before and after a creative ends.
use naicha_backend.Advertisements.{add_placement, create_creative, create_slot}
use naicha_backend.Advertisements.Calls.{
  adds_placement, creates_creative, creates_slot, perform, perform-IsPlaced,
}
use naicha_backend.Advertisements.Configs.{
  config_answer, find_config, get_config, load_active, normalize_slots, serve_config,
}
use naicha_backend.Advertisements.Configs.Calm.{EndsApart}
use naicha_backend.Advertisements.Configs.Current.{IsCoherent, get_config-current}
use naicha_backend.Advertisements.Placed.{IsPlaced}
use naicha_backend.Advertisements.Tables.{AdCreative, AdState, no_jump}
use naicha_backend.Database.{second}
use naicha_backend.Prelude.{All, [], arith, none, refl, some, true, ◌∷◌, ◌≡◌, ◌≤◌, ◌⊎◌}
use naicha_backend.Table.{find}

abbrev spring_tea : AdCreative
spring_tea = record {
  creative_id = 0;
  title = "spring tea";
  image_url = "https://img.example.com/spring.png";
  jump_type = no_jump;
  jump_payload = none;
  start_time = none;
  end_time = some 9000000;
  enabled = true;
  priority = 1;
  platforms = [];
  tags = [];
  updated_at = 0;
}

abbrev no_ads : AdState
no_ads = record {
  slots = [];
  creatives = [];
  placements = [];
  cache = [];
  next_slot_id = 1;
  next_creative_id = 1;
  next_placement_id = 1;
}

abbrev banner_placed : AdState
banner_placed = perform 4000000 (adds_placement "BANNER" 1 none) (
    perform 3000000 (creates_creative spring_tea)
      (perform 2000000 (creates_slot " BANNER " "banner") no_ads))

no_ads-IsPlaced : IsPlaced no_ads
no_ads-IsPlaced = record { unique = tt; known = tt }

banner_placed-IsPlaced : IsPlaced banner_placed
banner_placed-IsPlaced =
    let slot = perform 2000000 (creates_slot " BANNER " "banner") no_ads in
    let creative = perform 3000000 (creates_creative spring_tea) slot in
    let slot_placed =
      (perform-IsPlaced 2000000 (creates_slot " BANNER " "banner") no_ads no_ads-IsPlaced).0 in
    let creative_placed =
      (perform-IsPlaced 3000000 (creates_creative spring_tea) slot slot_placed).0 in
    (perform-IsPlaced 4000000 (adds_placement "BANNER" 1 none) creative creative_placed).0

perform-IsPlaced_example :
    let s' = perform 5000000 (adds_placement "BANNER" 1 none) banner_placed in
    IsPlaced s' × ((s' ≡ banner_placed) ⊎ (s'.cache ≡ []))
perform-IsPlaced_example =
    perform-IsPlaced 5000000 (adds_placement "BANNER" 1 none) banner_placed banner_placed-IsPlaced

abbrev served_once : AdState
served_once = (get_config ("BANNER" ∷ []) "miniapp" 0 5000000 banner_placed).1

banner_placed-written : All (λ (c : AdCreative). second ≤ c.updated_at) banner_placed.creatives
unfolding perform create_slot create_creative add_placement find
banner_placed-written = (omega arith, tt)

banner_placed-apart : All (EndsApart 5000000) banner_placed.creatives
unfolding perform create_slot create_creative add_placement find
banner_placed-apart = (λ e. absurd (ground (arith, e)), tt)

no_config : banner_placed.cache ≡ []
unfolding perform create_slot create_creative add_placement find
no_config = refl

served_once-creatives : served_once.creatives ≡ banner_placed.creatives
unfolding get_config serve_config find_config perform create_slot create_creative add_placement find
served_once-creatives = refl

served_once-IsCoherent : All (IsCoherent 5000000 served_once) served_once.cache
served_once-IsCoherent =
    (get_config-current ("BANNER" ∷ []) "miniapp" 0 5000000 banner_placed banner_placed-written
      banner_placed-apart (rw no_config tt) (refl, tt) refl).1

get_config-current_example :
    let answered = get_config ("BANNER" ∷ []) "miniapp" 3 5000000 served_once in
    (answered.0.slots
      ≡ (config_answer 3 answered.0.version
          (load_active (normalize_slots ("BANNER" ∷ [])) "miniapp" 5000000 served_once)).slots)
    × All (IsCoherent 5000000 answered.1) answered.1.cache
get_config-current_example =
    get_config-current ("BANNER" ∷ []) "miniapp" 3 5000000 served_once
      (rw served_once-creatives banner_placed-written)
      (rw served_once-creatives banner_placed-apart) served_once-IsCoherent (refl, tt) refl
