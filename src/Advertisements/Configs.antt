-- ===== src/Advertisements/Configs.antt =====
-- `get_config`, `_determine_version` and `_load_active_creatives` of app/services/advertisement.py.
pub mod Calm
pub mod Plain
pub mod Current
use naicha_backend.Advertisements.{find_creative, max_by}
use naicha_backend.Advertisements.Changes.{or_miniapp}
use naicha_backend.Advertisements.Keys.{build_cache_key}
use naicha_backend.Advertisements.Tables.{
  AdCreative, AdPlacement, AdSlot, AdState, CachedConfig, ServedCreative, SlotConfig,
}
use naicha_backend.Advertisements.Texts.{strip}
use naicha_backend.Database.{second}
use naicha_backend.Prelude.{
  Bool, List, Option, String, [], any, codes, false, if◌then◌else◌, leb, ltb, map, max, min, none,
  not, select, some, sort_by, str_eq, true, ℕ, ◌&&◌, ◌*◌, ◌-◌, ◌/◌, ◌==◌, ◌||◌, ◌∷◌,
}

-- The slots that are asked for: stripped, without empty ones, each once, in the order of `sorted`.
abbrev leb_codes : List ℕ → List ℕ → Bool
leb_codes [] ds = true
leb_codes (c ∷ cs) [] = false
leb_codes (c ∷ cs) (d ∷ ds) = ltb c d || c == d && leb_codes cs ds

unfoldable pub insert_text : String → List String → List String
insert_text t [] = t ∷ []
insert_text t (u ∷ us) =
    let rest = insert_text t us in
    if str_eq t u then u ∷ us else if leb_codes (codes t) (codes u) then t ∷ u ∷ us else u ∷ rest

unfoldable pub normalize_slots : List String → List String
unfolding insert_text
normalize_slots [] = []
normalize_slots (slot ∷ slots) =
    let rest = normalize_slots slots in
    if str_eq (strip slot) "" then rest else insert_text (strip slot) rest

abbrev pub mem_text : String → List String → Bool
mem_text t us = any (λ u. str_eq u t) us

abbrev pub after : ℕ → Option ℕ → Bool
after now none = false
after now (some t) = ltb now t

abbrev pub before : ℕ → Option ℕ → Bool
before now none = false
before now (some t) = ltb t now

-- The tests of `_load_active_creatives`
unfoldable pub is_active : ℕ → String → AdCreative → Bool
is_active now platform c =
    c.enabled
    && (not (after now c.start_time)
        && (not (before now c.end_time) && mem_text platform (or_miniapp c.platforms)))

abbrev pub serve : AdPlacement → AdCreative → ServedCreative
serve p c = record {
  creative_id = c.creative_id;
  title = c.title;
  image_url = c.image_url;
  jump_type = c.jump_type;
  jump_payload = c.jump_payload;
  tags = c.tags;
  priority = c.priority;
  sort_order = p.sort_order;
}

-- The active creatives of one slot, as the join has them.
unfoldable pub active_in :
    ℕ → String → String → List AdCreative → List AdPlacement → List ServedCreative
unfolding is_active
active_in now platform code cs [] = []
active_in now platform code cs (p ∷ ps) =
    let rest = active_in now platform code cs ps in
    if str_eq p.slot_code code
    then (elim (find_creative p.creative_id cs) [
      | none ↦ rest
      | some c ↦ if is_active now platform c then serve p c ∷ rest else rest
    ])
    else rest

-- By the priority, the order in the slot, and the id.
unfoldable pub in_order : List ServedCreative → List ServedCreative
in_order xs =
    sort_by (λ (x : ServedCreative). x.priority)
      (sort_by (λ (x : ServedCreative). x.sort_order) (sort_by (λ x. x.creative_id) xs))

-- `_load_active_creatives`
unfoldable pub load_active : List String → String → ℕ → AdState → SlotConfig
unfolding active_in in_order
load_active slots platform now s =
    map (λ slot. (slot, in_order (active_in now platform slot s.creatives s.placements))) slots

-- The creatives that are placed in one of the slots.
unfoldable pub placed_creatives : List String → List AdCreative → List AdPlacement → List AdCreative
placed_creatives slots cs [] = []
placed_creatives slots cs (p ∷ ps) =
    let rest = placed_creatives slots cs ps in
    if mem_text p.slot_code slots
    then (elim (find_creative p.creative_id cs) [ none ↦ rest | some c ↦ c ∷ rest ])
    else rest

-- `func.max` of the times that are past, and `func.min` of those to come.
abbrev pub past : ℕ → Option ℕ → ℕ
past now none = 0
past now (some t) = if leb t now then t else 0

abbrev pub sooner : Option ℕ → Option ℕ → Option ℕ
sooner none o = o
sooner (some t) none = some t
sooner (some t) (some u) = some (min t u)

abbrev pub to_come : ℕ → Option ℕ → Option ℕ
to_come now none = none
to_come now (some t) = if ltb now t then some t else none

unfoldable pub next_change_of : ℕ → List AdCreative → Option ℕ
next_change_of now [] = none
next_change_of now (c ∷ cs) =
    sooner (sooner (to_come now c.start_time) (to_come now c.end_time)) (next_change_of now cs)

-- The version of `_determine_version`, in seconds; no time at all gives 0.
unfoldable pub version_of : List String → ℕ → AdState → ℕ
version_of slots now s =
    let placed = placed_creatives slots s.creatives s.placements in
    let updated = max (max_by (λ (c : AdCreative). c.updated_at) s.creatives) (
      max (max_by (λ (p : AdPlacement). p.updated_at) s.placements)
        (max_by (λ (x : AdSlot). x.created_at) s.slots)) in
    let changed_ =
      max (max_by (λ (c : AdCreative). past now c.start_time) placed)
        (max_by (λ (c : AdCreative). past now c.end_time) placed) in
    max updated changed_ / second

-- An entry stands under the key that its slots and its platform were joined to.
abbrev pub is_config : List String → String → CachedConfig → Bool
is_config slots platform e =
    str_eq (build_cache_key e.slots e.platform) (build_cache_key slots platform)

unfoldable pub find_config : List String → String → List CachedConfig → Option CachedConfig
find_config slots platform [] = none
find_config slots platform (e ∷ es) =
    if is_config slots platform e then some e else find_config slots platform es

-- The assignment to a key of `_CONFIG_CACHE`.
unfoldable pub store_config : CachedConfig → List CachedConfig → List CachedConfig
store_config e es = e ∷ select (λ x. not (is_config e.slots e.platform x)) es

-- `_CACHE_TTL_SECONDS`
abbrev pub cache_ttl : ℕ
cache_ttl = 300 * second

abbrev pub is_before : ℕ → Option ℕ → Bool
is_before now none = true
is_before now (some t) = ltb now t

unfoldable pub is_valid : ℕ → CachedConfig → Bool
is_valid now e = ltb (now - e.stored_at) cache_ttl && is_before now e.next_change

-- AdConfigResponseSchema; a client that has the version gets no slots.
pub record AdConfig : Type 0 where
  pub version : ℕ
  pub slots : SlotConfig

abbrev pub config_answer : ℕ → ℕ → SlotConfig → AdConfig
config_answer current_version version served = record {
  version = version;
  slots = if not (current_version == 0) && current_version == version then [] else served;
}

-- What is computed and stored where the cache does not serve.
unfoldable pub compute_config : List String → String → ℕ → AdState → CachedConfig
unfolding load_active placed_creatives next_change_of version_of
compute_config slots platform now s =
    let version = version_of slots now s in
    record {
      slots = slots;
      platform = platform;
      stored_at = now;
      version = version;
      served =
          if version == 0 then map (λ slot. (slot, [])) slots else load_active slots platform now s;
      next_change = next_change_of now (placed_creatives slots s.creatives s.placements);
    }

-- The part of `get_config` behind the normalization.
unfoldable pub serve_config : List String → String → ℕ → ℕ → AdState → AdConfig × AdState
unfolding find_config store_config is_valid compute_config
serve_config slots platform current_version now s =
    let new = compute_config slots platform now s in
    let fresh : AdConfig × AdState = (
      config_answer current_version new.version new.served,
      record s { cache = store_config new s.cache },
    ) in
    elim (find_config slots platform s.cache) [
      | none ↦ fresh
      | some e ↦
          if is_valid now e then (config_answer current_version e.version e.served, s) else fresh
    ]

-- `get_config`
unfoldable pub get_config : List String → String → ℕ → ℕ → AdState → AdConfig × AdState
unfolding normalize_slots serve_config
get_config slots platform current_version now s =
    let normalized = normalize_slots slots in
    elim normalized [
      | [] ↦ (record { version = 0; slots = [] }, s)
      | slot ∷ rest ↦ serve_config (slot ∷ rest) platform current_version now s
    ]
