-- ===== src/Advertisements.antt =====
-- AdvertisementService of app/services/advertisement.py: slots on the pages of the shop, creatives, and
-- which creative is placed in which slot; app/models/advertisement.py has the tables.
pub mod Tables
mod Texts
pub mod Keys
pub mod Changes
pub mod Configs
pub mod Placed
pub mod Calls
use naicha_backend.Advertisements.Changes.{
  CreativeChanges, change_creative, changed, flush_creative, or_miniapp,
}
use naicha_backend.Advertisements.Tables.{
  AdCreative, AdError, AdPlacement, AdSlot, AdState, creative_not_found, integrity_error,
  placement_conflict, placement_not_found, slot_exists, slot_not_found,
}
use naicha_backend.Advertisements.Texts.{strip}
use naicha_backend.Exec.{Exec, Result, err, ok}
use naicha_backend.Prelude.{
  Bool, List, Option, String, [], any, if◌then◌else◌, is_some, map, max, none, not, select, some,
  sort_by, str_eq, ℕ, ◌&&◌, ◌++◌, ◌+◌, ◌==◌, ◌∷◌,
}
use naicha_backend.Table.{find, remove, update}

abbrev pub find_slot : String → List AdSlot → Option AdSlot
find_slot code [] = none
find_slot code (s ∷ ss) =
    let rest = find_slot code ss in if str_eq s.code code then some s else rest

abbrev pub find_creative : ℕ → List AdCreative → Option AdCreative
find_creative id cs = find (λ (c : AdCreative). c.creative_id) id cs

abbrev pub placed_as : String → ℕ → AdPlacement → Bool
placed_as code id p = str_eq p.slot_code code && p.creative_id == id

-- `_invalidate_cache`
abbrev pub invalidate_cache : AdState → AdState
invalidate_cache s = record s { cache = [] }

-- `create_slot`
unfoldable pub create_slot : ℕ → String → String → Exec AdState AdError AdSlot
unfolding strip
create_slot now code name s =
    let slot : AdSlot = record {
      slot_id = s.next_slot_id;
      code = strip code;
      name = strip name;
      created_at = now;
    } in
    if is_some (find_slot code s.slots)
    then (err slot_exists, s)
    else if is_some (find_slot (strip code) s.slots)
    then (err integrity_error, s)
    else (
      ok slot,
      invalidate_cache
          (record s { slots = s.slots ++ slot ∷ []; next_slot_id = s.next_slot_id + 1 }),
    )

-- `update_slot`; of the fields only the name is modelled.
unfoldable pub update_slot : String → Option String → Exec AdState AdError (Unit {0})
update_slot code name s = elim (find_slot code s.slots) [
  | none ↦ (err slot_not_found, s)
  | some slot ↦ (
    ok tt,
    invalidate_cache (record s {
      slots =
          map
            (λ (x : AdSlot).
              if x.slot_id == slot.slot_id
              then record x { name = elim name [ none ↦ x.name | some new ↦ new ] }
              else x)
            s.slots;
    }),
  )
]

-- `create_creative`; the id and the time of the row that is sent are set here.
unfoldable pub create_creative : ℕ → AdCreative → AdState → AdCreative × AdState
create_creative now payload s =
    let creative = record payload {
      creative_id = s.next_creative_id;
      platforms = or_miniapp payload.platforms;
      updated_at = now;
    } in
    (
      creative,
      invalidate_cache (record s {
        creatives = s.creatives ++ creative ∷ [];
        next_creative_id = s.next_creative_id + 1;
      }),
    )

-- `update_creative`
unfoldable pub update_creative : ℕ → ℕ → CreativeChanges → Exec AdState AdError (Unit {0})
unfolding change_creative flush_creative
update_creative now id ch s = elim (find_creative id s.creatives) [
  | none ↦ (err creative_not_found, s)
  | some c ↦ (
    ok tt,
    invalidate_cache (record s {
      creatives =
          update (λ (c : AdCreative). c.creative_id) id
            (λ c. flush_creative now c (change_creative ch c)) s.creatives;
    }),
  )
]

-- `delete_creative`, whose placements go with it (`ondelete="CASCADE"`).
unfoldable pub delete_creative : ℕ → Exec AdState AdError (Unit {0})
delete_creative id s = elim (find_creative id s.creatives) [
  | none ↦ (err creative_not_found, s)
  | some c ↦ (
    ok tt,
    invalidate_cache (record s {
      creatives = remove (λ (c : AdCreative). c.creative_id) id s.creatives;
      placements = select (λ p. not (p.creative_id == id)) s.placements;
    }),
  )
]

-- `func.max` of a column
abbrev pub max_by : {A : Type 0} → (A → ℕ) → List A → ℕ
max_by f [] = 0
max_by f (x ∷ xs) = max (f x) (max_by f xs)

-- `add_placement`
unfoldable pub add_placement : ℕ → String → ℕ → Option ℕ → Exec AdState AdError AdPlacement
add_placement now code id sort_order s =
    let last =
      max_by (λ (p : AdPlacement). p.sort_order)
        (select (λ p. str_eq p.slot_code code) s.placements) in
    let placement : AdPlacement = record {
      placement_id = s.next_placement_id;
      slot_code = code;
      creative_id = id;
      sort_order = changed sort_order (last + 1);
      updated_at = now;
    } in
    if not (is_some (find_slot code s.slots))
    then (err slot_not_found, s)
    else if not (is_some (find_creative id s.creatives))
    then (err creative_not_found, s)
    else if any (placed_as code id) s.placements
    then (err placement_conflict, s)
    else (
      ok placement,
      invalidate_cache (record s {
        placements = s.placements ++ placement ∷ [];
        next_placement_id = s.next_placement_id + 1;
      }),
    )

-- `remove_placement`
unfoldable pub remove_placement : ℕ → Exec AdState AdError (Unit {0})
remove_placement id s = elim (find (λ (p : AdPlacement). p.placement_id) id s.placements) [
  | none ↦ (err placement_not_found, s)
  | some p ↦ (
    ok tt,
    invalidate_cache
        (record s { placements = remove (λ (p : AdPlacement). p.placement_id) id s.placements }),
  )
]

-- `list_placements`: by `sort_order`, then by id.
unfoldable pub list_placements : String → AdState → Result AdError (List AdPlacement)
list_placements code s =
    let placed = select (λ p. str_eq p.slot_code code) s.placements in
    let listed =
      sort_by (λ (p : AdPlacement). p.sort_order) (sort_by (λ p. p.placement_id) placed) in
    elim listed [
      | p ∷ ps ↦ ok (p ∷ ps)
      | [] ↦ if is_some (find_slot code s.slots) then ok [] else err slot_not_found
    ]

-- The loop of `update_placement_order`, from an index on; a later index overwrites an earlier one.
unfoldable pub set_orders : String → ℕ → List ℕ → List AdPlacement → List AdPlacement
set_orders code i [] ps = ps
set_orders code i (id ∷ ids) ps =
    set_orders code (i + 1) ids
      (map (λ p. if placed_as code id p then record p { sort_order = i } else p) ps)

-- What `flush` writes of the rows, beside the rows as they were.
unfoldable pub flush_orders : ℕ → List AdPlacement → List AdPlacement → List AdPlacement
flush_orders now [] news = []
flush_orders now (p ∷ ps) [] = []
flush_orders now (p ∷ ps) (q ∷ qs) =
    (if p.sort_order == q.sort_order then p else record q { updated_at = now })
    ∷ flush_orders now ps qs

-- `update_placement_order`
unfoldable pub update_placement_order : ℕ → String → List ℕ → Exec AdState AdError (Unit {0})
unfolding set_orders flush_orders
update_placement_order now code ids s =
    if any (λ id. not (any (placed_as code id) s.placements)) ids
    then (err placement_not_found, s)
    else (
      ok tt,
      invalidate_cache (record s {
        placements = flush_orders now s.placements (set_orders code 0 ids s.placements);
      }),
    )
