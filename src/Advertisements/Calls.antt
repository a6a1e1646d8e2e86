-- ===== src/Advertisements/Calls.antt =====
-- Every call keeps the placements, and a write empties the cache.
use naicha_backend.Advertisements.{
  add_placement, create_creative, create_slot, delete_creative, find_creative, find_slot, placed_as,
  remove_placement, set_orders, update_creative, update_placement_order, update_slot,
}
use naicha_backend.Advertisements.Changes.{
  AdCreative-discrete, CreativeChanges, change_creative, flush_creative,
}
use naicha_backend.Advertisements.Placed.{
  IsKnown, IsPlaced, IsUnique-SameKeys, IsUnique-append, IsUnique-select, SameKeys-flush_orders,
  SameKeys-set_orders, find_creative-append, find_slot-append, find_slot-map, IsKnown-SameKeys,
  remove-select,
}
use naicha_backend.Advertisements.Tables.{AdCreative, AdPlacement, AdSlot, AdState}
use naicha_backend.Advertisements.Texts.{strip}
use naicha_backend.Prelude.{
  All, All-append, All-map, Bool-cases, List, Option, Option-cases, String, [], any, ap, arith,
  if◌then◌else◌, inl, inr, is_some, none, not, refl, select, some, ℕ, ◌==◌, ◌∙◌, ◌∷◌, ◌≡◌, ◌⊎◌,
}
use naicha_backend.Table.{All-remove, find, find-remove, find-update, remove}
use mathlib.Core.Logic.{if_neg, if_pos}

-- The calls that change the tables.
pub data AdCall : Type 0 where
  creates_slot : String → String → AdCall
  updates_slot : String → Option String → AdCall
  creates_creative : AdCreative → AdCall
  updates_creative : ℕ → CreativeChanges → AdCall
  deletes_creative : ℕ → AdCall
  adds_placement : String → ℕ → Option ℕ → AdCall
  removes_placement : ℕ → AdCall
  orders_placements : String → List ℕ → AdCall

unfoldable pub perform : ℕ → AdCall → AdState → AdState
perform now (creates_slot code name) s = (create_slot now code name s).1
perform now (updates_slot code name) s = (update_slot code name s).1
perform now (creates_creative payload) s = (create_creative now payload s).1
perform now (updates_creative id ch) s = (update_creative now id ch s).1
perform now (deletes_creative id) s = (delete_creative id s).1
perform now (adds_placement code id sort_order) s = (add_placement now code id sort_order s).1
perform now (removes_placement id) s = (remove_placement id s).1
perform now (orders_placements code ids) s = (update_placement_order now code ids s).1

create_slot-IsPlaced :
    (now : ℕ) (code name : String) (s : AdState)
    → IsPlaced s
    → let s' = (create_slot now code name s).1 in IsPlaced s' × ((s' ≡ s) ⊎ (s'.cache ≡ []))
unfolding create_slot
create_slot-IsPlaced now code name s h = elim (Bool-cases (is_some (find_slot code s.slots))) [
  | inl taken ↦ rw taken (h, inl refl)
  | inr free ↦ rw free (elim (Bool-cases (is_some (find_slot (strip code) s.slots))) [
    | inl taken ↦ rw taken (h, inl refl)
    | inr new ↦ rw new (
      record {
        unique = h.unique;
        known =
            All-map (λ p k. (find_slot-append p.slot_code s.slots _ k.0, k.1)) s.placements h.known;
      },
      inr refl,
    )
  ])
]

update_slot-IsPlaced :
    (code : String) (name : Option String) (s : AdState)
    → IsPlaced s
    → let s' = (update_slot code name s).1 in IsPlaced s' × ((s' ≡ s) ⊎ (s'.cache ≡ []))
unfolding update_slot
update_slot-IsPlaced code name s h = elim (Option-cases (find_slot code s.slots)) [
  | inl absent ↦ rw (absent, update_slot) (h, inl refl)
  | inr (slot, found) ↦
      (let rename = λ (x : AdSlot).
          if x.slot_id == slot.slot_id
          then record x { name = elim name [ none ↦ x.name | some new ↦ new ] }
          else x in
        rw (found, update_slot)
          (
            record {
              unique = h.unique;
              known =
                  All-map
                    (λ p k.
                      (find_slot-map p.slot_code rename s.slots (λ x. ground arith) ∙ k.0, k.1))
                    s.placements h.known;
            },
            inr refl,
          ))
]

create_creative-IsPlaced :
    (now : ℕ) (payload : AdCreative) (s : AdState)
    → IsPlaced s
    → let s' = (create_creative now payload s).1 in IsPlaced s' × ((s' ≡ s) ⊎ (s'.cache ≡ []))
unfolding create_creative
create_creative-IsPlaced now payload s h = (
  record {
    unique = h.unique;
    known =
        All-map (λ p k. (k.0, find_creative-append p.creative_id s.creatives _ k.1)) s.placements
          h.known;
  },
  inr refl,
)

id-flush_creative :
    (now : ℕ) (ch : CreativeChanges) (c : AdCreative)
    → (flush_creative now c (change_creative ch c)).creative_id ≡ c.creative_id
unfolding flush_creative change_creative
id-flush_creative now ch c =
    let new = change_creative ch c in
    let written = record new { updated_at = now } in
    elim (AdCreative-discrete new c) [
      | yes same ↦
          ap (λ (x : AdCreative). x.creative_id) (if_pos (AdCreative-discrete new c) same c written)
      | no other ↦
          ap (λ (x : AdCreative). x.creative_id)
            (if_neg (AdCreative-discrete new c) other c written)
    ]

update_creative-IsPlaced :
    (now id : ℕ) (ch : CreativeChanges) (s : AdState)
    → IsPlaced s
    → let s' = (update_creative now id ch s).1 in IsPlaced s' × ((s' ≡ s) ⊎ (s'.cache ≡ []))
unfolding update_creative
update_creative-IsPlaced now id ch s h = elim (Option-cases (find_creative id s.creatives)) [
  | inl absent ↦ rw (absent, update_creative) (h, inl refl)
  | inr (c, found) ↦
      (let f = λ (c : AdCreative). flush_creative now c (change_creative ch c) in
        rw (found, update_creative)
          (
            record {
              unique = h.unique;
              known =
                  All-map
                    (λ p k. (
                      k.0,
                      ground (
                        arith,
                        k.1,
                        find-update (λ (c : AdCreative). c.creative_id) id p.creative_id f
                            s.creatives (id-flush_creative now ch),
                      ),
                    ))
                    s.placements h.known;
            },
            inr refl,
          ))
]

select-others :
    (slots : List AdSlot) (creatives : List AdCreative) (id : ℕ) (ps : List AdPlacement)
    → All (IsKnown slots creatives) ps
    → All
        (IsKnown slots (remove (λ (c : AdCreative). c.creative_id) id creatives))
        (select (λ p. not (p.creative_id == id)) ps)
select-others slots creatives id [] h = tt
select-others slots creatives id (p ∷ ps) h = elim (Bool-cases (p.creative_id == id)) [
  | inl here ↦ rw here (select-others slots creatives id ps h.1)
  | inr there ↦ rw there (
    (
      h.0.0,
      ground (
        arith,
        h.0.1,
        there,
        find-remove (λ (c : AdCreative). c.creative_id) id p.creative_id creatives,
      ),
    ),
    select-others slots creatives id ps h.1,
  )
]

delete_creative-IsPlaced :
    (id : ℕ) (s : AdState)
    → IsPlaced s
    → let s' = (delete_creative id s).1 in IsPlaced s' × ((s' ≡ s) ⊎ (s'.cache ≡ []))
unfolding delete_creative
delete_creative-IsPlaced id s h = elim (Option-cases (find_creative id s.creatives)) [
  | inl absent ↦ rw (absent, delete_creative) (h, inl refl)
  | inr (c, found) ↦
      rw (found, delete_creative)
        (
          record {
            unique = IsUnique-select (λ p. not (p.creative_id == id)) s.placements h.unique;
            known = select-others s.slots s.creatives id s.placements h.known;
          },
          inr refl,
        )
]

add_placement-IsPlaced :
    (now : ℕ) (code : String) (id : ℕ) (sort_order : Option ℕ) (s : AdState)
    → IsPlaced s
    → let s' = (add_placement now code id sort_order s).1 in
      IsPlaced s' × ((s' ≡ s) ⊎ (s'.cache ≡ []))
unfolding add_placement
add_placement-IsPlaced now code id sort_order s h =
    elim (Bool-cases (is_some (find_slot code s.slots))) [
      | inr absent ↦ rw absent (h, inl refl)
      | inl slot ↦ rw slot (elim (Bool-cases (is_some (find_creative id s.creatives))) [
        | inr absent ↦ rw absent (h, inl refl)
        | inl creative ↦ rw creative (elim (Bool-cases (any (placed_as code id) s.placements)) [
          | inl placed ↦ rw placed (h, inl refl)
          | inr free ↦ rw free (
            record {
              unique = IsUnique-append s.placements _ h.unique free;
              known =
                  All-append (IsKnown s.slots s.creatives) s.placements _ h.known
                    ((slot, creative), tt);
            },
            inr refl,
          )
        ])
      ])
    ]

remove_placement-IsPlaced :
    (id : ℕ) (s : AdState)
    → IsPlaced s
    → let s' = (remove_placement id s).1 in IsPlaced s' × ((s' ≡ s) ⊎ (s'.cache ≡ []))
unfolding remove_placement
remove_placement-IsPlaced id s h =
    elim (Option-cases (find (λ (p : AdPlacement). p.placement_id) id s.placements)) [
      | inl absent ↦ rw (absent, remove_placement) (h, inl refl)
      | inr (p, found) ↦
          rw (found, remove_placement)
            (
              record {
                unique =
                    rw (remove-select id s.placements)
                      (IsUnique-select (λ p. not (p.placement_id == id)) s.placements h.unique);
                known =
                    All-remove (λ (p : AdPlacement). p.placement_id) (IsKnown s.slots s.creatives)
                      id s.placements h.known;
              },
              inr refl,
            )
    ]

update_placement_order-IsPlaced :
    (now : ℕ) (code : String) (ids : List ℕ) (s : AdState)
    → IsPlaced s
    → let s' = (update_placement_order now code ids s).1 in
      IsPlaced s' × ((s' ≡ s) ⊎ (s'.cache ≡ []))
unfolding update_placement_order
update_placement_order-IsPlaced now code ids s h =
    elim (Bool-cases (any (λ id. not (any (placed_as code id) s.placements)) ids)) [
      | inl missing ↦ rw missing (h, inl refl)
      | inr there ↦
          (let ordered = set_orders code 0 ids s.placements in
            let same =
              SameKeys-flush_orders now s.placements ordered
                (SameKeys-set_orders code 0 ids s.placements) in
            rw there (
              record {
                unique = IsUnique-SameKeys s.placements _ same h.unique;
                known = IsKnown-SameKeys s.slots s.creatives s.placements _ same h.known;
              },
              inr refl,
            ))
    ]

-- Whatever call on slots, creatives or placements comes next, no creative is placed in one slot twice
-- and the slot and the creative of every placement exist, if that was so before; and a call that
-- changes anything leaves no configuration in the cache.
pub perform-IsPlaced :
    (now : ℕ) (call : AdCall) (s : AdState)
    → IsPlaced s
    → let s' = perform now call s in IsPlaced s' × ((s' ≡ s) ⊎ (s'.cache ≡ []))
unfolding perform
perform-IsPlaced now (creates_slot code name) s h = create_slot-IsPlaced now code name s h
perform-IsPlaced now (updates_slot code name) s h = update_slot-IsPlaced code name s h
perform-IsPlaced now (creates_creative payload) s h = create_creative-IsPlaced now payload s h
perform-IsPlaced now (updates_creative id ch) s h = update_creative-IsPlaced now id ch s h
perform-IsPlaced now (deletes_creative id) s h = delete_creative-IsPlaced id s h
perform-IsPlaced now (adds_placement code id sort_order) s h =
    add_placement-IsPlaced now code id sort_order s h
perform-IsPlaced now (removes_placement id) s h = remove_placement-IsPlaced id s h
perform-IsPlaced now (orders_placements code ids) s h =
    update_placement_order-IsPlaced now code ids s h
