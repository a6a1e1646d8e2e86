-- ===== src/Advertisements/Placed.antt =====
-- A creative is placed in a slot at most once, and both exist.
use naicha_backend.Advertisements.{find_creative, find_slot, flush_orders, placed_as, set_orders}
use naicha_backend.Advertisements.Tables.{AdCreative, AdPlacement, AdSlot, AdState}
use naicha_backend.Prelude.{
  All, Bool, Bool-cases, List, String, [], any, any-append, any-select, ap, arith, eq_iff, false,
  if◌then◌else◌, inl, inr, is_some, map, not, refl, select, str_eq, true, ℕ, ◌++◌, ◌+◌, ◌==◌, ◌∙◌,
  ◌∷◌, ◌≡◌,
}
use naicha_backend.Table.{find-append, remove}

abbrev pub IsUnique : List AdPlacement → Type 0
IsUnique [] = Unit
IsUnique (p ∷ ps) = (any (placed_as p.slot_code p.creative_id) ps ≡ false) × IsUnique ps

-- The two rows that a placement names.
abbrev pub IsKnown : List AdSlot → List AdCreative → AdPlacement → Type 0
IsKnown slots creatives p =
    (is_some (find_slot p.slot_code slots) ≡ true)
    × (is_some (find_creative p.creative_id creatives) ≡ true)

pub record IsPlaced (s : AdState) : Type 0 where
  pub unique : IsUnique s.placements
  pub known : All (IsKnown s.slots s.creatives) s.placements

pub find_slot-append :
    (code : String) (ss : List AdSlot) (x : AdSlot)
    → is_some (find_slot code ss) ≡ true
    → is_some (find_slot code (ss ++ x ∷ [])) ≡ true
find_slot-append code [] x h = absurd (ground (arith, h))
find_slot-append code (y ∷ ss) x h = elim (Bool-cases (str_eq y.code code)) [
  | inl here ↦ rw here refl
  | inr there ↦ rw there (find_slot-append code ss x (ground (arith, h, there)))
]

pub find_slot-map :
    (code : String) (f : AdSlot → AdSlot) (ss : List AdSlot)
    → ((x : AdSlot) → (f x).code ≡ x.code)
    → is_some (find_slot code (map f ss)) ≡ is_some (find_slot code ss)
find_slot-map code f [] same = refl
find_slot-map code f (x ∷ ss) same = rw (same x) (ground (arith, find_slot-map code f ss same))

pub find_creative-append :
    (id : ℕ) (cs : List AdCreative) (x : AdCreative)
    → is_some (find_creative id cs) ≡ true
    → is_some (find_creative id (cs ++ x ∷ [])) ≡ true
find_creative-append id cs x h =
    ground (arith, h, find-append (λ (c : AdCreative). c.creative_id) id cs x)

-- A table of placements that only loses rows stays unique.
pub IsUnique-select :
    (f : AdPlacement → Bool) (ps : List AdPlacement) → IsUnique ps → IsUnique (select f ps)
IsUnique-select f [] h = tt
IsUnique-select f (p ∷ ps) h = elim (Bool-cases (f p)) [
  | inl taken ↦
      rw taken (any-select (placed_as p.slot_code p.creative_id) f ps h.0, IsUnique-select f ps h.1)
  | inr left ↦ rw left (IsUnique-select f ps h.1)
]

pub remove-select :
    (id : ℕ) (ps : List AdPlacement)
    → remove (λ (p : AdPlacement). p.placement_id) id ps
      ≡ select (λ p. not (p.placement_id == id)) ps
unfolding remove
remove-select id [] = refl
remove-select id (p ∷ ps) = elim (Bool-cases (p.placement_id == id)) [
  | inl here ↦ rw here (remove-select id ps)
  | inr there ↦ rw there (ap (λ rest. p ∷ rest) (remove-select id ps))
]

pub IsUnique-append :
    (ps : List AdPlacement) (p : AdPlacement)
    → IsUnique ps
    → any (placed_as p.slot_code p.creative_id) ps ≡ false
    → IsUnique (ps ++ p ∷ [])
IsUnique-append [] p h new = (refl, tt)
IsUnique-append (q ∷ ps) p h new = (
  ground (
    arith,
    any-append (placed_as q.slot_code q.creative_id) ps (p ∷ []),
    h.0,
    new,
    eq_iff p.slot_code q.slot_code,
    eq_iff q.slot_code p.slot_code,
  ),
  IsUnique-append ps p h.1 (ground (arith, new)),
)

-- Rows that name the same slots and creatives.
abbrev pub SameKeys : List AdPlacement → List AdPlacement → Type 0
SameKeys [] [] = Unit
SameKeys [] (q ∷ qs) = ⊥
SameKeys (p ∷ ps) [] = ⊥
SameKeys (p ∷ ps) (q ∷ qs) =
    (p.slot_code ≡ q.slot_code) × (p.creative_id ≡ q.creative_id) × SameKeys ps qs

any-SameKeys :
    (code : String) (id : ℕ) (ps qs : List AdPlacement)
    → SameKeys ps qs
    → any (placed_as code id) qs ≡ any (placed_as code id) ps
any-SameKeys code id [] [] same = refl
any-SameKeys code id [] (q ∷ qs) same = absurd same
any-SameKeys code id (p ∷ ps) [] same = absurd same
any-SameKeys code id (p ∷ ps) (q ∷ qs) (slot, creative, same) =
    rw slot (rw creative (rw (any-SameKeys code id ps qs same) refl))

pub IsUnique-SameKeys : (ps qs : List AdPlacement) → SameKeys ps qs → IsUnique ps → IsUnique qs
IsUnique-SameKeys [] [] same h = tt
IsUnique-SameKeys [] (q ∷ qs) same h = absurd same
IsUnique-SameKeys (p ∷ ps) [] same h = absurd same
IsUnique-SameKeys (p ∷ ps) (q ∷ qs) (slot, creative, same) h = (
  rw (← slot) (rw (← creative) (any-SameKeys p.slot_code p.creative_id ps qs same ∙ h.0)),
  IsUnique-SameKeys ps qs same h.1,
)

module _ (slots : List AdSlot) (creatives : List AdCreative) where
  pub IsKnown-SameKeys :
      (ps qs : List AdPlacement)
      → SameKeys ps qs
      → All (IsKnown slots creatives) ps
      → All (IsKnown slots creatives) qs
  IsKnown-SameKeys [] [] same h = tt
  IsKnown-SameKeys [] (q ∷ qs) same h = absurd same
  IsKnown-SameKeys (p ∷ ps) [] same h = absurd same
  IsKnown-SameKeys (p ∷ ps) (q ∷ qs) (slot, creative, same) h =
      ((rw (← slot) h.0.0, rw (← creative) h.0.1), IsKnown-SameKeys ps qs same h.1)

SameKeys-refl : (ps : List AdPlacement) → SameKeys ps ps
SameKeys-refl [] = tt
SameKeys-refl (p ∷ ps) = (refl, refl, SameKeys-refl ps)

SameKeys-trans : (ps qs rs : List AdPlacement) → SameKeys ps qs → SameKeys qs rs → SameKeys ps rs
SameKeys-trans [] [] rs h k = k
SameKeys-trans [] (q ∷ qs) rs h k = absurd h
SameKeys-trans (p ∷ ps) [] rs h k = absurd h
SameKeys-trans (p ∷ ps) (q ∷ qs) [] h k = absurd k
SameKeys-trans (p ∷ ps) (q ∷ qs) (r ∷ rs) (a, b, h) (c, d, k) =
    (a ∙ c, b ∙ d, SameKeys-trans ps qs rs h k)

SameKeys-map :
    (f : AdPlacement → AdPlacement) (ps : List AdPlacement)
    → ((p : AdPlacement) → (p.slot_code ≡ (f p).slot_code) × (p.creative_id ≡ (f p).creative_id))
    → SameKeys ps (map f ps)
SameKeys-map f [] h = tt
SameKeys-map f (p ∷ ps) h = ((h p).0, (h p).1, SameKeys-map f ps h)

pub SameKeys-set_orders :
    (code : String) (i : ℕ) (ids : List ℕ) (ps : List AdPlacement)
    → SameKeys ps (set_orders code i ids ps)
unfolding set_orders
SameKeys-set_orders code i [] ps = SameKeys-refl ps
SameKeys-set_orders code i (id ∷ ids) ps =
    let set = λ (p : AdPlacement). if placed_as code id p then record p { sort_order = i } else p in
    SameKeys-trans ps (map set ps) (set_orders code (i + 1) ids (map set ps))
      (SameKeys-map set ps (λ p. (ground arith, ground arith)))
      (SameKeys-set_orders code (i + 1) ids (map set ps))

pub SameKeys-flush_orders :
    (now : ℕ) (ps qs : List AdPlacement) → SameKeys ps qs → SameKeys ps (flush_orders now ps qs)
unfolding flush_orders
SameKeys-flush_orders now [] [] same = tt
SameKeys-flush_orders now [] (q ∷ qs) same = absurd same
SameKeys-flush_orders now (p ∷ ps) [] same = absurd same
SameKeys-flush_orders now (p ∷ ps) (q ∷ qs) (slot, creative, same) =
    (ground (arith, slot), ground (arith, creative), SameKeys-flush_orders now ps qs same)
