-- ===== src/Advertisements/Configs/Calm.antt =====
-- Between two changes of the creatives the same creatives are active.
use naicha_backend.Advertisements.{find_creative}
use naicha_backend.Advertisements.Configs.{
  active_in, after, before, in_order, is_active, is_before, mem_text, next_change_of,
  placed_creatives, sooner, to_come,
}
use naicha_backend.Advertisements.Tables.{AdCreative, AdPlacement, ServedCreative}
use naicha_backend.Prelude.{
  All, All-map, Bool-cases, List, Option, Option-cases, String, [], ap, arith, eq_iff, inl, inr,
  map, none, refl, some, str_eq, subst, sym, true, ℕ, ◌∷◌, ◌≡◌, ◌≢◌, ◌≤◌,
}
use naicha_backend.Table.{All-find}

-- No start or end of a creative lies between two times.
abbrev IsCalm : ℕ → ℕ → AdCreative → Type 0
IsCalm then_ now c =
    (is_before now (to_come then_ c.start_time) ≡ true)
    × (is_before now (to_come then_ c.end_time) ≡ true)

is_before-sooner :
    (now : ℕ) (a b : Option ℕ)
    → is_before now (sooner a b) ≡ true
    → (is_before now a ≡ true) × (is_before now b ≡ true)
is_before-sooner now none b h = (refl, h)
is_before-sooner now (some t) none h = (h, refl)
is_before-sooner now (some t) (some u) h = (ground (arith, h), ground (arith, h))

pub all-IsCalm :
    (then_ now : ℕ) (cs : List AdCreative)
    → is_before now (next_change_of then_ cs) ≡ true
    → All (IsCalm then_ now) cs
unfolding next_change_of
all-IsCalm then_ now [] h = tt
all-IsCalm then_ now (c ∷ cs) h =
    let change = sooner (to_come then_ c.start_time) (to_come then_ c.end_time) in
    let (first, rest) = is_before-sooner now change (next_change_of then_ cs) h in
    (
      is_before-sooner now (to_come then_ c.start_time) (to_come then_ c.end_time) first,
      all-IsCalm then_ now cs rest,
    )

after-calm :
    (then_ now : ℕ) (o : Option ℕ)
    → then_ ≤ now
    → is_before now (to_come then_ o) ≡ true
    → after then_ o ≡ after now o
after-calm then_ now none h calm = refl
after-calm then_ now (some t) h calm = ground (arith, h, calm)

before-calm :
    (then_ now : ℕ) (o : Option ℕ)
    → then_ ≤ now
    → o ≢ some then_
    → is_before now (to_come then_ o) ≡ true
    → before then_ o ≡ before now o
before-calm then_ now none h apart calm = refl
before-calm then_ now (some t) h apart calm =
    let other : t ≢ then_ = λ e. apart (ap some e) in ground (arith, h, calm, other)

is_active-calm :
    (then_ now : ℕ) (platform : String) (c : AdCreative)
    → then_ ≤ now
    → c.end_time ≢ some then_
    → IsCalm then_ now c
    → is_active then_ platform c ≡ is_active now platform c
unfolding is_active
is_active-calm then_ now platform c h apart calm =
    rw (after-calm then_ now c.start_time h calm.0)
      (rw (before-calm then_ now c.end_time h apart calm.1) refl)

-- No creative ends at that very time.
abbrev pub EndsApart : ℕ → AdCreative → Type 0
EndsApart t c = c.end_time ≢ some t

-- What holds of the creatives that are placed in the slots.
module _ (P : AdCreative → Type 0) (slots : List String) (cs : List AdCreative) (p : AdPlacement)
    (ps : List AdPlacement) (all : All P (placed_creatives slots cs (p ∷ ps))) where
  placed-tail : All P (placed_creatives slots cs ps)
  unfolding placed_creatives
  placed-tail = elim (Bool-cases (mem_text p.slot_code slots)) [
    | inr elsewhere ↦ rw elsewhere at all
    | inl asked ↦ elim (Option-cases (find_creative p.creative_id cs)) [
      | inl absent ↦ rw (absent, placed_creatives) at (rw asked at all)
      | inr (c, found) ↦
          (let both : All P (c ∷ placed_creatives slots cs ps) =
              rw (found, placed_creatives) at (rw asked at all) in
            both.1)
    ]
  ]

  placed-head :
      (c : AdCreative)
      → mem_text p.slot_code slots ≡ true
      → find_creative p.creative_id cs ≡ some c
      → P c
  unfolding placed_creatives
  placed-head c asked found =
      let both : All P (c ∷ placed_creatives slots cs ps) =
        rw (found, placed_creatives) at (rw asked at all) in
      both.0

module _ (then_ now : ℕ) (platform : String) (slots : List String) (cs : List AdCreative)
    (h : then_ ≤ now) (apart : All (EndsApart then_) cs) where
  active_in-calm :
      (code : String) (ps : List AdPlacement)
      → mem_text code slots ≡ true
      → All (IsCalm then_ now) (placed_creatives slots cs ps)
      → active_in then_ platform code cs ps ≡ active_in now platform code cs ps
  unfolding active_in
  active_in-calm code [] there calm = refl
  active_in-calm code (p ∷ ps) there calm =
      let rest = active_in-calm code ps there (placed-tail (IsCalm then_ now) slots cs p ps calm) in
      elim (Bool-cases (str_eq p.slot_code code)) [
        | inr other ↦ rw other rest
        | inl same ↦ elim (Option-cases (find_creative p.creative_id cs)) [
          | inl absent ↦ ground (arith, same, absent, rest)
          | inr (c, found) ↦
              (let asked : mem_text p.slot_code slots ≡ true =
                  subst (λ t. mem_text t slots ≡ true) (sym ((eq_iff p.slot_code code).0 same))
                    there in
                let calm_one = placed-head (IsCalm then_ now) slots cs p ps calm c asked found in
                let apart_one =
                  All-find (λ (c : AdCreative). c.creative_id) (EndsApart then_) p.creative_id cs
                    apart found in
                ground (
                  arith,
                  same,
                  found,
                  rest,
                  is_active-calm then_ now platform c h apart_one calm_one,
                ))
        ]
      ]

  pub load_active-calm :
      (ps : List AdPlacement) (wanted : List String)
      → All (λ code. mem_text code slots ≡ true) wanted
      → All (IsCalm then_ now) (placed_creatives slots cs ps)
      → map {B = String × List ServedCreative}
          (λ code. (code, in_order (active_in then_ platform code cs ps)))
          wanted
        ≡ map (λ code. (code, in_order (active_in now platform code cs ps))) wanted
  load_active-calm ps [] there calm = refl
  load_active-calm ps (code ∷ wanted) there calm =
      let one = active_in-calm code ps there.0 calm in
      cc (ap in_order one, load_active-calm ps wanted there.1 calm)

pub mem_text_self : (ts : List String) → All (λ t. mem_text t ts ≡ true) ts
mem_text_self [] = tt
mem_text_self (u ∷ us) =
    (ground (arith, (eq_iff u u).1 refl), All-map (λ t h. ground (arith, h)) us (mem_text_self us))
