-- ===== src/Advertisements/Configs/Plain.antt =====
-- The slots that are asked for, once normalized, hold no character that they did not hold before.
use Prim.Native.Char.{Char}
use naicha_backend.Advertisements.Configs.{insert_text, leb_codes, normalize_slots}
use naicha_backend.Advertisements.Keys.{lacks}
use naicha_backend.Advertisements.Texts.{strip, strip_left, strip_right}
use naicha_backend.Prelude.{
  All, Bool-cases, List, String, [], arith, codes, inl, inr, refl, str_eq, true, ◌∷◌, ◌≡◌,
}

strip_left-lacks : (k : Char) (t : String) → lacks k t ≡ true → lacks k (strip_left t) ≡ true
unfolding strip_left
strip_left-lacks k String.[] h = refl
strip_left-lacks k (String.◌∷◌ c t) h = ground (arith, h, strip_left-lacks k t (ground (arith, h)))

strip_right-lacks : (k : Char) (t : String) → lacks k t ≡ true → lacks k (strip_right t) ≡ true
unfolding strip_right
strip_right-lacks k String.[] h = refl
strip_right-lacks k (String.◌∷◌ c t) h =
    ground (arith, h, strip_right-lacks k t (ground (arith, h)))

strip-lacks : (k : Char) (t : String) → lacks k t ≡ true → lacks k (strip t) ≡ true
unfolding strip
strip-lacks k t h = strip_right-lacks k (strip_left t) (strip_left-lacks k t h)

insert_text-All :
    (P : String → Type 0) (t : String) (us : List String)
    → P t
    → All P us
    → All P (insert_text t us)
unfolding insert_text
insert_text-All P t [] h all = (h, tt)
insert_text-All P t (u ∷ us) h all = elim (Bool-cases (str_eq t u)) [
  | inl same ↦ rw same all
  | inr other ↦ elim (Bool-cases (leb_codes (codes t) (codes u))) [
    | inl smaller ↦ rw (other, smaller) (h, all)
    | inr later ↦ rw (other, later) (all.0, insert_text-All P t us h all.1)
  ]
]

pub normalize_slots-lacks :
    (k : Char) (slots : List String)
    → All (λ slot. lacks k slot ≡ true) slots
    → All (λ slot. lacks k slot ≡ true) (normalize_slots slots)
unfolding normalize_slots
normalize_slots-lacks k [] all = tt
normalize_slots-lacks k (slot ∷ slots) all =
    let rest = normalize_slots-lacks k slots all.1 in
    elim (Bool-cases (str_eq (strip slot) "")) [
      | inl blank ↦ rw blank rest
      | inr word ↦ rw word (
          insert_text-All (λ t. lacks k t ≡ true) (strip slot) (normalize_slots slots)
            (strip-lacks k slot all.0) rest)
    ]
