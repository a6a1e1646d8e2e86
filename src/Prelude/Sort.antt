-- ===== src/Prelude/Sort.antt =====
-- A stable insertion sort by a number: `order_by` and `list.sort`.
use Prim.Native.Nat.{ℕ, suc}
use mathlib.Core.Path.{◌≡◌, refl, ap, ◌∙◌}
use native.Mathlib.Omega.{arith}
use mathlib.Core.Logic.{inl, inr}
use mathlib.Core.List.{List, [], ◌∷◌}
use naicha_backend.Prelude.Tests.{leb, Bool-cases, if◌then◌else◌}
use naicha_backend.Prelude.Lists.{All, length}

module _ {ℓ} {A : Type ℓ} (by : A → ℕ) where
  unfoldable pub insert_by : A → List A → List A
  insert_by a [] = a ∷ []
  insert_by a (x ∷ xs) = if leb (by a) (by x) then a ∷ x ∷ xs else x ∷ insert_by a xs

  unfoldable pub sort_by : List A → List A
  unfolding insert_by
  sort_by [] = []
  sort_by (x ∷ xs) = insert_by x (sort_by xs)

module _ {ℓ κ} {A : Type ℓ} (P : A → Type κ) (by : A → ℕ) where
  All-insert_by : (a : A) (xs : List A) → P a → All P xs → All P (insert_by by a xs)
  unfolding insert_by
  All-insert_by a [] p h = (p, tt)
  All-insert_by a (x ∷ xs) p h = elim (Bool-cases (leb (by a) (by x))) [
    | inl before ↦ rw before (p, h)
    | inr after ↦ rw after (h.0, All-insert_by a xs p h.1)
  ]

  -- Sorting keeps what holds of every member.
  pub All-sort_by : (xs : List A) → All P xs → All P (sort_by by xs)
  unfolding sort_by
  All-sort_by [] h = tt
  All-sort_by (x ∷ xs) h = All-insert_by x (sort_by by xs) h.0 (All-sort_by xs h.1)

module _ {ℓ} {A : Type ℓ} (by : A → ℕ) where
  length-insert_by : (a : A) (xs : List A) → length (insert_by by a xs) ≡ suc (length xs)
  unfolding insert_by
  length-insert_by a [] = refl
  length-insert_by a (x ∷ xs) = ground (arith, length-insert_by a xs)

  pub length-sort_by : (xs : List A) → length (sort_by by xs) ≡ length xs
  unfolding sort_by
  length-sort_by [] = refl
  length-sort_by (x ∷ xs) = length-insert_by x (sort_by by xs) ∙ ap suc (length-sort_by xs)
