-- ===== src/Prelude/Sublists.antt =====
-- Laws of the library's relation between a list and what is left when elements are dropped.
use mathlib.Core.List.{List, [], ◌∷◌, ◌++◌, Sublistᴰ}
use mathlib.Core.Path.{refl, ◌∙◌}
use Prim.Native.Nat.{ℕ, zero, suc}
use naicha_backend.Prelude.Lists.{drop}

module _ {ℓ} {A : Type ℓ} where
  pub sublist-nil : (xs : List A) → Sublistᴰ [] xs
  sublist-nil [] = Sublistᴰ.slnil
  sublist-nil (x ∷ xs) = Sublistᴰ.cons (sublist-nil xs)

  pub sublist-refl : (xs : List A) → Sublistᴰ xs xs
  sublist-refl [] = Sublistᴰ.slnil
  sublist-refl (x ∷ xs) = Sublistᴰ.cons-cons refl (sublist-refl xs)

  pub sublist-trans :
      {ys zs : List A} → Sublistᴰ ys zs → {xs : List A} → Sublistᴰ xs ys → Sublistᴰ xs zs
  sublist-trans Sublistᴰ.slnil p = p
  sublist-trans (Sublistᴰ.cons q) p = Sublistᴰ.cons (sublist-trans q p)
  sublist-trans (Sublistᴰ.cons-cons e q) (Sublistᴰ.cons p) = Sublistᴰ.cons (sublist-trans q p)
  sublist-trans (Sublistᴰ.cons-cons e q) (Sublistᴰ.cons-cons d p) =
      Sublistᴰ.cons-cons (d ∙ e) (sublist-trans q p)

  pub sublist-append :
      {xs ys xs' ys' : List A}
      → Sublistᴰ xs xs'
      → Sublistᴰ ys ys'
      → Sublistᴰ (xs ++ ys) (xs' ++ ys')
  sublist-append Sublistᴰ.slnil q = q
  sublist-append (Sublistᴰ.cons p) q = Sublistᴰ.cons (sublist-append p q)
  sublist-append (Sublistᴰ.cons-cons e p) q = Sublistᴰ.cons-cons e (sublist-append p q)

  pub sublist-drop : (n : ℕ) (xs : List A) → Sublistᴰ (drop n xs) xs
  sublist-drop zero xs = sublist-refl xs
  sublist-drop (suc n) [] = Sublistᴰ.slnil
  sublist-drop (suc n) (x ∷ xs) = Sublistᴰ.cons (sublist-drop n xs)

  pub sublist-extend : {xs ys : List A} (zs : List A) → Sublistᴰ xs ys → Sublistᴰ xs (ys ++ zs)
  sublist-extend zs Sublistᴰ.slnil = sublist-nil zs
  sublist-extend zs (Sublistᴰ.cons p) = Sublistᴰ.cons (sublist-extend zs p)
  sublist-extend zs (Sublistᴰ.cons-cons e p) = Sublistᴰ.cons-cons e (sublist-extend zs p)
