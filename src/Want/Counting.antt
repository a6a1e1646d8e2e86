-- ===== src/Want/Counting.antt =====
-- How many events pass a test, in a table and in what the queries make of it.
use naicha_backend.Prelude.{
  All, Bool, Bool-cases, List, [], arith, if◌then◌else◌, inl, inr, insert_by, leb, length, refl,
  select, sort_by, true, ℕ, ◌+◌, ◌∷◌, ◌≡◌,
}

abbrev pub count_of : {A : Type 0} → (A → Bool) → List A → ℕ
count_of p xs = length (select p xs)

module _ {A : Type 0} where
  pub count_of-cons :
      (p : A → Bool) (x : A) (xs : List A)
      → count_of p (x ∷ xs) ≡ (if p x then 1 else 0) + count_of p xs
  count_of-cons p x xs = elim (Bool-cases (p x)) [
    | inl taken ↦ rw taken (omega arith)
    | inr left ↦ rw left (omega arith)
  ]

  pub count_of-All :
      (p : A → Bool) (xs : List A) → All (λ x. p x ≡ true) xs → count_of p xs ≡ length xs
  count_of-All p [] h = refl
  count_of-All p (x ∷ xs) h = ground (arith, count_of-cons p x xs, h.0, count_of-All p xs h.1)

  count_of-insert_by :
      (p : A → Bool) (by : A → ℕ) (x : A) (xs : List A)
      → count_of p (insert_by by x xs) ≡ count_of p (x ∷ xs)
  unfolding insert_by
  count_of-insert_by p by x [] = refl
  count_of-insert_by p by x (y ∷ ys) = elim (Bool-cases (leb (by x) (by y))) [
    | inl before ↦ rw before refl
    | inr after ↦ rw after (
        omega (
          arith,
          count_of-cons p y (insert_by by x ys),
          count_of-insert_by p by x ys,
          count_of-cons p x ys,
          count_of-cons p x (y ∷ ys),
          count_of-cons p y ys,
        ))
  ]

  pub count_of-sort_by :
      (p : A → Bool) (by : A → ℕ) (xs : List A) → count_of p (sort_by by xs) ≡ count_of p xs
  unfolding sort_by
  count_of-sort_by p by [] = refl
  count_of-sort_by p by (x ∷ xs) = omega (
    arith,
    count_of-insert_by p by x (sort_by by xs),
    count_of-cons p x (sort_by by xs),
    count_of-cons p x xs,
    count_of-sort_by p by xs,
  )
