-- ===== src/Table.antt =====
-- A database table is the list of its rows, in the order of insertion. A primary key is a number.
use naicha_backend.Prelude.{
  All, All-map, Bool-cases, List, Option, [], arith, if◌then◌else◌, inl, inr, is_some, length, none,
  refl, some, subst, sum_by, true, ℕ, ◌++◌, ◌+◌, ◌==◌, ◌∷◌, ◌≡◌,
}

-- `scalar_one_or_none` of a query by a unique key.
module _ {ℓ} {R : Type ℓ} (key : R → ℕ) where
  unfoldable pub find : ℕ → List R → Option R
  find k [] = none
  find k (r ∷ t) = if key r == k then some r else find k t

  -- An update of the row with that key; no such row, no update.
  unfoldable pub update : ℕ → (R → R) → List R → List R
  update k f [] = []
  update k f (r ∷ t) = if key r == k then f r ∷ t else r ∷ update k f t

abbrev pub map_some {ℓ} : {A : Type ℓ} → (A → A) → Option A → Option A
map_some f none = none
map_some f (some a) = some (f a)

module _ {ℓ} {R : Type ℓ} (key : R → ℕ) where
  pub find-update :
      (k j : ℕ) (f : R → R) (t : List R)
      → ((r : R) → key (f r) ≡ key r)
      → find key j (update key k f t) ≡ (if k == j then map_some f (find key j t) else find key j t)
  unfolding find update
  find-update k j f [] h = ground arith
  find-update k j f (r ∷ t) h = ground (arith, h r, find-update k j f t h)

  pub find-update-none :
      (k : ℕ) (f : R → R) (t : List R) → find key k t ≡ none → update key k f t ≡ t
  unfolding find update
  find-update-none k f [] e = refl
  find-update-none k f (r ∷ t) e = ground (arith, find-update-none k f t)

  -- The row that is found has the key that was asked for.
  pub key-find : (k : ℕ) (t : List R) {r : R} → find key k t ≡ some r → key r ≡ k
  unfolding find
  key-find k [] e = cc
  key-find k (x ∷ t) {r} e = ground (arith, key-find k t {r = r})

  pub sum_by-update :
      (g : R → ℕ) (k : ℕ) (f : R → R) (t : List R) {r : R}
      → find key k t ≡ some r
      → sum_by g (update key k f t) + g r ≡ sum_by g t + g (f r)
  unfolding find update
  sum_by-update g k f [] e = cc
  sum_by-update g k f (x ∷ t) {r} e = ground (arith, sum_by-update g k f t {r = r})

  -- An update keeps what holds of every row, where it holds of the new row.
  pub All-update {κ} :
      (P : R → Type κ) (k : ℕ) (f : R → R) (t : List R)
      → ((r : R) → find key k t ≡ some r → P r → P (f r))
      → All P t
      → All P (update key k f t)
  unfolding find update
  All-update P k f [] step h = tt
  All-update P k f (x ∷ t) step h = elim (Bool-cases (key x == k)) [
    | inl here ↦ rw here (step x (ground (arith, here)) h.0, h.1)
    | inr there ↦
        rw there (h.0, All-update P k f t (λ r found. step r (ground (arith, there, found))) h.1)
  ]

  -- Every row has a key that is found.
  pub All-found : (t : List R) → All (λ r. is_some (find key (key r) t) ≡ true) t
  unfolding find
  All-found [] = tt
  All-found (x ∷ t) =
      let shift : (r : R)
          → is_some (find key (key r) t) ≡ true
          → is_some (find key (key r) (x ∷ t)) ≡ true =
        λ r h. ground (arith, h) in
      (ground arith, All-map shift t (All-found t))

  pub length-update : (k : ℕ) (f : R → R) (t : List R) → length (update key k f t) ≡ length t
  unfolding update
  length-update k f [] = refl
  length-update k f (r ∷ t) = ground (arith, length-update k f t)

  -- A row that is added at the end is found where its key is new.
  pub find-append :
      (k : ℕ) (t : List R) (r : R)
      → find key k (t ++ r ∷ [])
        ≡ (elim (find key k t) [ some x ↦ some x | none ↦ if key r == k then some r else none ])
  unfolding find
  find-append k [] r = ground arith
  find-append k (x ∷ t) r = ground (arith, find-append k t r)

pub is_some-inv : {A : Type 0} (o : Option A) → is_some o ≡ true → (a : A) × (o ≡ some a)
is_some-inv none h = absurd (ground arith)
is_some-inv (some a) h = (a, refl)

-- A dictionary as a table: assignment to a key, and `pop` with a default.
module _ {ℓ} {R : Type ℓ} (key : R → ℕ) where
  unfoldable pub put : R → List R → List R
  put r [] = r ∷ []
  put r (x ∷ t) = if key x == key r then r ∷ t else x ∷ put r t

  unfoldable pub remove : ℕ → List R → List R
  remove k [] = []
  remove k (x ∷ t) = let rest = remove k t in if key x == k then rest else x ∷ rest

module _ {ℓ} {R : Type ℓ} (key : R → ℕ) where
  pub find-put :
      (k : ℕ) (r : R) (t : List R)
      → find key k (put key r t) ≡ (if key r == k then some r else find key k t)
  unfolding find put
  find-put k r [] = refl
  find-put k r (x ∷ t) = ground (arith, find-put k r t)

  pub find-remove :
      (k j : ℕ) (t : List R) → find key j (remove key k t) ≡ (if k == j then none else find key j t)
  unfolding find remove
  find-remove k j [] = ground arith
  find-remove k j (x ∷ t) = ground (arith, find-remove k j t)

  pub All-put {κ} : (P : R → Type κ) (r : R) (t : List R) → P r → All P t → All P (put key r t)
  unfolding put
  All-put P r [] p h = (p, tt)
  All-put P r (x ∷ t) p h = elim (Bool-cases (key x == key r)) [
    | inl here ↦ rw here (p, h.1)
    | inr there ↦ rw there (h.0, All-put P r t p h.1)
  ]

  pub All-remove {κ} : (P : R → Type κ) (k : ℕ) (t : List R) → All P t → All P (remove key k t)
  unfolding remove
  All-remove P k [] h = tt
  All-remove P k (x ∷ t) h = elim (Bool-cases (key x == k)) [
    | inl here ↦ rw here (All-remove P k t h.1)
    | inr there ↦ rw there (h.0, All-remove P k t h.1)
  ]

  -- What holds of every row holds of the row that is found.
  pub All-find {κ} :
      (P : R → Type κ) (k : ℕ) (t : List R) {r : R} → All P t → find key k t ≡ some r → P r
  unfolding find
  All-find P k [] h e = absurd (ground (arith, e))
  All-find P k (x ∷ t) {r} h e = elim (Bool-cases (key x == k)) [
    | inl here ↦ subst P (ground (arith, here, e)) h.0
    | inr there ↦ All-find P k t h.1 (ground (arith, there, e))
  ]
