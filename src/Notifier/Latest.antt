-- ===== src/Notifier/Latest.antt =====
-- What a broadcast does to the queues: a full queue loses its oldest message.
use naicha_backend.Notifier.{ClientQueue, message, offer}
use naicha_backend.Notifier.Consistent.{IsLive}
use naicha_backend.Prelude.{
  Bool-cases, List, [], ap, arith, drop, false, inl, inr, length, length-append, ltb, refl, suc,
  sym, zero, ℕ, ◌++◌, ◌+◌, ◌-◌, ◌<◌, ◌∙◌, ◌∷◌, ◌≡◌, ◌≤◌,
}

-- The last elements of a list, at most so many.
abbrev pub latest {ℓ} : {A : Type ℓ} → ℕ → List A → List A
latest n xs = drop (length xs - n) xs

module _ {ℓ} {A : Type ℓ} where
  length-drop : (n : ℕ) (xs : List A) → length (drop n xs) ≡ length xs - n
  length-drop zero xs = omega arith
  length-drop (suc n) [] = omega arith
  length-drop (suc n) (x ∷ xs) = omega (arith, length-drop n xs)

  drop-append : (n : ℕ) (xs ys : List A) → n ≤ length xs → drop n (xs ++ ys) ≡ drop n xs ++ ys
  drop-append zero xs ys h = refl
  drop-append (suc n) [] ys h = absurd (omega arith)
  drop-append (suc n) (x ∷ xs) ys h = drop-append n xs ys (omega arith)

  drop_cong : {m n : ℕ} (xs : List A) → m ≡ n → drop m xs ≡ drop n xs
  drop_cong xs e = ap (λ k. drop k xs) e

  drop-nil : (n : ℕ) → ◌≡◌ {A = List A} (drop n []) []
  drop-nil zero = refl
  drop-nil (suc n) = refl

  drop-drop : (m n : ℕ) (xs : List A) → drop m (drop n xs) ≡ drop (n + m) xs
  drop-drop m zero xs = drop_cong xs (omega arith)
  drop-drop m (suc n) [] = drop-nil m ∙ sym (drop-nil (suc n + m))
  drop-drop m (suc n) (x ∷ xs) =
      drop-drop m n xs ∙ drop_cong {m = suc (n + m)} {n = suc n + m} (x ∷ xs) (omega arith)

  pub latest-short : (n : ℕ) (xs : List A) → length xs ≤ n → latest n xs ≡ xs
  latest-short n xs h = drop_cong {n = 0} xs (omega arith)

  pub length-latest : (n : ℕ) (xs : List A) → length (latest n xs) ≤ n
  length-latest n xs = omega (arith, length-drop (length xs - n) xs)

  -- What was dropped before does not matter.
  pub latest-append : (n : ℕ) (xs ys : List A) → latest n (latest n xs ++ ys) ≡ latest n (xs ++ ys)
  latest-append n xs ys =
      let joined : drop (length xs - n) xs ++ ys ≡ drop (length xs - n) (xs ++ ys) =
        sym (drop-append (length xs - n) xs ys (omega arith)) in
      ap (latest n) joined
      ∙ drop-drop (length (drop (length xs - n) (xs ++ ys)) - n) (length xs - n) (xs ++ ys)
      ∙ drop_cong (xs ++ ys)
          (omega (arith, length-drop (length xs - n) (xs ++ ys), length-append xs ys))

  -- One more element: the oldest goes where there is no room.
  latest-full :
      (n : ℕ) (xs : List A) (a : A)
      → 0 < n
      → length xs ≡ n
      → latest n (xs ++ a ∷ []) ≡ drop 1 xs ++ a ∷ []
  latest-full n xs a some_room full =
      drop_cong {n = 1} (xs ++ a ∷ []) (omega (arith, length-append xs (a ∷ [])))
      ∙ drop-append 1 xs (a ∷ []) (omega arith)

module _ {M : Type 0} where
  -- A queue within its bound takes every message, and holds the latest ones.
  pub offer-latest :
      (m : M) (q : ClientQueue M)
      → IsLive q
      → offer m q ≡ (record q { items = latest q.maxsize (q.items ++ message m ∷ []) }, false)
  unfolding offer
  offer-latest m q b = elim (Bool-cases (ltb (length q.items) q.maxsize)) [
    | inl room ↦ ground (
      arith,
      room,
      latest-short q.maxsize (q.items ++ message m ∷ []),
      length-append q.items (message m ∷ []),
    )
    | inr full ↦
        ground (arith, full, b, latest-full q.maxsize q.items (message m), length-drop 1 q.items)
  ]
