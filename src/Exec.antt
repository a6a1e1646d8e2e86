-- ===== src/Exec.antt =====
-- Python code that reads and writes the session's rows and may raise. What was written before a
-- raise stays written until a rollback, so the rows come back beside the exception too.
use naicha_backend.Prelude.{Bool, Option, ap, false, inl, inr, none, refl, some, true, ◌≡◌, ◌⊎◌}

-- A pure function that may raise `E`.
pub data Result {ℓ} (E A : Type ℓ) : Type ℓ where
  ok : A → Result E A
  err : E → Result E A

abbrev pub is_ok {ℓ} : {E A : Type ℓ} → Result E A → Bool
is_ok (ok a) = true
is_ok (err e) = false

abbrev pub Exec {ℓ} : Type ℓ → Type ℓ → Type ℓ → Type ℓ
Exec S E A = S → Result E A × S

module _ {ℓ} {S E A : Type ℓ} where
  abbrev pub pure : A → Exec S E A
  pure a s = (ok a, s)

  abbrev pub raise : E → Exec S E A
  raise e s = (err e, s)

  abbrev pub lift : Result E A → Exec S E A
  lift r s = (r, s)

  abbrev pub gets : (S → A) → Exec S E A
  gets f s = (ok (f s), s)

  abbrev pub or_raise : Option A → E → Exec S E A
  or_raise none e s = (err e, s)
  or_raise (some a) e s = (ok a, s)

module _ {ℓ} {S E : Type ℓ} where
  abbrev pub modify : (S → S) → Exec S E (Unit {ℓ})
  modify f s = (ok tt, f s)

  abbrev pub raise_if : Bool → E → Exec S E (Unit {ℓ})
  raise_if true e s = (err e, s)
  raise_if false e s = (ok tt, s)

module _ {ℓ} {S E A B : Type ℓ} where
  abbrev pub continue : Result E A → (A → Exec S E B) → Exec S E B
  continue (ok a) f s = f a s
  continue (err e) f s = (err e, s)

  infixl 10 ◌>>=◌ ◌>>◌
  abbrev pub ◌>>=◌ : Exec S E A → (A → Exec S E B) → Exec S E B
  ◌>>=◌ m f s = let (r, s') = m s in continue r f s'

  abbrev pub ◌>>◌ : Exec S E A → Exec S E B → Exec S E B
  m >> n = m >>= λ _. n

-- What holds of a result when it is no exception.
abbrev pub OnOk {ℓ κ} : {E A : Type ℓ} → Result E A → (A → Type κ) → Type κ
OnOk (ok a) P = P a
OnOk (err e) P = Unit

module _ {ℓ} {E A B : Type ℓ} where
  -- The bind of functions that only raise.
  abbrev pub bind : Result E A → (A → Result E B) → Result E B
  bind (ok a) f = f a
  bind (err e) f = err e

  pub bind-eq-ok :
      (m : Result E A) (f : A → Result E B) {b : B}
      → bind m f ≡ ok b
      → (a : A) × (m ≡ ok a) × (f a ≡ ok b)
  bind-eq-ok (ok a) f h = (a, refl, h)
  bind-eq-ok (err e) f h = cc

module _ {ℓ} {S E A B : Type ℓ} where
  continue-eq-ok :
      (r : Result E A) (mid : S) (f : A → Exec S E B) (b : B) (s' : S)
      → continue r f mid ≡ (ok b, s')
      → (a : A) × (r ≡ ok a) × (f a mid ≡ (ok b, s'))
  continue-eq-ok (ok a) mid f b s' e = (a, refl, e)
  continue-eq-ok (err x) mid f b s' e = cc (ap (λ (p : Result E B × S). p.0) e)

  -- A block that returns has passed its first step.
  pub >>=-eq-ok :
      (m : Exec S E A) (f : A → Exec S E B) (s s' : S) (b : B)
      → (m >>= f) s ≡ (ok b, s')
      → (a : A) × (mid : S) × (m s ≡ (ok a, mid)) × (f a mid ≡ (ok b, s'))
  >>=-eq-ok m f s s' b e =
      let (a, returned, rest) = continue-eq-ok (m s).0 (m s).1 f b s' e in
      (a, (m s).1, (λ i. (returned i, (m s).1)), rest)

pub Result-cases {ℓ} :
    {E A : Type ℓ} (r : Result E A) → ((e : E) × (r ≡ err e)) ⊎ ((a : A) × (r ≡ ok a))
Result-cases (ok a) = inr (a, refl)
Result-cases (err e) = inl (e, refl)
