-- ===== src/Locks/Keys.antt =====
-- The key of an advisory lock is a signed number of 64 bits, and keeps the first eight bytes apart.
use naicha_backend.Locks.{from_bytes, hash_lock_key}
use naicha_backend.Prelude.{
  All, List, String, [], ap, arith, length, neg_part, pos_part, refl, subst, suc, sym, take, zero,
  ℕ, ◌*◌, ◌+◌, ◌<◌, ◌^◌, ◌↔◌, ◌∙◌, ◌∷◌, ◌≡◌, ◌≤◌,
}

abbrev pub IsByte : ℕ → Type 0
IsByte b = b < 256

-- What numbers of so many bytes stay below, after numbers below `a`.
room : ℕ → ℕ → ℕ
room a zero = a
room a (suc n) = room (a * 256) n

from_bytes_bound :
    (bs : List ℕ) (acc a : ℕ) → acc < a → All IsByte bs → from_bytes acc bs < room a (length bs)
unfolding from_bytes room
from_bytes_bound [] acc a h bytes = h
from_bytes_bound (b ∷ bs) acc a h bytes =
    from_bytes_bound bs (acc * 256 + b) (a * 256) (omega (arith, bytes.0)) bytes.1

from_bytes-injective :
    (xs ys : List ℕ) (a b : ℕ)
    → length xs ≡ length ys
    → All IsByte xs
    → All IsByte ys
    → from_bytes a xs ≡ from_bytes b ys
    → (a ≡ b) × (xs ≡ ys)
unfolding from_bytes
from_bytes-injective [] [] a b n p q e = (e, refl)
from_bytes-injective [] (y ∷ ys) a b n p q e = absurd (omega (arith, n))
from_bytes-injective (x ∷ xs) [] a b n p q e = absurd (omega (arith, n))
from_bytes-injective (x ∷ xs) (y ∷ ys) a b n p q e =
    let (head, tail) =
      from_bytes-injective xs ys (a * 256 + x) (b * 256 + y) (omega (arith, n)) p.1 q.1 e in
    let same : x ≡ y = omega (arith, head, p.0, q.0) in
    (omega (arith, head, p.0, q.0), cc (same, tail))

length-take : {A : Type 0} (n : ℕ) (xs : List A) → n ≤ length xs → length (take n xs) ≡ n
length-take zero xs h = refl
length-take (suc n) [] h = absurd (omega arith)
length-take (suc n) (x ∷ xs) h = omega (arith, length-take n xs (omega arith))

All-take : (P : ℕ → Type 0) (n : ℕ) (xs : List ℕ) → All P xs → All P (take n xs)
All-take P zero xs h = tt
All-take P (suc n) [] h = tt
All-take P (suc n) (x ∷ xs) h = (h.0, All-take P n xs h.1)

-- A digest has at least eight bytes.
pub record IsDigest (sha1 : String → List ℕ) : Type 0 where
  pub long : (k : String) → 8 ≤ length (sha1 k)
  pub bytes : (k : String) → All IsByte (sha1 k)

module _ (sha1 : String → List ℕ) (d : IsDigest sha1) where
  abbrev first_bytes : String → ℕ
  first_bytes k = from_bytes 0 (take 8 (sha1 k))

  first_bytes_bound : (k : String) → first_bytes k < 2 ^ 64
  unfolding room
  first_bytes_bound k =
      subst (λ n. from_bytes 0 (take 8 (sha1 k)) < room 1 n) (length-take 8 (sha1 k) (d.long k))
        (from_bytes_bound (take 8 (sha1 k)) 0 1 (omega arith)
          (All-take IsByte 8 (sha1 k) (d.bytes k)))

  -- The key of an advisory lock is one of the signed numbers of 64 bits that PostgreSQL takes, and
  -- two names have the same key just if the first eight bytes of their digests are the same; a digest
  -- has at least eight bytes.
  pub hash_lock_key_lem :
      (k j : String)
      → (neg_part (hash_lock_key sha1 k) ≤ 2 ^ 63)
        × (pos_part (hash_lock_key sha1 k) < 2 ^ 63)
        × ((hash_lock_key sha1 k ≡ hash_lock_key sha1 j) ↔ (take 8 (sha1 k) ≡ take 8 (sha1 j)))
  unfolding hash_lock_key
  hash_lock_key_lem k j =
      let below = first_bytes_bound k in
      let below' = first_bytes_bound j in
      let same : hash_lock_key sha1 k ≡ hash_lock_key sha1 j → first_bytes k ≡ first_bytes j =
        λ e. ground (arith, below, below', e) in
      (
        ground (arith, below),
        ground (arith, below),
        (
          λ e.
              (from_bytes-injective (take 8 (sha1 k)) (take 8 (sha1 j)) 0 0
                (length-take 8 (sha1 k) (d.long k) ∙ sym (length-take 8 (sha1 j) (d.long j)))
                (All-take IsByte 8 (sha1 k) (d.bytes k)) (All-take IsByte 8 (sha1 j) (d.bytes j))
                (same e)).1,
          λ e. cc (ap (from_bytes 0) e),
        ),
      )
