-- ===== src/Orders/Idempotency/Replay.antt =====
-- The record of a key through `_ensure_idempotency`: a new key is claimed, a finished one replayed.
use naicha_backend.Database.{Db, IdempotencyKey, OrderResponse}
use naicha_backend.Exec.{ok}
use naicha_backend.Orders.Idempotency.{
  Waiting, claim, create_scope, ensure_idempotency, find_key, idempotency_ttl, insert_key, or_hash,
  other_hash, update_key,
}
use naicha_backend.Prelude.{
  List, Option, Option-cases, String, [], ap, arith, eq_iff, false, if◌then◌else◌, inl, inr, none,
  refl, some, str_eq, true, ℕ, ◌++◌, ◌+◌, ◌∙◌, ◌∷◌, ◌≡◌,
}
use naicha_backend.Table.{map_some}

pub str_eq_refl : (s : String) → str_eq s s ≡ true
str_eq_refl s = (eq_iff s s).1 refl

pub find_key-append :
    (k : String) (rs : List IdempotencyKey) (r : IdempotencyKey)
    → find_key k rs ≡ none
    → find_key k (rs ++ r ∷ []) ≡ (if str_eq r.key k then some r else none)
unfolding find_key
find_key-append k [] r e = refl
find_key-append k (x ∷ rs) r e = ground (arith, find_key-append k rs r)

pub find_key-update_key :
    (k : String) (f : IdempotencyKey → IdempotencyKey) (rs : List IdempotencyKey)
    → ((r : IdempotencyKey) → (f r).key ≡ r.key)
    → find_key k (update_key k f rs) ≡ map_some f (find_key k rs)
unfolding find_key update_key
find_key-update_key k f [] h = refl
find_key-update_key k f (r ∷ rs) h = ground (arith, h r, find_key-update_key k f rs h)

module _ (w : Waiting) (now : ℕ) (k hash : String) (db mid : Db)
    (cached : Option OrderResponse) where
  -- A key that is not in the table has no answer to replay.
  pub unknown_key :
      find_key k db.idempotency_keys ≡ none
      → ensure_idempotency w now k hash db ≡ (ok cached, mid)
      → cached ≡ none
  unfolding ensure_idempotency
  unknown_key unknown e = ground (
    arith,
    str_eq_refl k,
    find_key-append k db.idempotency_keys (record {
      key = k;
      scope = create_scope;
      request_hash = some hash;
      response_snapshot = none;
      expire_at = some (now + idempotency_ttl);
    }),
  )

-- A record that answers a request with that hash by a replay.
pub record IsAnswer (k hash : String) (result : OrderResponse) (rs : List IdempotencyKey)
    : Type 0 where
  pub row : IdempotencyKey
  pub found : find_key k rs ≡ some row
  pub scope : row.scope ≡ create_scope
  pub same_hash : other_hash row.request_hash hash ≡ false
  pub snapshot : row.response_snapshot ≡ some result

-- A record that a request with that hash has claimed.
pub record IsClaim (k hash : String) (rs : List IdempotencyKey) : Type 0 where
  pub row : IdempotencyKey
  pub found : find_key k rs ≡ some row
  pub scope : row.scope ≡ create_scope
  pub same_hash : other_hash row.request_hash hash ≡ false

other_hash-or_hash :
    (o : Option String) (hash : String)
    → other_hash o hash ≡ false
    → other_hash (or_hash o hash) hash ≡ false
other_hash-or_hash none hash h = ground (arith, str_eq_refl hash)
other_hash-or_hash (some x) hash h = h

claim-key :
    (hash : String) (expires : ℕ) (s : Option OrderResponse) (r : IdempotencyKey)
    → (claim hash expires s r).key ≡ r.key
claim-key hash expires s r = refl

-- A call of `_ensure_idempotency` that returns has claimed the key.
pub ensure_idempotency-IsClaim :
    (w : Waiting) (now : ℕ) (k hash : String) (db mid : Db) (cached : Option OrderResponse)
    → ensure_idempotency w now k hash db ≡ (ok cached, mid)
    → IsClaim k hash mid.idempotency_keys
unfolding ensure_idempotency
ensure_idempotency-IsClaim w now k hash db mid cached e =
    let expires = now + idempotency_ttl in
    let rs = insert_key k hash expires db.idempotency_keys in
    elim (Option-cases (find_key k rs)) [
      | inl absent ↦ absurd (ground arith)
      | inr (r, found) ↦
          (let updated =
              find_key-update_key k (claim hash expires cached) rs
                (claim-key hash expires cached) in
            let same = other_hash-or_hash r.request_hash hash in
            record {
              row = claim hash expires cached r;
              found = ground (arith, updated);
              scope = refl;
              same_hash = ground (arith, same);
            })
    ]

-- The snapshot that is written to a claimed record makes it an answer.
pub IsAnswer-keep :
    (k hash : String) (result : OrderResponse) (rs : List IdempotencyKey)
    → IsClaim k hash rs
    → IsAnswer k hash result (update_key k (λ r. record r { response_snapshot = some result }) rs)
IsAnswer-keep k hash result rs h =
    let keep = λ (r : IdempotencyKey). record r { response_snapshot = some result } in
    record {
      row = keep h.row;
      found = find_key-update_key k keep rs (λ r. refl) ∙ ap (map_some keep) h.found;
      scope = h.scope;
      same_hash = h.same_hash;
      snapshot = refl;
    }

-- A key with an answer is replayed to a request with the same hash.
pub IsAnswer-replay :
    (w : Waiting) (now : ℕ) (k hash : String) (db : Db) (result : OrderResponse)
    → IsAnswer k hash result db.idempotency_keys
    → (ensure_idempotency w now k hash db).0 ≡ ok (some result)
unfolding ensure_idempotency
IsAnswer-replay w now k hash db result h =
    let scoped : str_eq h.row.scope create_scope ≡ true =
      (eq_iff h.row.scope create_scope).1 h.scope in
    ground (arith, scoped, h.found, h.same_hash, h.snapshot)
