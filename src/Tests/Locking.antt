-- ===== src/Tests/Locking.antt =====
-- A lock that Redis fails to give and the database grants; a digest for the key.
use naicha_backend.Locks.{Answers, distributed_lock, hash_lock_key, lock_failed, lock_granted}
use naicha_backend.Locks.Keys.{IsDigest, hash_lock_key_lem}
use naicha_backend.Locks.Sections.{
  asks_database, closed, distributed_lock_lem, grants, is_answer, opened, releases,
}
use naicha_backend.Prelude.{
  List, String, [], arith, codes, false, if◌then◌else◌, length, neg_part, pos_part, sum_by, take,
  true, ℕ, ◌%◌, ◌&&◌, ◌<◌, ◌^◌, ◌↔◌, ◌∷◌, ◌≡◌, ◌≤◌,
}

abbrev redis_down : Answers
redis_down = record {
  has_client = true;
  redis = lock_failed;
  on_postgresql = true;
  connects = true;
  database = lock_granted;
}

distributed_lock_lem_example :
    let (yielded, calls) = distributed_lock false redis_down in
    ((if yielded then 1 else 0) ≡ sum_by grants calls)
    × (sum_by grants calls ≡ sum_by releases calls)
    × (sum_by opened calls ≡ sum_by closed calls)
    × (sum_by asks_database calls
        ≤ (if redis_down.has_client && is_answer redis_down.redis then 0 else 1))
distributed_lock_lem_example = distributed_lock_lem redis_down

-- A digest of twenty bytes that has the length of the name in its first one.
abbrev sha1 : String → List ℕ
sha1 k = (length (codes k) % 256) ∷ 0 ∷ 0 ∷ 0 ∷ 0 ∷ 0 ∷ 0 ∷ 200 ∷ 0 ∷ []

sha1_digests : IsDigest sha1
sha1_digests = record { long = λ k. omega arith; bytes = λ k. omega arith }

hash_lock_key_lem_example :
    (neg_part (hash_lock_key sha1 "payment_match:txn:1") ≤ 2 ^ 63)
    × (pos_part (hash_lock_key sha1 "payment_match:txn:1") < 2 ^ 63)
    × ((hash_lock_key sha1 "payment_match:txn:1" ≡ hash_lock_key sha1 "payment_match:txn:22")
        ↔ (take 8 (sha1 "payment_match:txn:1") ≡ take 8 (sha1 "payment_match:txn:22")))
hash_lock_key_lem_example =
    hash_lock_key_lem sha1 sha1_digests "payment_match:txn:1" "payment_match:txn:22"
