-- ===== src/Locks.antt =====
-- `distributed_lock`, `_acquire_db_lock`, `_release_db_lock` and `_hash_lock_key` of
-- app/utils/distributed_lock.py. Redis and PostgreSQL are outside the program: what they answer is
-- a value of `Answers`, and what the code asks of them is a list of calls.
pub mod Sections
pub mod Keys
use naicha_backend.Inventory.Count.{held}
use naicha_backend.Prelude.{
  Bool, List, String, [], false, if◌then◌else◌, leb, not, pos, sub_ℕ, take, true, ℕ, ℤ, ◌*◌, ◌++◌,
  ◌+◌, ◌^◌, ◌∷◌,
}

-- What a lock server answers to an attempt.
pub data LockAnswer : Type 0 where
  lock_granted lock_refused lock_failed : LockAnswer

pub record Answers : Type 0 where
  -- `_get_redis_client` has a client
  pub has_client : Bool
  pub redis : LockAnswer
  -- the session is there and its database is PostgreSQL
  pub on_postgresql : Bool
  pub connects : Bool
  pub database : LockAnswer

-- The calls that leave the program, with what came back where that matters.
pub data Call : Type 0 where
  redis_acquire : LockAnswer → Call
  db_connect : Bool → Call
  db_lock : LockAnswer → Call
  redis_open redis_release db_unlock db_close : Call

-- What a backend holds for the section.
pub data Held : Type 0 where
  nothing by_redis by_database : Held

-- `bool(result.scalar_one_or_none())`: `pg_advisory_lock`, which a blocking call asks, has no value when
-- it returns.
abbrev pub value_of : Bool → LockAnswer → LockAnswer
value_of true lock_granted = lock_refused
value_of true lock_refused = lock_refused
value_of true lock_failed = lock_failed
value_of false answer = answer

-- `_acquire_db_lock`; the call of PostgreSQL names the answer, the code goes by its value.
unfoldable pub acquire_db_lock : Bool → Answers → Held × List Call
acquire_db_lock blocking a =
    if not a.on_postgresql
    then (nothing, [])
    else if not a.connects
    then (nothing, db_connect false ∷ [])
    else elim (value_of blocking a.database) [
      | lock_granted ↦ (by_database, db_connect true ∷ db_lock a.database ∷ [])
      | lock_refused ↦ (nothing, db_connect true ∷ db_lock a.database ∷ db_close ∷ [])
      | lock_failed ↦ (nothing, db_connect true ∷ db_lock a.database ∷ db_close ∷ [])
    ]

-- `distributed_lock` up to its `yield`; the client of Redis is a new one for each call.
unfoldable pub enter_lock : Bool → Answers → Held × List Call
unfolding acquire_db_lock
enter_lock blocking a = if not a.has_client then acquire_db_lock blocking a else elim a.redis [
  | lock_granted ↦ (by_redis, redis_open ∷ redis_acquire lock_granted ∷ [])
  | lock_refused ↦ (nothing, redis_open ∷ redis_acquire lock_refused ∷ [])
  | lock_failed ↦ (
    (acquire_db_lock blocking a).0,
    redis_open ∷ redis_acquire lock_failed ∷ (acquire_db_lock blocking a).1,
  )
]

-- What is yielded.
abbrev pub is_acquired : Held → Bool
is_acquired nothing = false
is_acquired by_redis = true
is_acquired by_database = true

-- The `finally` part, with `_release_db_lock`; it runs whether the section raises or not.
unfoldable pub leave_lock : Held → List Call
leave_lock nothing = []
leave_lock by_redis = redis_release ∷ []
leave_lock by_database = db_unlock ∷ db_close ∷ []

-- `distributed_lock`: what it yields, and every call.
unfoldable pub distributed_lock : Bool → Answers → Bool × List Call
unfolding enter_lock leave_lock
distributed_lock blocking a =
    let (held, before) = enter_lock blocking a in (is_acquired held, before ++ leave_lock held)

-- `int.from_bytes(digest[:8], byteorder="big", signed=False)`
unfoldable pub from_bytes : ℕ → List ℕ → ℕ
from_bytes acc [] = acc
from_bytes acc (b ∷ bs) = from_bytes (acc * 256 + b) bs

-- `_hash_lock_key`, with the SHA-1 of the key.
unfoldable pub hash_lock_key : (String → List ℕ) → String → ℤ
unfolding from_bytes
hash_lock_key sha1 lock_key =
    let value = from_bytes 0 (take 8 (sha1 lock_key)) in
    if leb (2 ^ 63) value then sub_ℕ value (2 ^ 64) else pos value
