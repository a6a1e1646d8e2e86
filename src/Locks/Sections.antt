-- ===== src/Locks/Sections.antt =====
-- What `distributed_lock` asks of the two lock servers.
use naicha_backend.Locks.{
  Answers, Call, LockAnswer, db_close, db_connect, db_lock, db_unlock, distributed_lock,
  lock_failed, lock_granted, lock_refused, redis_acquire, redis_release,
}
use naicha_backend.Prelude.{Bool, arith, false, if◌then◌else◌, sum_by, true, ℕ, ◌&&◌, ◌≡◌, ◌≤◌}

abbrev pub grants : Call → ℕ
grants (redis_acquire lock_granted) = 1
grants (db_lock lock_granted) = 1
grants c = 0

abbrev pub releases : Call → ℕ
releases redis_release = 1
releases db_unlock = 1
releases c = 0

abbrev pub opened : Call → ℕ
opened (db_connect true) = 1
opened c = 0

abbrev pub closed : Call → ℕ
closed db_close = 1
closed c = 0

abbrev pub asks_database : Call → ℕ
asks_database (db_lock a) = 1
asks_database c = 0

abbrev pub is_answer : LockAnswer → Bool
is_answer lock_granted = true
is_answer lock_refused = true
is_answer lock_failed = false

-- Whatever Redis and the database answer to a call that does not block, as all callers make it: the
-- section has the lock just if one server granted it; what was granted is released and every database
-- connection that was opened is closed; and the database is asked only where Redis gave no answer, for
-- want of a client or because it failed. Nothing is said of the client of Redis.
pub distributed_lock_lem :
    (a : Answers)
    → let (yielded, calls) = distributed_lock false a in
      ((if yielded then 1 else 0) ≡ sum_by grants calls)
      × (sum_by grants calls ≡ sum_by releases calls)
      × (sum_by opened calls ≡ sum_by closed calls)
      × (sum_by asks_database calls ≤ (if a.has_client && is_answer a.redis then 0 else 1))
unfolding distributed_lock
distributed_lock_lem a = ground arith
