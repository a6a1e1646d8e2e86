-- ===== src/Orders/Idempotency.antt =====
-- `_ensure_idempotency` and `_validate_guest_session`: one table holds the keys of requests and of
-- guest sessions, told apart by their scope.
pub mod Replay
use naicha_backend.Database.{Db, IdempotencyKey, OrderResponse, minute}
use naicha_backend.Exec.{Exec, Result, err, ok}
use naicha_backend.Orders.Errors.{
  OrderError, being_processed, guest_expired, guest_invalid, key_reused, scope_mismatch,
  service_error, validation,
}
use naicha_backend.Prelude.{
  Bool, List, Option, String, [], false, if◌then◌else◌, is_some, ltb, none, not, some, str_eq, ℕ,
  ◌&&◌, ◌*◌, ◌++◌, ◌+◌, ◌∷◌,
}

abbrev pub create_scope : String
create_scope = "orders:create"

abbrev pub guest_scope : String
guest_scope = "guest_session"

-- IDEMPOTENCY_TTL_HOURS
abbrev pub idempotency_ttl : ℕ
idempotency_ttl = 24 * 60 * minute

unfoldable pub find_key : String → List IdempotencyKey → Option IdempotencyKey
find_key k [] = none
find_key k (r ∷ rs) = if str_eq r.key k then some r else find_key k rs

unfoldable pub update_key :
    String → (IdempotencyKey → IdempotencyKey) → List IdempotencyKey → List IdempotencyKey
update_key k f [] = []
update_key k f (r ∷ rs) = if str_eq r.key k then f r ∷ rs else r ∷ update_key k f rs

-- `record.request_hash and record.request_hash != payload_hash`
abbrev other_hash : Option String → String → Bool
other_hash none hash = false
other_hash (some h) hash = not (str_eq h "") && not (str_eq h hash)

abbrev or_hash : Option String → String → Option String
or_hash none hash = some hash
or_hash (some h) hash = some h

-- What another session may have written to the record while this one waited for it. On PostgreSQL
-- the insert waits for the other transaction, so there is no such loop; on SQLite the code polls
-- for up to five seconds, and `awaited` is the snapshot that it saw last.
pub record Waiting : Type 0 where
  pub is_sqlite : Bool
  pub awaited : Option OrderResponse

-- `insert … on_conflict_do_nothing`
abbrev insert_key : String → String → ℕ → List IdempotencyKey → List IdempotencyKey
insert_key k hash expires rs = elim (find_key k rs) [
  | some r ↦ rs
  | none ↦
      rs
      ++ record {
        key = k;
        scope = create_scope;
        request_hash = some hash;
        response_snapshot = none;
        expire_at = some expires;
      }
        ∷ []
]

-- The snapshot after the wait.
abbrev snapshot_after : Waiting → Bool → IdempotencyKey → Option OrderResponse
snapshot_after w inserted_here r =
    if not inserted_here && w.is_sqlite && not (is_some r.response_snapshot)
    then w.awaited
    else r.response_snapshot

-- The last writes to the record.
abbrev claim : String → ℕ → Option OrderResponse → IdempotencyKey → IdempotencyKey
claim hash expires snapshot r = record r {
  scope = create_scope;
  request_hash = or_hash r.request_hash hash;
  response_snapshot = snapshot;
  expire_at = some expires;
}

-- `_ensure_idempotency`; the answer is the snapshot to replay, if there is one.
unfoldable pub ensure_idempotency :
    Waiting → ℕ → String → String → Exec Db OrderError (Option OrderResponse)
ensure_idempotency w now k hash db =
    let expires = now + idempotency_ttl in
    let inserted_here = not (is_some (find_key k db.idempotency_keys)) in
    let db' = record db { idempotency_keys = insert_key k hash expires db.idempotency_keys } in
    elim (find_key k db'.idempotency_keys) [
      | none ↦ (err service_error, db')
      | some r ↦
          if not (str_eq r.scope create_scope)
          then (err scope_mismatch, db')
          else if other_hash r.request_hash hash
          then (err key_reused, db')
          else (let snapshot = snapshot_after w inserted_here r in
              if not inserted_here && w.is_sqlite && not (is_some snapshot)
              then (err being_processed, db')
              else (
                ok snapshot,
                record db' {
                  idempotency_keys =
                      update_key k (claim hash expires snapshot) db'.idempotency_keys;
                },
              ))
    ]

-- `record.expire_at and record.expire_at < now`
abbrev pub has_expired : ℕ → Option ℕ → Bool
has_expired now none = false
has_expired now (some t) = ltb t now

-- `_validate_guest_session`
unfoldable pub validate_guest_session : ℕ → String → Db → Result OrderError (Unit {0})
validate_guest_session now guest db = elim (find_key guest db.idempotency_keys) [
  | none ↦ err (validation guest_invalid)
  | some r ↦
      if not (str_eq r.scope guest_scope)
      then err (validation guest_invalid)
      else if has_expired now r.expire_at
      then err (validation guest_expired)
      else ok tt
]
