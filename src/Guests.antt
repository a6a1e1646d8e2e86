-- ===== src/Guests.antt =====
-- GuestSessionService of app/services/guest.py: the sessions of guests are rows of the table of
-- idempotency keys, under a scope of their own.
pub mod Sessions
use naicha_backend.Database.{Db, IdempotencyKey, Settings, minute}
use naicha_backend.Exec.{Exec, err, ok}
use naicha_backend.Orders.Idempotency.{find_key, guest_scope, has_expired, update_key}
use naicha_backend.Prelude.{
  Option, String, [], if◌then◌else◌, is_some, max, none, not, some, str_eq, ℕ, ◌&&◌, ◌*◌, ◌++◌, ◌+◌,
  ◌∷◌,
}

-- What `flush` raises for a token that is taken.
pub data GuestError : Type 0 where
  integrity_error : GuestError

-- `_calculate_expiry`
unfoldable pub calculate_expiry : Settings → ℕ → ℕ
calculate_expiry settings now = now + max settings.guest_session_ttl_minutes 1 * minute

-- The session of a token that is still valid.
unfoldable pub valid_session : ℕ → Option String → Db → Option IdempotencyKey
valid_session now none db = none
valid_session now (some token) db =
    if str_eq token "" then none else elim (find_key token db.idempotency_keys) [
      | none ↦ none
      | some r ↦
          if str_eq r.scope guest_scope && not (has_expired now r.expire_at) then some r else none
    ]

abbrev pub new_session : String → ℕ → IdempotencyKey
new_session token expiry = record {
  key = token;
  scope = guest_scope;
  request_hash = none;
  response_snapshot = none;
  expire_at = some expiry;
}

abbrev pub extend : ℕ → IdempotencyKey → IdempotencyKey
extend expiry r = record r { expire_at = some expiry }

-- `issue_session`, with the token that `_generate_token` would make.
unfoldable pub issue_session :
    Settings → ℕ → String → Option String → Exec Db GuestError (String × ℕ)
unfolding calculate_expiry valid_session
issue_session settings now fresh_token existing_token db =
    let expiry = calculate_expiry settings now in
    elim (valid_session now existing_token db) [
      | some r ↦ (
        ok (r.key, expiry),
        record db { idempotency_keys = update_key r.key (extend expiry) db.idempotency_keys },
      )
      | none ↦
          if is_some (find_key fresh_token db.idempotency_keys)
          then (err integrity_error, db)
          else (
            ok (fresh_token, expiry),
            record db {
              idempotency_keys = db.idempotency_keys ++ new_session fresh_token expiry ∷ [];
            },
          )
    ]
