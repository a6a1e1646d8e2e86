-- ===== src/Guests/Sessions.antt =====
-- A session that `issue_session` answers with is one that `_validate_guest_session` accepts.
use naicha_backend.Database.{Db, IdempotencyKey, Settings, minute}
use naicha_backend.Exec.{err, ok}
use naicha_backend.Guests.{calculate_expiry, extend, issue_session, new_session, valid_session}
use naicha_backend.Orders.Errors.{guest_expired, validation}
use naicha_backend.Orders.Idempotency.{find_key, guest_scope, validate_guest_session}
use naicha_backend.Orders.Idempotency.Replay.{find_key-append, find_key-update_key, str_eq_refl}
use naicha_backend.Prelude.{
  Bool-cases, List, Option, Option-cases, String, [], ap, arith, eq_iff, if◌then◌else◌, inl, inr,
  ltb, none, refl, some, str_eq, true, ℕ, ◌+◌, ◌∙◌, ◌∷◌, ◌≡◌, ◌≤◌,
}

key-find_key :
    (k : String) (rs : List IdempotencyKey) (r : IdempotencyKey)
    → find_key k rs ≡ some r
    → r.key ≡ k
unfolding find_key
key-find_key k [] r e = absurd (ground arith)
key-find_key k (x ∷ rs) r e = elim (Bool-cases (str_eq x.key k)) [
  | inl here ↦
      (let same : r ≡ x = ground (arith, here) in
        ap (λ (y : IdempotencyKey). y.key) same ∙ (eq_iff x.key k).0 here)
  | inr there ↦ key-find_key k rs r (ground (arith, there))
]

-- The row of a session.
record IsSession (token : String) (expiry : ℕ) (rs : List IdempotencyKey) : Type 0 where
  row : IdempotencyKey
  found : find_key token rs ≡ some row
  scope : row.scope ≡ guest_scope
  expire_at : row.expire_at ≡ some expiry

validate-IsSession :
    (later : ℕ) (token : String) (expiry : ℕ) (db : Db)
    → IsSession token expiry db.idempotency_keys
    → validate_guest_session later token db
      ≡ (if ltb expiry later then err (validation guest_expired) else ok tt)
unfolding validate_guest_session
validate-IsSession later token expiry db h =
    let scoped : str_eq h.row.scope guest_scope ≡ true =
      (eq_iff h.row.scope guest_scope).1 h.scope in
    ground (arith, h.found, scoped, h.expire_at)

valid_session-is :
    (now : ℕ) (existing : Option String) (db : Db) (r : IdempotencyKey)
    → valid_session now existing db ≡ some r
    → (find_key r.key db.idempotency_keys ≡ some r) × (str_eq r.scope guest_scope ≡ true)
unfolding valid_session
valid_session-is now none db r e = absurd (ground arith)
valid_session-is now (some token) db r e =
    elim (Option-cases (find_key token db.idempotency_keys)) [
      | inl absent ↦ absurd (ground arith)
      | inr (x, found) ↦
          (let same : x ≡ r = ground (arith, found) in
            let found' : find_key token db.idempotency_keys ≡ some r = found ∙ ap some same in
            let key = key-find_key token db.idempotency_keys r found' in
            (ap (λ k. find_key k db.idempotency_keys) key ∙ found', ground (arith, found')))
    ]

issue_session-IsSession :
    (settings : Settings) (now : ℕ) (fresh token : String) (existing : Option String) (expiry : ℕ)
    (db db' : Db)
    → issue_session settings now fresh existing db ≡ (ok (token, expiry), db')
    → IsSession token expiry db'.idempotency_keys
unfolding issue_session
issue_session-IsSession settings now fresh token existing expiry db db' e =
    let end = calculate_expiry settings now in
    elim (Option-cases (valid_session now existing db)) [
      | inl none_valid ↦ elim (Option-cases (find_key fresh db.idempotency_keys)) [
        | inr (r, taken) ↦ absurd (ground (arith, none_valid, taken))
        | inl free ↦
            (let same : token ≡ fresh = ground (arith, none_valid, free) in
              let added = find_key-append fresh db.idempotency_keys (new_session fresh end) free in
              let there = ap (λ k. find_key k db'.idempotency_keys) same in
              record {
                row = new_session fresh end;
                found = there ∙ ground (arith, none_valid, free, added, str_eq_refl fresh);
                scope = refl;
                expire_at = ground (arith, none_valid, free);
              })
      ]
      | inr (r, valid) ↦
          (let (found, scoped) = valid_session-is now existing db r valid in
            let same : token ≡ r.key = ground (arith, valid) in
            let extended = find_key-update_key r.key (extend end) db.idempotency_keys (λ r. refl) in
            let there = ap (λ k. find_key k db'.idempotency_keys) same in
            record {
              row = extend end r;
              found = there ∙ ground (arith, valid, found, extended);
              scope = (eq_iff r.scope guest_scope).0 scoped;
              expire_at = ground (arith, valid);
            })
    ]

-- A session that was issued is valid at any time up to its expiry, and has expired at any later time,
-- while no other call changes its row. It expires at least a minute after it was issued.
pub issue_session-validate :
    (settings : Settings) (now later : ℕ) (fresh token : String) (existing : Option String)
    (expiry : ℕ) (db db' : Db)
    → issue_session settings now fresh existing db ≡ (ok (token, expiry), db')
    → (validate_guest_session later token db'
        ≡ (if ltb expiry later then err (validation guest_expired) else ok tt))
      × (now + minute ≤ expiry)
unfolding issue_session calculate_expiry
issue_session-validate settings now later fresh token existing expiry db db' e = (
  validate-IsSession later token expiry db'
      (issue_session-IsSession settings now fresh token existing expiry db db' e),
  ground arith,
)
