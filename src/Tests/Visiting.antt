-- ===== src/Tests/Visiting.antt =====
-- A guest gets a session.
use naicha_backend.Database.{Db, minute}
use naicha_backend.Exec.{Result, err, ok}
use naicha_backend.Guests.{GuestError, calculate_expiry, issue_session, valid_session}
use naicha_backend.Guests.Sessions.{issue_session-validate}
use naicha_backend.Orders.Errors.{guest_expired, validation}
use naicha_backend.Orders.Idempotency.{find_key, validate_guest_session}
use naicha_backend.Prelude.{String, if◌then◌else◌, ltb, none, refl, ℕ, ◌*◌, ◌+◌, ◌≡◌, ◌≤◌}
use naicha_backend.Tests.Data.{empty_db, shop_settings}

abbrev visit : Result GuestError (String × ℕ) × Db
visit = issue_session shop_settings 100 "gs_1" none empty_db

visit-ok : visit ≡ (ok ("gs_1", 100 + 60 * minute), visit.1)
unfolding issue_session valid_session calculate_expiry find_key
visit-ok = refl

issue_session-validate_example :
    (validate_guest_session 500 "gs_1" visit.1
      ≡ (if ltb (100 + 60 * minute) 500 then err (validation guest_expired) else ok tt))
    × (100 + minute ≤ 100 + 60 * minute)
issue_session-validate_example =
    issue_session-validate shop_settings 100 500 "gs_1" "gs_1" none (100 + 60 * minute) empty_db
      visit.1 visit-ok
