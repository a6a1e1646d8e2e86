-- ===== src/Payments/Acquire.antt =====
-- `_acquire_payment_record` of app/services/payment_match.py: the record of a payment by a static QR
-- code, found by its transaction or by its amount, time and session, or made new.
use naicha_backend.Database.{Db, Settings, minute}
use naicha_backend.Exec.{Exec, err, ok}
use naicha_backend.Models.{MatchStatus, match_status_tagged, ◌is◌}
use naicha_backend.Models.Rows.{Decimal, Order, PaymentRecord}
use naicha_backend.Payments.Records.{find_txn}
use naicha_backend.Prelude.{
  Bool, List, Option, String, [], false, if◌then◌else◌, leb, max, neg_part, none, not, pos_part,
  select, some, sort_by, str_eq, true, ℕ, ℤ, ◌&&◌, ◌*◌, ◌++◌, ◌+◌, ◌==◌, ◌||◌, ◌∷◌,
}
use naicha_backend.Table.{update}

abbrev pub static_qr : String
static_qr = "static_qr"

-- AdminPaymentMatchRequestSchema
pub record MatchRequest : Type 0 where
  pub amount : Decimal
  pub paid_at : ℕ
  pub transaction_id : Option String
  pub qr_session_id : Option String
  pub force_order_id : Option ℕ

pub data MatchError : Type 0 where
  lock_taken no_candidate no_such_order : MatchError
  ambiguous : List Order → MatchError
  record_matched wrong_amount already_paid : MatchError

-- Python's truth of an optional text.
abbrev pub present : Option String → Bool
present none = false
present (some t) = not (str_eq t "")

abbrev pub or_present : Option String → Option String → Option String
or_present given old = if present given then given else old

-- The span of time in which a payment and an order may meet.
abbrev pub window : Settings → ℕ
window settings = max settings.static_match_time_window_min 1 * minute

abbrev pub in_window : Settings → ℕ → ℕ → Bool
in_window settings paid_at t =
    leb paid_at (t + window settings) && leb t (paid_at + window settings)

abbrev pub new_record : MatchRequest → ℤ → ℕ → PaymentRecord
new_record m amount pay_id = record {
  pay_id = pay_id;
  is_refund = false;
  channel = static_qr;
  amount = amount;
  txn_id = m.transaction_id;
  qr_session_id = m.qr_session_id;
  matched_order_id = none;
  match_status = MatchStatus.unmatched;
  matched_by_admin_id = none;
  paid_at = m.paid_at;
}

abbrev pub insert_new : MatchRequest → ℤ → Exec Db MatchError ℕ
insert_new m amount db = (
  ok db.next_pay_id,
  record db {
    payment_records = db.payment_records ++ new_record m amount db.next_pay_id ∷ [];
    next_pay_id = db.next_pay_id + 1;
  },
)

abbrev pub update_record : ℕ → (PaymentRecord → PaymentRecord) → Db → Db
update_record pay_id f db = record db {
  payment_records = update (λ r. r.pay_id) pay_id f db.payment_records;
}

abbrev pub eq_ℤ : ℤ → ℤ → Bool
eq_ℤ a b = pos_part a + neg_part b == pos_part b + neg_part a

-- `qr_session_id == payload.qr_session_id or qr_session_id is None`, where one is given.
abbrev pub qr_fits : Option String → Option String → Bool
qr_fits given none = true
qr_fits given (some q) = not (present given) || elim given [ none ↦ true | some g ↦ str_eq q g ]

-- The conditions of the query without a transaction.
unfoldable pub record_fits : Settings → MatchRequest → ℤ → PaymentRecord → Bool
record_fits settings m amount r =
    not r.is_refund
    && str_eq r.channel static_qr
    && (r.match_status is MatchStatus.unmatched)
    && eq_ℤ r.amount amount
    && in_window settings m.paid_at r.paid_at
    && qr_fits m.qr_session_id r.qr_session_id

abbrev pub first {ℓ} : {A : Type ℓ} → List A → Option A
first [] = none
first (x ∷ xs) = some x

-- The record of a known transaction, or a new one. The session does not flush by itself, so that the
-- `refresh` with a lock, outside of SQLite, reads the row anew and drops what was set.
unfoldable pub acquire_by_txn : Settings → MatchRequest → ℤ → String → Exec Db MatchError ℕ
acquire_by_txn settings m amount txn db = elim (find_txn txn db.payment_records) [
  | none ↦ insert_new m amount db
  | some r ↦
      if not (r.match_status is MatchStatus.unmatched)
      then (err record_matched, db)
      else (let set = λ (x : PaymentRecord).
            if settings.on_sqlite
            then record x {
              amount = amount;
              qr_session_id = or_present m.qr_session_id x.qr_session_id;
            }
            else x in
          (ok r.pay_id, update_record r.pay_id set db))
]

-- The earliest record that fits, or a new one.
unfoldable pub acquire_by_query : Settings → MatchRequest → ℤ → Exec Db MatchError ℕ
unfolding record_fits
acquire_by_query settings m amount db =
    elim (first
      (sort_by (λ r. r.paid_at) (select (record_fits settings m amount) db.payment_records))) [
        | none ↦ insert_new m amount db
        | some r ↦
            (let set = λ (x : PaymentRecord). record x {
              qr_session_id =
                  if present x.qr_session_id
                  then x.qr_session_id
                  else or_present m.qr_session_id x.qr_session_id;
            } in
              (ok r.pay_id, update_record r.pay_id set db))
      ]

-- `_acquire_payment_record`; the answer is the id of the record.
unfoldable pub acquire_payment_record : Settings → MatchRequest → ℤ → Exec Db MatchError ℕ
unfolding acquire_by_txn acquire_by_query
acquire_payment_record settings m amount = elim m.transaction_id [
  | none ↦ acquire_by_query settings m amount
  | some txn ↦
      if str_eq txn ""
      then acquire_by_query settings m amount
      else acquire_by_txn settings m amount txn
]
