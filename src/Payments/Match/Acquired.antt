-- ===== src/Payments/Match/Acquired.antt =====
-- `_acquire_payment_record` answers with the id of a record that is there.
use naicha_backend.Database.{Db, Settings}
use naicha_backend.Exec.{ok}
use naicha_backend.Models.{MatchStatus, match_status_tagged, ◌is◌}
use naicha_backend.Models.Rows.{PaymentRecord}
use naicha_backend.Payments.Acquire.{
  MatchRequest, acquire_by_query, acquire_by_txn, acquire_payment_record, first, insert_new,
  new_record, or_present, present, record_fits, update_record,
}
use naicha_backend.Payments.Records.{find_txn, same_txn}
use naicha_backend.Prelude.{
  All, All-select, All-sort_by, Bool-cases, List, Option, Option-cases, String, [], arith,
  if◌then◌else◌, inl, inr, is_some, not, refl, select, some, sort_by, str_eq, subst, true, ℕ, ℤ,
  ◌∷◌, ◌≡◌,
}
use naicha_backend.Table.{All-found, find, find-append, find-update}

abbrev pub by_id : ℕ → Db → Option PaymentRecord
by_id pay_id db = find (λ (r : PaymentRecord). r.pay_id) pay_id db.payment_records

-- The record is there, and nothing but the payment records has changed.
pub record Acquired (pay_id : ℕ) (before after : Db) : Type 0 where
  pub found : is_some (by_id pay_id after) ≡ true
  pub orders : after.orders ≡ before.orders
  pub print_jobs : after.print_jobs ≡ before.print_jobs

insert_new-Acquired :
    (m : MatchRequest) (amount : ℤ) (db : Db)
    → Acquired db.next_pay_id db (insert_new m amount db).1
insert_new-Acquired m amount db = record {
  found = ground (
    arith,
    find-append (λ (r : PaymentRecord). r.pay_id) db.next_pay_id db.payment_records
        (new_record m amount db.next_pay_id),
  );
  orders = refl;
  print_jobs = refl;
}

update_record-Acquired :
    (pay_id : ℕ) (f : PaymentRecord → PaymentRecord) (db : Db)
    → ((r : PaymentRecord) → (f r).pay_id ≡ r.pay_id)
    → is_some (by_id pay_id db) ≡ true
    → Acquired pay_id db (update_record pay_id f db)
update_record-Acquired pay_id f db key known = record {
  found =
      ground (
        arith,
        find-update (λ (r : PaymentRecord). r.pay_id) pay_id pay_id f db.payment_records key,
      );
  orders = refl;
  print_jobs = refl;
}

Acquired-by :
    {pay_id known : ℕ} {before after known_after : Db}
    → (known ≡ pay_id) × (known_after ≡ after)
    → Acquired known before known_after
    → Acquired pay_id before after
Acquired-by {pay_id = pay_id} {before = before} {known_after = known_after} (same, rows) h =
    subst (Acquired pay_id before) rows (subst (λ i. Acquired i before known_after) same h)

find_txn-All :
    (P : PaymentRecord → Type 0) (txn : String) (rs : List PaymentRecord) (r : PaymentRecord)
    → All P rs
    → find_txn txn rs ≡ some r
    → P r
unfolding find_txn
find_txn-All P txn [] r h e = absurd (ground arith)
find_txn-All P txn (x ∷ rs) r h e = elim (Bool-cases (same_txn txn x)) [
  | inl here ↦ subst P (ground (arith, here)) h.0
  | inr there ↦ find_txn-All P txn rs r h.1 (ground (arith, there))
]

first-All :
    (P : PaymentRecord → Type 0) (rs : List PaymentRecord) (r : PaymentRecord)
    → All P rs
    → first rs ≡ some r
    → P r
first-All P [] r h e = absurd (ground arith)
first-All P (x ∷ rs) r h e = subst P (ground arith) h.0

acquire_by_txn-Acquired :
    (settings : Settings) (m : MatchRequest) (amount : ℤ) (txn : String) (db db' : Db) (pay_id : ℕ)
    → acquire_by_txn settings m amount txn db ≡ (ok pay_id, db')
    → Acquired pay_id db db'
unfolding acquire_by_txn
acquire_by_txn-Acquired settings m amount txn db db' pay_id e =
    elim (Option-cases (find_txn txn db.payment_records)) [
      | inl new ↦
          (let run : (db.next_pay_id ≡ pay_id) × ((insert_new m amount db).1 ≡ db') =
              ground (arith, new) in
            Acquired-by run (insert_new-Acquired m amount db))
      | inr (r, found) ↦ elim (Bool-cases (not (r.match_status is MatchStatus.unmatched))) [
        | inl taken ↦ absurd (ground arith)
        | inr free ↦
            (let set = λ (x : PaymentRecord).
                if settings.on_sqlite
                then record x {
                  amount = amount;
                  qr_session_id = or_present m.qr_session_id x.qr_session_id;
                }
                else x in
              let known =
                find_txn-All (λ r. is_some (by_id r.pay_id db) ≡ true) txn db.payment_records r
                  (All-found (λ r. r.pay_id) db.payment_records) found in
              let run : (r.pay_id ≡ pay_id) × (update_record r.pay_id set db ≡ db') =
                ground (arith, found, free) in
              Acquired-by run (update_record-Acquired r.pay_id set db (λ r. ground arith) known))
      ]
    ]

acquire_by_query-Acquired :
    (settings : Settings) (m : MatchRequest) (amount : ℤ) (db db' : Db) (pay_id : ℕ)
    → acquire_by_query settings m amount db ≡ (ok pay_id, db')
    → Acquired pay_id db db'
unfolding acquire_by_query
acquire_by_query-Acquired settings m amount db db' pay_id e =
    let fits = select (record_fits settings m amount) db.payment_records in
    let sorted = sort_by (λ (r : PaymentRecord). r.paid_at) fits in
    elim (Option-cases (first sorted)) [
      | inl new ↦
          (let run : (db.next_pay_id ≡ pay_id) × ((insert_new m amount db).1 ≡ db') =
              ground (arith, new) in
            Acquired-by run (insert_new-Acquired m amount db))
      | inr (r, found) ↦
          (let set = λ (x : PaymentRecord). record x {
            qr_session_id =
                if present x.qr_session_id
                then x.qr_session_id
                else or_present m.qr_session_id x.qr_session_id;
          } in
            let Known = λ (r : PaymentRecord). is_some (by_id r.pay_id db) ≡ true in
            let known =
              first-All Known sorted r
                (All-sort_by Known (λ r. r.paid_at) fits
                  (All-select Known (record_fits settings m amount) db.payment_records
                    (All-found (λ r. r.pay_id) db.payment_records)))
                found in
            let run : (r.pay_id ≡ pay_id) × (update_record r.pay_id set db ≡ db') =
              ground (arith, found) in
            Acquired-by run (update_record-Acquired r.pay_id set db (λ r. refl) known))
    ]

pub acquire-Acquired :
    (settings : Settings) (m : MatchRequest) (amount : ℤ) (db db' : Db) (pay_id : ℕ)
    → acquire_payment_record settings m amount db ≡ (ok pay_id, db')
    → Acquired pay_id db db'
unfolding acquire_payment_record
acquire-Acquired settings m amount db db' pay_id e = elim (Option-cases m.transaction_id) [
  | inl none_given ↦ acquire_by_query-Acquired settings m amount db db' pay_id (ground (arith, e))
  | inr (txn, given) ↦ elim (Bool-cases (str_eq txn "")) [
    | inl blank ↦ acquire_by_query-Acquired settings m amount db db' pay_id (ground (arith, e))
    | inr named ↦ acquire_by_txn-Acquired settings m amount txn db db' pay_id (ground (arith, e))
  ]
]
