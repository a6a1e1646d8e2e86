-- ===== src/Payments/Notify/Again.antt =====
-- A notification that comes once more.
use naicha_backend.Database.{Db}
use naicha_backend.Exec.{Result-cases, is_ok, ok}
use naicha_backend.Models.Rows.{Order, PrintJob}
use naicha_backend.Orders.Access.{get_order}
use naicha_backend.Payments.Notify.{
  Dispatch, Notification, Surroundings, ensure_amount_matches, handle_wechat_notification,
  mark_paid, notify, prepare_job, settle, verify_signature,
}
use naicha_backend.Payments.Notify.Effect.{find_txn-insert_record, insert_record-known}
use naicha_backend.Payments.Notify.Pays.{notify-Settled}
use naicha_backend.Payments.Records.{find_order_number, find_txn, job_of}
use naicha_backend.Prelude.{
  List, String, [], ap, arith, false, inl, inr, is_some, none, refl, some, str_eq, true, ℕ, ◌∙◌,
  ◌∷◌, ◌≡◌,
}
use naicha_backend.Table.{find, is_some-inv, update}

number-find_order_number :
    (number : String) (os : List Order) (order : Order)
    → find_order_number number os ≡ some order
    → str_eq order.order_number number ≡ true
unfolding find_order_number
number-find_order_number number [] order e = absurd (ground arith)
number-find_order_number number (x ∷ os) order e =
    ground (arith, number-find_order_number number os order)

find_order_number-update :
    (number : String) (id : ℕ) (f : Order → Order) (os : List Order) (order : Order)
    → ((o : Order) → (f o).order_number ≡ o.order_number)
    → find_order_number number os ≡ some order
    → find (λ (o : Order). o.order_id) id os ≡ some order
    → order.order_id ≡ id
    → find_order_number number (update (λ o. o.order_id) id f os) ≡ some (f order)
unfolding find_order_number find update
find_order_number-update number id f [] order keeps e h k = absurd (ground arith)
find_order_number-update number id f (x ∷ os) order keeps e h k = ground (
  arith,
  keeps x,
  find_order_number-update number id f os order keeps,
  number-find_order_number number os order,
)

mark_paid-again :
    (now later : ℕ) (channel : String) (o : Order)
    → mark_paid later channel (mark_paid now channel o) ≡ mark_paid now channel o
unfolding mark_paid
mark_paid-again now later channel o = ground arith

pay_keeps :
    (now : ℕ) (channel : String) (o : Order)
    → (mark_paid now channel o).order_number ≡ o.order_number
unfolding mark_paid
pay_keeps now channel o = refl

right_paid :
    (now : ℕ) (channel : String) (n : Notification) (order : Order)
    → ensure_amount_matches order n.amount n.currency ≡ ok tt
    → ensure_amount_matches (mark_paid now channel order) n.amount n.currency ≡ ok tt
unfolding ensure_amount_matches mark_paid
right_paid now channel n order right = right

update_order-settled :
    (id : ℕ) (f g : Order → Order) (os : List Order)
    → ((o : Order) → (f o).order_id ≡ o.order_id)
    → ((o : Order) → g (f o) ≡ f o)
    → update (λ (o : Order). o.order_id) id g (update (λ o. o.order_id) id f os)
      ≡ update (λ (o : Order). o.order_id) id f os
unfolding update
update_order-settled id f g [] key again = refl
update_order-settled id f g (x ∷ os) key again =
    ground (arith, key x, again x, update_order-settled id f g os key again)

notify-known :
    (s : Surroundings) (n : Notification) (signature : String) (order : Order) (j : PrintJob)
    (db : Db)
    → verify_signature s.expected_signature signature ≡ true
    → find_order_number n.order_number db.orders ≡ some order
    → ensure_amount_matches order n.amount n.currency ≡ ok tt
    → job_of order.order_id db ≡ some j
    → s.is_stale ≡ false
    → is_ok (handle_wechat_notification s n signature db).0 ≡ true
unfolding handle_wechat_notification notify settle prepare_job
notify-known s n signature order j db signed_ found right job fresh =
    ground (arith, signed_, found, right, job, fresh)

-- The same notification once more, at any later time and with no concurrent change of the order, is
-- accepted again without any side effects of a payment, and changes neither an order nor a payment
-- record. The ids of orders have to be unique in that the order of the number is the one of its id.
pub handle_wechat_notification-again :
    (s s' : Surroundings) (n : Notification) (signature : String) (db db' : Db) (d : Dispatch)
    → handle_wechat_notification s n signature db ≡ (ok d, db')
    → ((order : Order)
        → find_order_number n.order_number db.orders ≡ some order
        → get_order db order.order_id ≡ some order)
    → s'.is_stale ≡ false
    → s'.expected_signature ≡ s.expected_signature
    → (d' : Dispatch) × (db'' : Db) × (handle_wechat_notification s' n signature db'
        ≡ (ok d', db''))
      × (d'.side_effects ≡ none)
      × (db''.orders ≡ db'.orders)
      × (db''.payment_records ≡ db'.payment_records)
unfolding mark_paid
handle_wechat_notification-again s s' n signature db db' d e unique fresh same_secret =
    let (order, found, right, signed_, settled) = notify-Settled s n signature db db' d e in
    let pay = mark_paid s.now n.channel in
    let paid = pay order in
    let found' : find_order_number n.order_number db'.orders ≡ some paid =
      ap (find_order_number n.order_number) settled.orders
      ∙ find_order_number-update n.order_number order.order_id pay db.orders order
          (λ o. pay_keeps s.now n.channel o) found (unique order found) refl in
    let (j, job) = is_some-inv (job_of order.order_id db') settled.job in
    let signed_' : verify_signature s'.expected_signature signature ≡ true =
      rw same_secret signed_ in
    let right' : ensure_amount_matches paid n.amount n.currency ≡ ok tt =
      right_paid s.now n.channel n order right in
    let ok_again = notify-known s' n signature paid j db' signed_' found' right' job fresh in
    let (answer, db'') = handle_wechat_notification s' n signature db' in
    elim (Result-cases answer) [
      | inl (x, failed) ↦ absurd (ground (arith, ok_again, failed))
      | inr (d', returned) ↦
          (let run : handle_wechat_notification s' n signature db' ≡ (ok d', db'') =
              ground (arith, returned) in
            let (order', found'', _, _, settled') = notify-Settled s' n signature db' db'' d' run in
            let same : order' ≡ paid = ground (arith, found', found'') in
            let known : is_some (find_txn n.transaction_id db'.payment_records) ≡ true =
              ap (λ rs. is_some (find_txn n.transaction_id rs)) settled.records
              ∙ find_txn-insert_record n order.order_id db in
            let pay_again = mark_paid s'.now n.channel in
            let rows : update (λ (o : Order). o.order_id) order.order_id pay_again db'.orders
                ≡ db'.orders =
              rw settled.orders (
                update_order-settled order.order_id pay pay_again db.orders (λ o. refl)
                  (λ o. mark_paid-again s.now s'.now n.channel o)) in
            (
              d',
              db'',
              run,
              ground (arith, same, settled'.effects),
              settled'.orders
                  ∙ ap
                      (λ (o : Order).
                        update (λ (o : Order). o.order_id) o.order_id pay_again db'.orders)
                      same
                  ∙ rows,
              settled'.records
                  ∙ ap (λ (x : Db). x.payment_records)
                      (insert_record-known n order'.order_id db' known),
            ))
    ]
