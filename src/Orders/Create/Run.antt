-- ===== src/Orders/Create/Run.antt =====
-- A call of `create_order` that returns, taken apart into its steps.
use naicha_backend.Database.{Db, OrderResponse, Settings}
use naicha_backend.Exec.{>>=-eq-ok, ok}
use naicha_backend.Models.Rows.{User}
use naicha_backend.Orders.Create.{
  Transaction, check_guest, create_order, create_order_internal, proceed,
}
use naicha_backend.Orders.Errors.{CreateRequest}
use naicha_backend.Orders.Idempotency.{ensure_idempotency}
use naicha_backend.Orders.Lines.{DraftItem, create_lines}
use naicha_backend.Orders.Placing.{Context, place_order, plan_reservation}
use naicha_backend.Prelude.{List, Option, String, arith, inl, inr, none, some, ◌≡◌, ◌⊎◌}
use naicha_backend.Reservations.Plan.{ReservationPlan}

-- The steps of a call that made an order.
pub record Created (settings : Settings) (c : Context) (payload : CreateRequest) (k : String)
    (user : Option User) (before after : Db) (result : OrderResponse) : Type 0 where
  pub claimed : Db
  pub planned : Db
  pub taken : Db
  pub reservation_plan : Option ReservationPlan
  pub drafts : List DraftItem
  pub guest_ok : check_guest c.now payload.guest_session_id before ≡ ok tt
  pub claims : ensure_idempotency c.waiting c.now k c.payload_hash before ≡ (ok none, claimed)
  pub plans : plan_reservation settings c payload claimed ≡ (ok reservation_plan, planned)
  pub takes : create_lines payload.items planned ≡ (ok drafts, taken)
  pub places : place_order c payload k user none reservation_plan drafts taken ≡ (ok result, after)

-- The steps of a call that replayed an answer.
pub record Replayed (c : Context) (payload : CreateRequest) (k : String) (before after : Db)
    (result : OrderResponse) : Type 0 where
  pub guest_ok : check_guest c.now payload.guest_session_id before ≡ ok tt
  pub claims :
      ensure_idempotency c.waiting c.now k c.payload_hash before ≡ (ok (some result), after)

module _ (settings : Settings) (c : Context) (payload : CreateRequest) (k : String)
    (user : Option User) (db db' : Db) (result : OrderResponse) where
  rest_of_run :
      (cached : Option OrderResponse) (mid : Db)
      → check_guest c.now payload.guest_session_id db ≡ ok tt
      → ensure_idempotency c.waiting c.now k c.payload_hash db ≡ (ok cached, mid)
      → proceed settings c payload k user none cached mid ≡ (ok result, db')
      → Created settings c payload k user db db' result ⊎ Replayed c payload k db db' result
  unfolding proceed
  rest_of_run none mid g e h =
      let (p, planned, plans, h1) =
        >>=-eq-ok (plan_reservation settings c payload) _ mid db' result h in
      let (ds, taken, takes, places) =
        >>=-eq-ok (create_lines payload.items) _ planned db' result h1 in
      inl (record {
        claimed = mid;
        planned = planned;
        taken = taken;
        reservation_plan = p;
        drafts = ds;
        guest_ok = g;
        claims = e;
        plans = plans;
        takes = takes;
        places = places;
      })
  rest_of_run (some r) mid g e h = inr (record { guest_ok = g; claims = ground arith })

  pub create_order_internal-run :
      create_order_internal settings c payload k user none db ≡ (ok result, db')
      → Created settings c payload k user db db' result ⊎ Replayed c payload k db db' result
  unfolding create_order_internal
  create_order_internal-run e =
      let (_, start, g, e1) =
        >>=-eq-ok (λ (db : Db). (check_guest c.now payload.guest_session_id db, db)) _ db db' result
          e in
      let (cached, mid, claims, e2) =
        >>=-eq-ok (ensure_idempotency c.waiting c.now k c.payload_hash) _ start db' result e1 in
      rest_of_run cached mid (ground (arith, g)) (ground (arith, g, claims)) e2

  pub create_order-run :
      (transaction : Transaction)
      → create_order settings c transaction payload k user none db ≡ (ok result, db')
      → Created settings c payload k user db db' result ⊎ Replayed c payload k db db' result
  unfolding create_order
  create_order-run transaction e = create_order_internal-run (ground arith)

-- A kept answer is returned, with what `_ensure_idempotency` leaves.
pub create_order_internal-replay :
    (settings : Settings) (c : Context) (payload : CreateRequest) (k : String) (user : Option User)
    (db : Db) (result : OrderResponse)
    → check_guest c.now payload.guest_session_id db ≡ ok tt
    → (ensure_idempotency c.waiting c.now k c.payload_hash db).0 ≡ ok (some result)
    → create_order_internal settings c payload k user none db
      ≡ (ok result, (ensure_idempotency c.waiting c.now k c.payload_hash db).1)
unfolding create_order_internal proceed
create_order_internal-replay settings c payload k user db result guest replayed =
    ground (arith, guest, replayed)
