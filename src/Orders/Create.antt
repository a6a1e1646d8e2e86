-- ===== src/Orders/Create.antt =====
-- `create_order` and `_create_order_internal` of app/services/orders.py.
pub mod Frame
pub mod Placed
pub mod Items
pub mod Run
pub mod Made
use naicha_backend.Database.{Db, OrderResponse, Settings}
use naicha_backend.Exec.{Exec, Result, err, ok, pure, ◌>>=◌, ◌>>◌}
use naicha_backend.Models.{OrderType, order_type_tagged, ◌is◌}
use naicha_backend.Models.Rows.{User}
use naicha_backend.Orders.Errors.{
  CreateRequest, OrderError, address_required, guest_required, key_required, validation,
}
use naicha_backend.Orders.Idempotency.{ensure_idempotency, validate_guest_session}
use naicha_backend.Orders.Lines.{create_lines}
use naicha_backend.Orders.Placing.{Context, PostCreate, place_order, plan_reservation}
use naicha_backend.Prelude.{
  Bool, List, Option, String, [], codes, if◌then◌else◌, is_some, none, not, some, str_eq, true, ℕ,
  ◌&&◌, ◌∷◌,
}
use naicha_backend.Reservations.Hours.{is_space}

-- `if guest_session_id:` around `_validate_guest_session`.
unfoldable pub check_guest : ℕ → Option String → Db → Result OrderError (Unit {0})
check_guest now none db = ok tt
check_guest now (some guest) db =
    if str_eq guest "" then ok tt else validate_guest_session now guest db

-- What follows on `_ensure_idempotency`: the answer that was kept, or a new order.
unfoldable pub proceed :
    Settings
    → Context
    → CreateRequest
    → String
    → Option User
    → Option PostCreate
    → Option OrderResponse
    → Exec Db OrderError OrderResponse
proceed settings c payload k user post_create (some cached) = pure cached
proceed settings c payload k user post_create none = do
  reservation_plan ← plan_reservation settings c payload
  drafts ← create_lines payload.items
  place_order c payload k user post_create reservation_plan drafts

-- `_create_order_internal`
unfoldable pub create_order_internal :
    Settings
    → Context
    → CreateRequest
    → String
    → Option User
    → Option PostCreate
    → Exec Db OrderError OrderResponse
create_order_internal settings c payload k user post_create = do
  λ db. (check_guest c.now payload.guest_session_id db, db)
  cached ← ensure_idempotency c.waiting c.now k c.payload_hash
  proceed settings c payload k user post_create cached

-- The transaction in which `create_order` finds its session: none yet, so that it begins one; an
-- outermost one, with the rows as they were when it began; or a nested one, which its owner ends.
pub data Transaction : Type 0 where
  not_begun : Transaction
  outermost : Db → Transaction
  nested : Transaction

-- The rows after `rollback`, from those before the call and those that the call left.
unfoldable pub rolled_back : Transaction → Db → Db → Db
rolled_back not_begun before after = before
rolled_back (outermost begun) before after = begun
rolled_back nested before after = after

abbrev is_blank : List ℕ → Bool
is_blank [] = true
is_blank (c ∷ cs) = is_space c && is_blank cs

abbrev lacks_guest : Option String → Bool
lacks_guest none = true
lacks_guest (some g) = str_eq g ""

-- The checks of `create_order` before any transaction.
unfoldable pub check_request : CreateRequest → String → Option User → Result OrderError (Unit {0})
check_request payload k user =
    if is_blank (codes k)
    then err (validation key_required)
    else if not (is_some user) && lacks_guest payload.guest_session_id
    then err (validation guest_required)
    else if (payload.order_type is OrderType.delivery) && not (is_some payload.address)
    then err (validation address_required)
    else ok tt

-- `create_order`: committed where it returns, rolled back where it raises.
unfoldable pub create_order :
    Settings
    → Context
    → Transaction
    → CreateRequest
    → String
    → Option User
    → Option PostCreate
    → Exec Db OrderError OrderResponse
create_order settings c transaction payload k user post_create db =
    elim (check_request payload k user) [
      | err e ↦ (err e, db)
      | ok _ ↦
          (let (r, db') = create_order_internal settings c payload k user post_create db in
            elim r [
              | ok response ↦ (ok response, db')
              | err e ↦ (err e, rolled_back transaction db db')
            ])
    ]
