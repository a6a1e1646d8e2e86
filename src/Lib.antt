-- ===== src/Lib.antt =====
-- Verification library of the ordering backend of a tea shop: customers price, order and pay drinks,
-- possibly for a later time; payments are notified or matched by hand; paid orders are printed; and
-- points and coupons reward them.
--
-- The state. All services work on one database, `Db` of Database.antt: a list of rows per table and
-- a sequence per primary key. A call is a function on `Db` that returns a result beside the rows it
-- leaves, as an exception does not undo a write by itself (`Exec` of Exec.antt); where the code rolls
-- a transaction back, the function that models it does so. Calls are serial, as the row locks make
-- them; what another session may have written meanwhile is a parameter where the code looks for it.
-- Amounts are integers of cents (Money.antt), instants are microseconds, native numbers.
--
-- The parts, each with the file of the repository it follows:
--   * Models, Database, Errors: the columns and enums of app/models, the settings of
--     app/core/settings.py, and the exceptions.
--   * Inventory: app/services/inventory.py (restore_from_order_items and the manual updates).
--     Inventory/Count counts stock, Inventory/Restore shows what is given back.
--   * Loyalty: app/services/loyalty.py (award_on_payment, use_coupon, get_stamp_status).
--   * Reservations: app/services/reservations.py. Hours has the opening hours, Slots the counters,
--     Plan the method plan, Due the two sweeps; Capacity, Alignment, Window and Sweeps prove.
--   * Orders: app/services/orders.py. Pricing has the arithmetic and Preview calculate_price_only;
--     Idempotency has _ensure_idempotency and _validate_guest_session, Lines the loop over the items,
--     Placing and Create the rest of create_order, Access the reads, Cancel the cancellations. Guarantees has the
--     theorems on creation and cancellation together, which rest on the modules below Create.
--   * Payments: app/services/payments.py (Notify) and app/services/payment_match.py (Acquire, Match),
--     over the rows of Records.
--   * PrintJobs: app/workers/print_jobs.py (Gateway, Execute, Recover) and app/workers/__init__.py
--     (Enqueue). Execute/Row has the row of a job after a call column by column, and Execute/Attempts
--     the life of a job as a step relation.
--   * Guests: app/services/guest.py, over the same table as the idempotency keys.
--   * Maintenance: app/services/maintenance.py, with a table of its own beside `Db`; Enqueued and
--     Worked prove.
--   * Notifier: app/ws/manager.py. Consistent, Latest and Offered are about the tables and the queues,
--     Runs, Backlog, Pending, FirstTime and Order about sequences of events. Of a socket that is registered
--     again, the task on its old queue goes on as one of the tasks `replaced`.
--   * Locks: app/utils/distributed_lock.py, Sections about the calls and Keys about the keys.
--   * Want: app/services/want.py, with a table of events beside `Db`. Spaced is about the rate limit;
--     Counting, Days, Counter and Totals about the statistics.
--   * Tasks: app/workers/tasks.py. Locked and Handover are about the sweep over stale orders, SideEffects
--     about the points and the message of a paid order.
--   * Advertisements: app/services/advertisement.py over the tables of app/models/advertisement.py, with a
--     state of its own that holds the tables and the cache. Configs has get_config, Changes what an update
--     writes, Keys the keys of the cache; Placed and Calls are about the tables, Configs/Calm and
--     Configs/Current about the cache.
--   * Menu: app/services/menu.py. Menu has the caches and Payload the menu itself, over the tables of
--     app/models/catalog.py; Fresh, Loaded and Served are about the caches, Listed about the menu.
--   * Reconciliation: app/services/reconciliation.py; Notified puts it together with Payments.
--   * Tests: runs on concrete rows, and the theorems at them.
-- Orders calls Reservations, Loyalty and Inventory; the payment services change orders and print jobs
-- and name what they hand to the queues (`Dispatch`); the workers then call PrintJobs and Loyalty.
--
-- Parameters: the clock, the random order number and pickup code, the SHA-256 of a payload, the HMAC
-- of a notification, the token of a guest, the time zone, the printer's answer, the answers of the lock
-- servers, whether the Redis of the menu answers, what other processes do to its caches between two
-- awaits of a call, the dialect of the database, by how much created_at lags behind the clock, which
-- sockets are connected, whether a lock or the Celery client
-- accepts, the callback of the point of sale, and the snapshot that a waiting session sees.
--
-- No model has fuel: every loop is structural recursion on a list or on a number of coupons. The
-- attempts of a print job are a list of calls.
--
-- Not modelled: the HTTP routes and schemas beyond the payloads, metrics and logs, the texts of
-- messages, the columns that only carry such texts, the schedule of Celery, configuration,
-- dashboard, accounts, the heartbeats of the maintenance service, and what sets up the clients of
-- Redis.
pub mod Prelude
pub mod Exec
pub mod Table
pub mod Models
pub mod Errors
pub mod Money
pub mod Database
pub mod Inventory
pub mod Loyalty
pub mod Reservations
pub mod Orders
pub mod Guests
pub mod Payments
pub mod PrintJobs
pub mod Maintenance
pub mod Tests
pub mod Notifier
pub mod Locks
pub mod Advertisements
pub mod Tasks
pub mod Menu
pub mod Want
pub mod Reconciliation
