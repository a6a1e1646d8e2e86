-- ===== src/Tests/Working.antt =====
-- The tasks on the rows of a pending order.
use naicha_backend.Exec.{ok}
use naicha_backend.Loyalty.{award_on_payment}
use naicha_backend.Maintenance.{MaintenanceState, acquire_jobs, run_jobs}
use naicha_backend.Maintenance.Enqueued.{waiting_jobs}
use naicha_backend.Maintenance.Worked.{job_by_id}
use naicha_backend.Models.{OrderStatus}
use naicha_backend.Models.Rows.{Order}
use naicha_backend.Orders.Access.{get_order}
use naicha_backend.Prelude.{[], arith, false, none, refl, some, true, ◌≡◌}
use naicha_backend.Table.{find}
use naicha_backend.Tasks.{
  acquire_failed, cancel_stale, cancel_stale_task, lock_given, PaidMessage,
  process_payment_side_effects,
}
use naicha_backend.Tasks.Handover.{cancel_stale_task-handover, swept_by_script}
use naicha_backend.Tasks.Locked.{cancel_stale_task_lem}
use naicha_backend.Tasks.SideEffects.{handle_wechat_notification-side_effects}
use naicha_backend.Tests.Data.{busy_db, shop_settings}
use naicha_backend.Tests.Paying.{dispatched, notification, notified, notified-ok, surroundings}

abbrev no_jobs : MaintenanceState
no_jobs = record { rows = busy_db; jobs = []; next_job_id = 1 }

cancel_stale_task_lem_example :
    let s' = (cancel_stale_task shop_settings acquire_failed true false 2000000000 10 no_jobs).1 in
    (s'.rows ≡ (cancel_stale shop_settings 2000000000 10 no_jobs).rows)
    × (waiting_jobs "cancel_stale_pending_orders" s'.jobs ≡ 1)
cancel_stale_task_lem_example =
    cancel_stale_task_lem shop_settings true false 2000000000 10 no_jobs acquire_failed
      (omega arith)

none_there : job_by_id 1 no_jobs.jobs ≡ none
unfolding find
none_there = refl

cancel_stale_task-handover_example :
    let s' = (cancel_stale_task shop_settings lock_given true true 2000000000 10 no_jobs).1 in
    let (ids, t) = acquire_jobs 2100000000 none 5 s' in
    (s'.rows ≡ busy_db)
    × ((run_jobs shop_settings 2200000000 ids t).rows
        ≡ swept_by_script shop_settings 2200000000 10 busy_db)
cancel_stale_task-handover_example =
    cancel_stale_task-handover shop_settings true 2000000000 10 no_jobs 2100000000 2200000000 4 tt
      none_there (omega arith)

handle_wechat_notification-side_effects_example :
    (order : Order) × (get_order notified.1 1 ≡ some order)
    × (message : PaidMessage) × (process_payment_side_effects shop_settings 900 1 notified.1
        ≡ (ok message, award_on_payment shop_settings 900 order true notified.1))
    × (message.order_id ≡ 1)
    × (message.status ≡ OrderStatus.paid)
    × (message.order_number ≡ order.order_number)
    × (message.total_price ≡ order.total_price)
    × (message.paid_at ≡ order.updated_at)
handle_wechat_notification-side_effects_example =
    handle_wechat_notification-side_effects (surroundings 800) notification "AB12" busy_db
      notified.1 dispatched shop_settings 900 1 notified-ok refl
