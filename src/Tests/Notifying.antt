-- ===== src/Tests/Notifying.antt =====
-- Two terminals of the shop, one of which does not read.
use naicha_backend.Notifier.{
  ClientQueue, Event, Notifier, SendOutcome, Socket, broadcasts, happen, message, registers,
  replaced_sends, replaced_takes, run, sends, takes,
}
use naicha_backend.Notifier.Backlog.{broadcast_each, run-backlog}
use naicha_backend.Notifier.Consistent.{IsConsistent, queue_of}
use naicha_backend.Notifier.Latest.{latest}
use naicha_backend.Notifier.Order.{IsFirstTime, received-in_order}
use naicha_backend.Notifier.Pending.{announced, outstanding, received}
use naicha_backend.Notifier.Runs.{run-IsConsistent}
use naicha_backend.Prelude.{
  Bool, List, String, Sublistᴰ, [], false, map, refl, some, true, ◌++◌, ◌∷◌, ◌≡◌,
}
use naicha_backend.Table.{find, put}

abbrev both : Socket → Bool
both c = true

abbrev opened_once : Notifier String
opened_once = record {
  connections = [];
  queues = [];
  senders = [];
  replaced = [];
  has_publisher = false;
}

nothing_open : IsConsistent opened_once
unfolding find
nothing_open = record { distinct = tt; queued = λ c. refl; driven = λ c. refl; live = tt }

abbrev opening : List (Event String)
opening =
    registers 1
    ∷ registers 2
    ∷ broadcasts both "a"
    ∷ takes 1
    ∷ sends 1 SendOutcome.delivered
    ∷ broadcasts both "b"
    ∷ []

abbrev opened_twice : Notifier String
opened_twice = run 2 opening opened_once

run-IsConsistent_example : IsConsistent opened_twice
run-IsConsistent_example = run-IsConsistent 2 opening opened_once nothing_open

abbrev slow_queue : ClientQueue String
slow_queue = record { socket = 2; maxsize = 2; items = message "a" ∷ message "b" ∷ [] }

slow_found : queue_of 2 opened_twice.queues ≡ some slow_queue
unfolding run find put
slow_found = refl

run-backlog_example :
    queue_of 2 (run 2 (broadcast_each both ("c" ∷ "d" ∷ "e" ∷ [])) opened_twice).queues
    ≡ some (record slow_queue {
      items = latest 2 (slow_queue.items ++ map message ("c" ∷ "d" ∷ "e" ∷ []));
    })
run-backlog_example =
    run-backlog 2 both ("c" ∷ "d" ∷ "e" ∷ []) 2 opened_twice slow_queue run-IsConsistent_example
      refl slow_found

opening-IsFirstTime : IsFirstTime 2 opening opened_once
unfolding happen find put
opening-IsFirstTime = (refl, (refl, (refl, (refl, (refl, (refl, tt))))))

received-in_order_example :
    Sublistᴰ
      (received 2 1 opening opened_once ++ outstanding 1 opened_twice)
      (outstanding 1 opened_once ++ announced opening)
received-in_order_example =
    received-in_order 2 1 opening opened_once nothing_open opening-IsFirstTime refl

-- The terminal that reads has the first message, and the second one in its queue.
received_first : received 2 1 opening opened_once ≡ message "a" ∷ []
unfolding received run find put
received_first = refl

-- A socket that is registered again: the task on its old queue still sends, after a newer message.
abbrev overtaking : List (Event String)
overtaking =
    registers 1
    ∷ broadcasts both "a"
    ∷ registers 1
    ∷ broadcasts both "b"
    ∷ takes 1
    ∷ sends 1 SendOutcome.delivered
    ∷ replaced_takes 0
    ∷ replaced_sends 0 SendOutcome.delivered
    ∷ []

overtaken : received 2 1 overtaking opened_once ≡ message "b" ∷ message "a" ∷ []
unfolding received run find put
overtaken = refl
