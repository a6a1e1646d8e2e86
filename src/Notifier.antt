-- ===== src/Notifier.antt =====
-- MerchantNotifier of app/ws/manager.py: the websockets of the shop's terminals, each with a bounded queue
-- and a task that sends from it. A websocket is a number. The steps are the sections of the code
-- between two points where the event loop may switch; the loop of `_broadcast_local` under the lock is
-- such a step (`offers`), and each disconnection after it, once the socket is closed, another one
-- (`unregisters`). `broadcasts` is a call that nothing interrupts.
pub mod Consistent
pub mod Latest
mod Offered
pub mod Runs
pub mod Backlog
pub mod Pending
mod FirstTime
pub mod Order
use naicha_backend.Prelude.{
  Bool, List, Option, [], contains, drop, false, if◌then◌else◌, length, ltb, max, none, some, suc,
  true, zero, ℕ, ◌&&◌, ◌++◌, ◌==◌, ◌∷◌,
}
use naicha_backend.Table.{find, put, remove}

abbrev pub Socket : Type 0
Socket = ℕ

module _ (M : Type 0) where
  -- What a queue holds: a message, or `_QUEUE_STOP`.
  pub data Item : Type 0 where
    message : M → Item
    stop : Item

  -- An entry of `_connection_queues`, with `maxsize` of the queue.
  pub record ClientQueue : Type 0 where
    pub socket : Socket
    pub maxsize : ℕ
    pub items : List Item

  -- An entry of `_sender_tasks`, with the message that `send_json` is about to send.
  pub record Sender : Type 0 where
    pub socket : Socket
    pub sending : Option M

  -- A task of `_drain_queue` whose socket was registered again: it stands in no table any more, but still
  -- sends from its queue.
  pub record Replaced : Type 0 where
    pub socket : Socket
    pub items : List Item
    pub sending : Option M

  -- `has_publisher` says whether `_publisher` is there.
  pub record Notifier : Type 0 where
    pub connections : List Socket
    pub queues : List ClientQueue
    pub senders : List Sender
    pub replaced : List Replaced
    pub has_publisher : Bool

-- How `send_json` ends.
pub data SendOutcome : Type 0 where
  delivered send_timed_out send_failed : SendOutcome

-- `add` and `discard` of a set
abbrev pub add : Socket → List Socket → List Socket
add c cs = if contains c cs then cs else cs ++ c ∷ []

unfoldable pub discard : Socket → List Socket → List Socket
discard c [] = []
discard c (x ∷ xs) = let rest = discard c xs in if x == c then rest else x ∷ rest

module _ {M : Type 0} where
  -- `put_nowait`; `none` stands for QueueFull.
  abbrev pub put_nowait : ℕ → Item M → List (Item M) → Option (List (Item M))
  put_nowait maxsize i items = if ltb (length items) maxsize then some (items ++ i ∷ []) else none

  -- `_signal_queue_stop`, on a queue whose `maxsize` is positive.
  unfoldable pub signal_queue_stop : ℕ → List (Item M) → List (Item M)
  signal_queue_stop maxsize [] = stop ∷ []
  signal_queue_stop maxsize (i ∷ items) =
      let smaller = signal_queue_stop maxsize items in
      elim (put_nowait maxsize stop (i ∷ items)) [ some full ↦ full | none ↦ smaller ]

  -- What `register` leaves behind of a socket that is in the tables.
  unfoldable pub left_behind : Socket → Notifier M → List (Replaced M)
  left_behind c n = elim (find (λ (q : ClientQueue M). q.socket) c n.queues) [
    | none ↦ []
    | some q ↦ elim (find (λ (t : Sender M). t.socket) c n.senders) [
      | none ↦ []
      | some t ↦ record { socket = c; items = q.items; sending = t.sending } ∷ []
    ]
  ]

  -- `register`
  unfoldable pub register : ℕ → Socket → Notifier M → Notifier M
  unfolding left_behind
  register buffer_size c n = record n {
    connections = add c n.connections;
    queues =
        put (λ q. q.socket) (record { socket = c; maxsize = max buffer_size 1; items = [] })
          n.queues;
    senders = put (λ t. t.socket) (record { socket = c; sending = none }) n.senders;
    replaced = n.replaced ++ left_behind c n;
  }

  -- `unregister`: the queue is signalled and the task cancelled, so neither is of use any more.
  unfoldable pub unregister : Socket → Notifier M → Notifier M
  unfolding discard
  unregister c n = record n {
    connections = discard c n.connections;
    queues = remove (λ q. q.socket) c n.queues;
    senders = remove (λ t. t.socket) c n.senders;
  }

  -- The queue of a client with one more message: the oldest goes where it is full. The flag says
  -- whether `put_nowait` raised QueueFull.
  unfoldable pub offer : M → ClientQueue M → ClientQueue M × Bool
  offer m q =
      let room = if ltb (length q.items) q.maxsize then q.items else drop 1 q.items in
      elim (put_nowait q.maxsize (message m) room) [
        | some items ↦ (record q { items = items }, false)
        | none ↦ (record q { items = room }, true)
      ]

  -- One round of the loop of `_broadcast_local`: whether the socket is stale, and the queues.
  unfoldable pub offer_to :
      (Socket → Bool) → M → Socket → List (ClientQueue M) → Bool × List (ClientQueue M)
  unfolding offer
  offer_to connected m c queues =
      if connected c
      then (elim (find (λ (q : ClientQueue M). q.socket) c queues) [
        | none ↦ (true, queues)
        | some q ↦ ((offer m q).1, put (λ (q : ClientQueue M). q.socket) (offer m q).0 queues)
      ])
      else (true, queues)

  -- The loop, with the sockets that are connected by `application_state`.
  unfoldable pub offer_all :
      (Socket → Bool) → M → List Socket → List (ClientQueue M) → List Socket × List (ClientQueue M)
  unfolding offer_to
  offer_all connected m [] queues = ([], queues)
  offer_all connected m (c ∷ cs) queues =
      let next = offer_to connected m c queues in
      let rest = offer_all connected m cs next.1 in (if next.0 then c ∷ rest.0 else rest.0, rest.1)

  -- `_disconnect_connection` of each
  unfoldable pub disconnect_all : List Socket → Notifier M → Notifier M
  unfolding unregister
  disconnect_all [] n = n
  disconnect_all (c ∷ cs) n = disconnect_all cs (unregister c n)

  -- The part of `_broadcast_local` under the lock: the stale sockets, and the notifier.
  unfoldable pub offer_section : (Socket → Bool) → M → Notifier M → List Socket × Notifier M
  unfolding offer_all
  offer_section connected m n =
      let offered = offer_all connected m n.connections n.queues in
      (offered.0, record n { queues = offered.1 })

  -- `_broadcast_local`
  unfoldable pub broadcast_local : (Socket → Bool) → M → Notifier M → Notifier M
  unfolding offer_section disconnect_all
  broadcast_local connected m n =
      let (stale, n') = offer_section connected m n in disconnect_all stale n'

  -- `broadcast`, with whether the client of Redis takes the message: then it comes back through the
  -- listener, which calls `broadcast` with `publish` false.
  unfoldable pub broadcast : Bool → Bool → (Socket → Bool) → M → Notifier M → Notifier M
  unfolding broadcast_local
  broadcast publish published connected m n =
      if publish && (n.has_publisher && published) then n else broadcast_local connected m n

  abbrev begin : Socket → ClientQueue M → List (Item M) → Notifier M → Notifier M
  begin c q [] n = n
  begin c q (stop ∷ rest) n = record n { senders = remove (λ t. t.socket) c n.senders }
  begin c q (message m ∷ rest) n = record n {
    queues = put (λ q. q.socket) (record q { items = rest }) n.queues;
    senders = put (λ t. t.socket) (record { socket = c; sending = some m }) n.senders;
  }

  -- `queue.get()` of `_drain_queue`, for a task that is not sending.
  unfoldable pub take_next : Socket → Notifier M → Notifier M
  take_next c n = elim (find (λ (t : Sender M). t.socket) c n.senders) [
    | none ↦ n
    | some t ↦ elim t.sending [
      | some m ↦ n
      | none ↦ elim (find (λ (q : ClientQueue M). q.socket) c n.queues) [
        | none ↦ n
        | some q ↦ begin c q q.items n
      ]
    ]
  ]

  -- `send_json` ends: the loop goes on after a delivery and disconnects on an error.
  abbrev pub finish : Socket → SendOutcome → Notifier M → Notifier M
  finish c SendOutcome.delivered n = record n {
    senders = put (λ t. t.socket) (record { socket = c; sending = none }) n.senders;
  }
  finish c SendOutcome.send_timed_out n = unregister c n
  finish c SendOutcome.send_failed n = unregister c n

  -- What the task of a socket is sending.
  unfoldable pub sending_of : Socket → Notifier M → Option M
  sending_of c n = elim (find (λ (t : Sender M). t.socket) c n.senders) [
    | none ↦ none
    | some t ↦ t.sending
  ]

  unfoldable pub finish_send : Socket → SendOutcome → Notifier M → Notifier M
  unfolding sending_of
  finish_send c outcome n = elim (sending_of c n) [ none ↦ n | some m ↦ finish c outcome n ]

module _ {M : Type 0} where
  unfoldable pub replaced_at : ℕ → List (Replaced M) → Option (Replaced M)
  replaced_at k [] = none
  replaced_at zero (t ∷ ts) = some t
  replaced_at (suc k) (t ∷ ts) = replaced_at k ts

  -- The tasks with some in place of one of them: one task in its new state, or none where it has ended.
  unfoldable pub set_replaced : ℕ → List (Replaced M) → List (Replaced M) → List (Replaced M)
  set_replaced k new [] = []
  set_replaced zero new (t ∷ ts) = new ++ ts
  set_replaced (suc k) new (t ∷ ts) = t ∷ set_replaced k new ts

  abbrev begin_replaced : Replaced M → List (Replaced M)
  begin_replaced t = elim t.sending [
    | some m ↦ t ∷ []
    | none ↦ elim t.items [
      | [] ↦ t ∷ []
      | i ∷ rest ↦ elim i [
        | stop ↦ []
        | message m ↦ record t { items = rest; sending = some m } ∷ []
      ]
    ]
  ]

  -- `queue.get()` of a task whose socket was registered again.
  unfoldable pub take_replaced : ℕ → Notifier M → Notifier M
  unfolding replaced_at set_replaced
  take_replaced k n = elim (replaced_at k n.replaced) [
    | none ↦ n
    | some t ↦ record n { replaced = set_replaced k (begin_replaced t) n.replaced }
  ]

  abbrev finish_replaced : ℕ → Replaced M → SendOutcome → Notifier M → Notifier M
  finish_replaced k t SendOutcome.delivered n = record n {
    replaced = set_replaced k (record t { sending = none } ∷ []) n.replaced;
  }
  finish_replaced k t SendOutcome.send_timed_out n =
      unregister t.socket (record n { replaced = set_replaced k [] n.replaced })
  finish_replaced k t SendOutcome.send_failed n =
      unregister t.socket (record n { replaced = set_replaced k [] n.replaced })

  -- Its `send_json` ends; an error disconnects the socket, which by then stands for the new task.
  unfoldable pub send_replaced : ℕ → SendOutcome → Notifier M → Notifier M
  unfolding replaced_at set_replaced
  send_replaced k outcome n = elim (replaced_at k n.replaced) [
    | none ↦ n
    | some t ↦ elim t.sending [ none ↦ n | some m ↦ finish_replaced k t outcome n ]
  ]

-- What happens to a notifier.
pub data Event (M : Type 0) : Type 0 where
  registers unregisters takes : Socket → Event M
  offers broadcasts : (Socket → Bool) → M → Event M
  sends : Socket → SendOutcome → Event M
  replaced_takes : ℕ → Event M
  replaced_sends : ℕ → SendOutcome → Event M

module _ {M : Type 0} (buffer_size : ℕ) where
  unfoldable pub happen : Event M → Notifier M → Notifier M
  unfolding register unregister take_next offer_section broadcast_local finish_send take_replaced
      send_replaced
  happen (registers c) n = register buffer_size c n
  happen (unregisters c) n = unregister c n
  happen (takes c) n = take_next c n
  happen (offers connected m) n = (offer_section connected m n).1
  happen (broadcasts connected m) n = broadcast_local connected m n
  happen (sends c outcome) n = finish_send c outcome n
  happen (replaced_takes k) n = take_replaced k n
  happen (replaced_sends k outcome) n = send_replaced k outcome n

  unfoldable pub run : List (Event M) → Notifier M → Notifier M
  unfolding happen
  run [] n = n
  run (e ∷ es) n = run es (happen e n)
