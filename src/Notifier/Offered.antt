-- ===== src/Notifier/Offered.antt =====
-- The loop of `_broadcast_local` and the disconnections after it, socket by socket.
use naicha_backend.Notifier.{
  ClientQueue, Item, Notifier, Socket, broadcast_local, disconnect_all, message, offer_all,
  offer_section, offer_to, unregister,
}
use naicha_backend.Notifier.Consistent.{Distinct, IsConsistent, IsLive, is_message, queue_of}
use naicha_backend.Notifier.Latest.{latest, length-latest, offer-latest}
use naicha_backend.Prelude.{
  ==_iff, All, All-append, All-drop, Bool, Bool-cases, List, Option-cases, [], ap, arith, contains,
  false, if◌then◌else◌, inl, inr, is_some, length, none, not, refl, some, true, ◌&&◌, ◌++◌, ◌-◌,
  ◌==◌, ◌∷◌, ◌≡◌,
}
use naicha_backend.Table.{All-find, All-put, find-put, find-remove, key-find, map_some, put}

module _ {M : Type 0} where
  -- A queue that has taken a message.
  abbrev pub push_latest : M → ClientQueue M → ClientQueue M
  push_latest m q = record q { items = latest q.maxsize (q.items ++ message m ∷ []) }

  socket-queue_of :
      (c : Socket) (queues : List (ClientQueue M)) {q : ClientQueue M}
      → queue_of c queues ≡ some q
      → q.socket ≡ c
  socket-queue_of c queues e = key-find (λ (q : ClientQueue M). q.socket) c queues e

  IsLive-queue_of :
      (c : Socket) (queues : List (ClientQueue M)) {q : ClientQueue M}
      → All IsLive queues
      → queue_of c queues ≡ some q
      → IsLive q
  IsLive-queue_of c queues h e = All-find (λ (q : ClientQueue M). q.socket) IsLive c queues h e

  messages-push_latest :
      (m : M) (q : ClientQueue M)
      → All (λ (i : Item M). is_message i ≡ true) q.items
      → All (λ (i : Item M). is_message i ≡ true) (push_latest m q).items
  messages-push_latest m q h =
      All-drop (λ (i : Item M). is_message i ≡ true)
        (length (q.items ++ message m ∷ []) - q.maxsize) (q.items ++ message m ∷ [])
        (All-append (λ (i : Item M). is_message i ≡ true) q.items (message m ∷ []) h (refl, tt))

  module _ (connected : Socket → Bool) (m : M) where
    pub offer_to-put :
        (c : Socket) (queues : List (ClientQueue M)) {q : ClientQueue M}
        → All IsLive queues
        → connected c ≡ true
        → queue_of c queues ≡ some q
        → offer_to connected m c queues
          ≡ (false, put (λ (q : ClientQueue M). q.socket) (push_latest m q) queues)
    unfolding offer_to
    offer_to-put c queues {q} h on found =
        rw on (rw (found, offer_to) (rw (offer-latest m q (IsLive-queue_of c queues h found)) refl))

    offer_to-missing :
        (c : Socket) (queues : List (ClientQueue M))
        → queue_of c queues ≡ none
        → offer_to connected m c queues ≡ (true, queues)
    unfolding offer_to
    offer_to-missing c queues missing = ground (arith, missing)

    offer_to-closed :
        (c : Socket) (queues : List (ClientQueue M))
        → connected c ≡ false
        → offer_to connected m c queues ≡ (true, queues)
    unfolding offer_to
    offer_to-closed c queues off = rw off refl

    -- A round either pushes the message or finds the socket stale.
    data Round (c : Socket) (queues : List (ClientQueue M)) : Type 0 where
      pushed :
          (q : ClientQueue M)
          → connected c ≡ true
          → queue_of c queues ≡ some q
          → offer_to connected m c queues
            ≡ (false, put (λ (q : ClientQueue M). q.socket) (push_latest m q) queues)
          → Round c queues
      stale :
          (connected c && is_some (queue_of c queues)) ≡ false
          → offer_to connected m c queues ≡ (true, queues)
          → Round c queues

    round : (c : Socket) (queues : List (ClientQueue M)) → All IsLive queues → Round c queues
    round c queues h = elim (Bool-cases (connected c)) [
      | inr off ↦ stale (ground (arith, off)) (offer_to-closed c queues off)
      | inl on ↦ elim (Option-cases (queue_of c queues)) [
        | inl missing ↦ stale (ground (arith, on, missing)) (offer_to-missing c queues missing)
        | inr (q, found) ↦ pushed q on found (offer_to-put c queues h on found)
      ]
    ]

    queue_of-offer_to :
        (k c : Socket) (queues : List (ClientQueue M))
        → All IsLive queues
        → queue_of k (offer_to connected m c queues).1 ≡ (
            if k == c && connected k
            then map_some (push_latest m) (queue_of k queues)
            else queue_of k queues)
    queue_of-offer_to k c queues h = elim (round c queues h) [
      | stale off e ↦ rw e (ground (arith, off))
      | pushed q on found e ↦ rw e (
          ground (
            arith,
            on,
            found,
            socket-queue_of c queues found,
            find-put (λ (q : ClientQueue M). q.socket) k (push_latest m q) queues,
          ))
    ]

    stale-offer_to :
        (c : Socket) (queues : List (ClientQueue M))
        → All IsLive queues
        → (offer_to connected m c queues).0 ≡ not (connected c && is_some (queue_of c queues))
    stale-offer_to c queues h = elim (round c queues h) [
      | stale off e ↦ rw e (ground (arith, off))
      | pushed q on found e ↦ rw e (ground (arith, on, found))
    ]

    All-offer_to :
        (c : Socket) (queues : List (ClientQueue M))
        → All IsLive queues
        → All IsLive (offer_to connected m c queues).1
    All-offer_to c queues h = elim (round c queues h) [
      | stale off e ↦ rw e h
      | pushed q on found e ↦ rw e (
          All-put (λ (q : ClientQueue M). q.socket) IsLive (push_latest m q) queues
            (
              (IsLive-queue_of c queues h found).0,
              length-latest q.maxsize (q.items ++ message m ∷ []),
              messages-push_latest m q (IsLive-queue_of c queues h found).2,
            )
            h)
    ]

    pub All-offer_all :
        (cs : List Socket) (queues : List (ClientQueue M))
        → All IsLive queues
        → All IsLive (offer_all connected m cs queues).1
    unfolding offer_all
    All-offer_all [] queues h = h
    All-offer_all (c ∷ cs) queues h =
        All-offer_all cs (offer_to connected m c queues).1 (All-offer_to c queues h)

    pub queue_of-offer_all :
        (k : Socket) (cs : List Socket) (queues : List (ClientQueue M))
        → Distinct cs
        → All IsLive queues
        → queue_of k (offer_all connected m cs queues).1 ≡ (
            if contains k cs && connected k
            then map_some (push_latest m) (queue_of k queues)
            else queue_of k queues)
    unfolding offer_all
    queue_of-offer_all k [] queues d h = ground arith
    queue_of-offer_all k (c ∷ cs) queues d h =
        let next = (offer_to connected m c queues).1 in
        let rest = queue_of-offer_all k cs next d.1 (All-offer_to c queues h) in
        let here = queue_of-offer_to k c queues h in
        elim (Bool-cases (k == c)) [
          | inl same ↦
              rw rest
                (rw here (ground (arith, same, d.0, ap (λ x. contains x cs) ((==_iff k c).0 same))))
          | inr other ↦ rw rest (rw here (ground (arith, other)))
        ]

    pub stale-offer_all :
        (k : Socket) (cs : List Socket) (queues : List (ClientQueue M))
        → Distinct cs
        → All IsLive queues
        → contains k (offer_all connected m cs queues).0
          ≡ (contains k cs && not (connected k && is_some (queue_of k queues)))
    unfolding offer_all
    stale-offer_all k [] queues d h = ground arith
    stale-offer_all k (c ∷ cs) queues d h =
        let next = (offer_to connected m c queues).1 in
        let rest = stale-offer_all k cs next d.1 (All-offer_to c queues h) in
        let effect = queue_of-offer_to k c queues h in
        let flag = stale-offer_to c queues h in
        elim (Bool-cases (k == c)) [
          | inl same ↦ ground (
            arith,
            rest,
            flag,
            same,
            d.0,
            ap (λ x. contains x cs) ((==_iff k c).0 same),
            ap connected ((==_iff k c).0 same),
            ap (λ x. queue_of x queues) ((==_iff k c).0 same),
          )
          | inr other ↦ ground (arith, rest, effect, flag, other)
        ]

  queue_of-disconnect_all :
      (k : Socket) (cs : List Socket) (n : Notifier M)
      → queue_of k (disconnect_all cs n).queues
        ≡ (if contains k cs then none else queue_of k n.queues)
  unfolding disconnect_all
  queue_of-disconnect_all k [] n = refl
  queue_of-disconnect_all k (c ∷ cs) n = rw (queue_of-disconnect_all k cs (unregister c n)) (
      unfold unregister in
      ground (arith, find-remove (λ (q : ClientQueue M). q.socket) c k n.queues))

  -- A client that is connected has taken the message after a broadcast; any other has no queue.
  pub queue_of-broadcast_local :
      (connected : Socket → Bool) (m : M) (k : Socket) (n : Notifier M)
      → IsConsistent n
      → queue_of k (broadcast_local connected m n).queues
        ≡ (if connected k then map_some (push_latest m) (queue_of k n.queues) else none)
  unfolding broadcast_local offer_section
  queue_of-broadcast_local connected m k n h =
      let offered = offer_all connected m n.connections n.queues in
      let gone = stale-offer_all connected m k n.connections n.queues h.distinct h.live in
      let effect = queue_of-offer_all connected m k n.connections n.queues h.distinct h.live in
      rw (queue_of-disconnect_all k offered.0 (record n { queues = offered.1 }))
        (ground (arith, gone, effect, h.queued k))
