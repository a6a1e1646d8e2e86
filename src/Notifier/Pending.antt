-- ===== src/Notifier/Pending.antt =====
-- What a client has still to get, before and after each event.
use naicha_backend.Notifier.{
  ClientQueue, Event, Item, Notifier, Replaced, SendOutcome, Sender, Socket, begin, broadcast_local,
  broadcasts, disconnect_all, finish, happen, message, offer_all, offer_section, offers, register,
  replaced_at, replaced_sends, sends, stop, take_next, unregister,
}
use naicha_backend.Notifier.Consistent.{IsConsistent, queue_of, sender_of}
use naicha_backend.Notifier.Offered.{push_latest, queue_of-broadcast_local, queue_of-offer_all}
use naicha_backend.Notifier.Runs.{take_next-cases}
use naicha_backend.Prelude.{
  ==_iff, Bool, Bool-cases, List, Option, Sublistᴰ, [], append_assoc, contains, if◌then◌else◌, inl,
  inr, length, max, none, refl, some, sublist-append, sublist-drop, sublist-extend, sublist-nil,
  sublist-refl, sublist-trans, subst, sym, ℕ, ◌&&◌, ◌++◌, ◌-◌, ◌==◌, ◌∷◌, ◌≡◌,
}
use naicha_backend.Table.{find-put, find-remove, key-find, map_some}

module _ {M : Type 0} where
  abbrev pub to_items : Option M → List (Item M)
  to_items none = []
  to_items (some m) = message m ∷ []

  abbrev pub queue_items : Option (ClientQueue M) → List (Item M)
  queue_items none = []
  queue_items (some q) = q.items

  abbrev pub sending_items : Option (Sender M) → List (Item M)
  sending_items none = []
  sending_items (some t) = to_items t.sending

  -- What a socket has still to get: the message that is being sent, and its queue.
  abbrev pub outstanding : Socket → Notifier M → List (Item M)
  outstanding c n = sending_items (sender_of c n.senders) ++ queue_items (queue_of c n.queues)

  abbrev replaced_items : Socket → Option (Replaced M) → List (Item M)
  replaced_items c none = []
  replaced_items c (some t) = if t.socket == c then to_items t.sending else []

  -- What an event delivers to a socket, by its task or by one that was replaced.
  unfoldable pub delivery : Socket → Event M → Notifier M → List (Item M)
  unfolding replaced_at
  delivery c (sends k SendOutcome.delivered) n =
      if k == c then sending_items (sender_of c n.senders) else []
  delivery c (replaced_sends k SendOutcome.delivered) n =
      replaced_items c (replaced_at k n.replaced)
  delivery c e n = []

  -- The messages that are broadcast.
  unfoldable pub announced : List (Event M) → List (Item M)
  announced [] = []
  announced (offers connected m ∷ es) = message m ∷ announced es
  announced (broadcasts connected m ∷ es) = message m ∷ announced es
  announced (e ∷ es) = announced es

  module _ (buffer_size : ℕ) where
    -- What a run delivers to a socket.
    unfoldable pub received : Socket → List (Event M) → Notifier M → List (Item M)
    unfolding delivery
    received c [] n = []
    received c (e ∷ es) n = delivery c e n ++ received c es (happen buffer_size e n)

  pub pending-register :
      (buffer_size : ℕ) (c k : Socket) (n : Notifier M)
      → Sublistᴰ (outstanding c (register buffer_size k n)) (outstanding c n)
  unfolding register
  pending-register buffer_size c k n =
      let task : Sender M = record { socket = k; sending = none } in
      let queue : ClientQueue M = record { socket = k; maxsize = max buffer_size 1; items = [] } in
      rw (find-put (λ (t : Sender M). t.socket) c task n.senders) (
        rw (find-put (λ (q : ClientQueue M). q.socket) c queue n.queues)
          (elim (Bool-cases (k == c)) [
            | inl same ↦ rw same (sublist-nil _)
            | inr other ↦ rw other (sublist-refl _)
          ]))

  pub pending-unregister :
      (c k : Socket) (n : Notifier M) → Sublistᴰ (outstanding c (unregister k n)) (outstanding c n)
  unfolding unregister
  pending-unregister c k n = rw (find-remove (λ (t : Sender M). t.socket) k c n.senders) (
      rw (find-remove (λ (q : ClientQueue M). q.socket) k c n.queues) (elim (Bool-cases (k == c)) [
        | inl same ↦ rw same (sublist-nil _)
        | inr other ↦ rw other (sublist-refl _)
      ]))

  sending-disconnect_all :
      (c : Socket) (cs : List Socket) (n : Notifier M)
      → Sublistᴰ
          (sending_items (sender_of c (disconnect_all cs n).senders))
          (sending_items (sender_of c n.senders))
  unfolding disconnect_all unregister
  sending-disconnect_all c [] n = sublist-refl _
  sending-disconnect_all c (k ∷ cs) n =
      sublist-trans
        (rw (find-remove (λ (t : Sender M). t.socket) k c n.senders) (elim (Bool-cases (k == c)) [
          | inl same ↦ rw same (sublist-nil _)
          | inr other ↦ rw other (sublist-refl _)
        ]))
        (sending-disconnect_all c cs (unregister k n))

  items-push_latest :
      (m : M) (o : Option (ClientQueue M))
      → Sublistᴰ (queue_items (map_some (push_latest m) o)) (queue_items o ++ message m ∷ [])
  items-push_latest m none = sublist-nil _
  items-push_latest m (some q) =
      sublist-drop (length (q.items ++ message m ∷ []) - q.maxsize) (q.items ++ message m ∷ [])

  pub pending-offer_section :
      (connected : Socket → Bool) (m : M) (c : Socket) (n : Notifier M)
      → IsConsistent n
      → Sublistᴰ (outstanding c (offer_section connected m n).1) (outstanding c n ++ message m ∷ [])
  unfolding offer_section
  pending-offer_section connected m c n h =
      let items : Sublistᴰ (queue_items (queue_of c (offer_section connected m n).1.queues))
          (queue_items (queue_of c n.queues) ++ message m ∷ []) =
        rw (queue_of-offer_all connected m c n.connections n.queues h.distinct h.live)
          (elim (Bool-cases (contains c n.connections && connected c)) [
            | inl taken ↦ rw taken (items-push_latest m (queue_of c n.queues))
            | inr left ↦ rw left (sublist-extend (message m ∷ []) (sublist-refl _))
          ]) in
      rw
        (append_assoc (sending_items (sender_of c n.senders)) (queue_items (queue_of c n.queues))
          (message m ∷ []))
        (sublist-append (sublist-refl _) items)

  pub pending-broadcast_local :
      (connected : Socket → Bool) (m : M) (c : Socket) (n : Notifier M)
      → IsConsistent n
      → Sublistᴰ (outstanding c (broadcast_local connected m n)) (outstanding c n ++ message m ∷ [])
  pending-broadcast_local connected m c n h =
      let items : Sublistᴰ (queue_items (queue_of c (broadcast_local connected m n).queues))
          (queue_items (queue_of c n.queues) ++ message m ∷ []) =
        rw (queue_of-broadcast_local connected m c n h) (elim (Bool-cases (connected c)) [
          | inl on ↦ rw on (items-push_latest m (queue_of c n.queues))
          | inr off ↦ rw off (sublist-nil _)
        ]) in
      let sending : Sublistᴰ (sending_items (sender_of c (broadcast_local connected m n).senders))
          (sending_items (sender_of c n.senders)) =
        unfold broadcast_local offer_section in
        sending-disconnect_all c (offer_all connected m n.connections n.queues).0
          (record n { queues = (offer_all connected m n.connections n.queues).1 }) in
      rw
        (append_assoc (sending_items (sender_of c n.senders)) (queue_items (queue_of c n.queues))
          (message m ∷ []))
        (sublist-append sending items)

  pending-begin :
      (c k : Socket) (q : ClientQueue M) (t : Sender M) (items : List (Item M)) (n : Notifier M)
      → queue_of k n.queues ≡ some q
      → items ≡ q.items
      → sender_of k n.senders ≡ some t
      → t.sending ≡ none
      → Sublistᴰ (outstanding c (begin k q items n)) (outstanding c n)
  pending-begin c k q t [] n found all driven idle = sublist-refl _
  pending-begin c k q t (stop ∷ rest) n found all driven idle =
      rw (find-remove (λ (t : Sender M). t.socket) k c n.senders) (elim (Bool-cases (k == c)) [
        | inl same ↦ rw same (sublist-append (sublist-nil _) (sublist-refl _))
        | inr other ↦ rw other (sublist-refl _)
      ])
  pending-begin c k q t (message m ∷ rest) n found all driven idle =
      let left : ClientQueue M = record q { items = rest } in
      let task : Sender M = record { socket = k; sending = some m } in
      let key = key-find (λ (q : ClientQueue M). q.socket) k n.queues found in
      rw (find-put (λ (t : Sender M). t.socket) c task n.senders) (
        rw (find-put (λ (q : ClientQueue M). q.socket) c left n.queues)
          (elim (Bool-cases (k == c)) [
            | inl same ↦
                let there = (==_iff k c).0 same in
                let before : outstanding c n ≡ message m ∷ rest =
                  subst (λ x. outstanding x n ≡ message m ∷ rest) there
                    (rw driven (rw idle (rw found (sym all)))) in
                rw before (rw key (rw same (sublist-refl _)))
            | inr other ↦ rw key (rw other (sublist-refl _))
          ]))

  pub pending-take_next :
      (c k : Socket) (n : Notifier M) → Sublistᴰ (outstanding c (take_next k n)) (outstanding c n)
  pending-take_next c k n = elim (take_next-cases k n) [
    | inl same ↦ rw same (sublist-refl _)
    | inr (q, t, found, driven, idle, e) ↦
        rw e (pending-begin c k q t q.items n found refl driven idle)
  ]

  -- The end of a send delivers at most what was being sent.
  pub pending-finish :
      (c k : Socket) (outcome : SendOutcome) (n : Notifier M)
      → Sublistᴰ
          (delivery c (sends k outcome) n ++ outstanding c (finish k outcome n))
          (outstanding c n)
  unfolding delivery
  pending-finish c k SendOutcome.send_timed_out n = pending-unregister c k n
  pending-finish c k SendOutcome.send_failed n = pending-unregister c k n
  pending-finish c k SendOutcome.delivered n =
      let task : Sender M = record { socket = k; sending = none } in
      rw (find-put (λ (t : Sender M). t.socket) c task n.senders) (elim (Bool-cases (k == c)) [
        | inl same ↦ rw same (sublist-refl _)
        | inr other ↦ rw other (sublist-refl _)
      ])
