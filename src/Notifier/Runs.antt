-- ===== src/Notifier/Runs.antt =====
-- Every sequence of events keeps the tables of a notifier together and its queues within their bounds.
use naicha_backend.Notifier.{
  ClientQueue, Event, Item, Notifier, SendOutcome, Sender, Socket, begin, broadcast_local,
  broadcasts, finish, finish_send, happen, message, offer_section, offers, registers,
  replaced_sends, replaced_takes, run, sends, stop, take_next, takes, unregisters,
}
use naicha_backend.Notifier.Consistent.{
  IsConsistent, IsLive, disconnect_all-IsConsistent, is_message, queue_of, register-IsConsistent,
  send_replaced-IsConsistent, sender_of, take_replaced-IsConsistent, unregister-IsConsistent,
}
use naicha_backend.Notifier.Offered.{All-offer_all, queue_of-offer_all}
use naicha_backend.Prelude.{
  ==_iff, All, Bool, List, Option, Option-cases, [], ap, arith, inl, inr, is_some, length, none,
  refl, some, true, ℕ, ◌∷◌, ◌≡◌, ◌≤◌, ◌⊎◌,
}
use naicha_backend.Table.{All-find, All-put, find-put, key-find, put}

module _ {M : Type 0} where
  offer_section-IsConsistent :
      (connected : Socket → Bool) (m : M) (n : Notifier M)
      → IsConsistent n
      → IsConsistent (offer_section connected m n).1
  unfolding offer_section
  offer_section-IsConsistent connected m n h = record {
    distinct = h.distinct;
    queued = λ k. ground (
      arith,
      queue_of-offer_all connected m k n.connections n.queues h.distinct h.live,
      h.queued k,
    );
    driven = h.driven;
    live = All-offer_all connected m n.connections n.queues h.live;
  }

  broadcast_local-IsConsistent :
      (connected : Socket → Bool) (m : M) (n : Notifier M)
      → IsConsistent n
      → IsConsistent (broadcast_local connected m n)
  unfolding broadcast_local
  broadcast_local-IsConsistent connected m n h =
      let (stale, n') = offer_section connected m n in
      disconnect_all-IsConsistent stale n' (offer_section-IsConsistent connected m n h)

  -- A task that is there again in another state.
  resume :
      (c : Socket) (sending : Option M) (n : Notifier M) {t : Sender M}
      → sender_of c n.senders ≡ some t
      → IsConsistent n
      → IsConsistent (record n {
        senders =
            put (λ (t : Sender M). t.socket) (record { socket = c; sending = sending }) n.senders;
      })
  resume c sending n found h = record {
    distinct = h.distinct;
    queued = h.queued;
    driven = λ k. ground (
      arith,
      find-put (λ (t : Sender M). t.socket) k (record { socket = c; sending = sending }) n.senders,
      ap is_some found,
      h.driven k,
      h.driven c,
      ==_iff c k,
      found,
    );
    live = h.live;
  }

  begin-IsConsistent :
      (c : Socket) (q : ClientQueue M) (t : Sender M) (items : List (Item M)) (n : Notifier M)
      → queue_of c n.queues ≡ some q
      → sender_of c n.senders ≡ some t
      → length items ≤ q.maxsize
      → All (λ (i : Item M). is_message i ≡ true) items
      → IsConsistent n
      → IsConsistent (begin c q items n)
  begin-IsConsistent c q t [] n found driven short live h = h
  begin-IsConsistent c q t (stop ∷ rest) n found driven short live h =
      absurd (ground (arith, live.0))
  begin-IsConsistent c q t (message m ∷ rest) n found driven short live h =
      resume c (some m)
        (record n {
          queues = put (λ (q : ClientQueue M). q.socket) (record q { items = rest }) n.queues;
        })
        driven
        (record {
          distinct = h.distinct;
          queued = λ k. ground (
            arith,
            find-put (λ (q : ClientQueue M). q.socket) k (record q { items = rest }) n.queues,
            h.queued k,
            ==_iff q.socket k,
            ap is_some found,
            key-find (λ (q : ClientQueue M). q.socket) c n.queues found,
          );
          driven = h.driven;
          live =
              All-put (λ (q : ClientQueue M). q.socket) IsLive (record q { items = rest }) n.queues
                (
                  (All-find (λ (q : ClientQueue M). q.socket) IsLive c n.queues h.live found).0,
                  omega (arith, short),
                  live.1,
                )
                h.live;
        })

  -- `take_next` leaves the notifier as it is, or begins with the head of the queue.
  pub take_next-cases :
      (c : Socket) (n : Notifier M)
      → (take_next c n ≡ n)
        ⊎ ((q : ClientQueue M) × (t : Sender M) × (queue_of c n.queues ≡ some q)
            × (sender_of c n.senders ≡ some t)
            × (t.sending ≡ none)
            × (take_next c n ≡ begin c q q.items n))
  unfolding take_next
  take_next-cases c n = elim (Option-cases (sender_of c n.senders)) [
    | inl missing ↦ inl (rw (missing, take_next) refl)
    | inr (t, driven) ↦ elim (Option-cases t.sending) [
      | inr (m, busy) ↦ inl (rw (driven, take_next) (rw (busy, take_next) refl))
      | inl idle ↦ elim (Option-cases (queue_of c n.queues)) [
        | inl missing ↦
            inl (rw (driven, take_next) (rw (idle, take_next) (rw (missing, take_next) refl)))
        | inr (q, found) ↦ inr (
          q,
          t,
          found,
          driven,
          idle,
          rw (driven, take_next) (rw (idle, take_next) (rw (found, take_next) refl)),
        )
      ]
    ]
  ]

  take_next-IsConsistent :
      (c : Socket) (n : Notifier M) → IsConsistent n → IsConsistent (take_next c n)
  take_next-IsConsistent c n h = elim (take_next-cases c n) [
    | inl same ↦ rw same h
    | inr (q, t, found, driven, idle, e) ↦
        let live = All-find (λ (q : ClientQueue M). q.socket) IsLive c n.queues h.live found in
        rw e (begin-IsConsistent c q t q.items n found driven live.1 live.2 h)
  ]

  -- `finish_send` does nothing for a task that is not sending.
  pub finish_send-cases :
      (c : Socket) (outcome : SendOutcome) (n : Notifier M)
      → (finish_send c outcome n ≡ n)
        ⊎ ((t : Sender M) × (sender_of c n.senders ≡ some t)
            × (finish_send c outcome n ≡ finish c outcome n))
  unfolding finish_send
  finish_send-cases c outcome n = elim (Option-cases (sender_of c n.senders)) [
    | inl missing ↦ inl (rw (missing, finish_send) refl)
    | inr (t, driven) ↦ elim (Option-cases t.sending) [
      | inl idle ↦ inl (rw (driven, finish_send) (rw (idle, finish_send) refl))
      | inr (m, busy) ↦ inr (t, driven, rw (driven, finish_send) (rw (busy, finish_send) refl))
    ]
  ]

  finish-IsConsistent :
      (c : Socket) (outcome : SendOutcome) (n : Notifier M) {t : Sender M}
      → sender_of c n.senders ≡ some t
      → IsConsistent n
      → IsConsistent (finish c outcome n)
  finish-IsConsistent c SendOutcome.delivered n driven h = resume c none n driven h
  finish-IsConsistent c SendOutcome.send_timed_out n driven h = unregister-IsConsistent c n h
  finish-IsConsistent c SendOutcome.send_failed n driven h = unregister-IsConsistent c n h

  module _ (buffer_size : ℕ) where
    pub happen-IsConsistent :
        (e : Event M) (n : Notifier M) → IsConsistent n → IsConsistent (happen buffer_size e n)
    unfolding happen
    happen-IsConsistent (registers c) n h = register-IsConsistent buffer_size c n h
    happen-IsConsistent (unregisters c) n h = unregister-IsConsistent c n h
    happen-IsConsistent (takes c) n h = take_next-IsConsistent c n h
    happen-IsConsistent (offers connected m) n h = offer_section-IsConsistent connected m n h
    happen-IsConsistent (broadcasts connected m) n h = broadcast_local-IsConsistent connected m n h
    happen-IsConsistent (sends c outcome) n h = elim (finish_send-cases c outcome n) [
      | inl same ↦ rw same h
      | inr (t, driven, e) ↦ rw e (finish-IsConsistent c outcome n driven h)
    ]
    happen-IsConsistent (replaced_takes k) n h = take_replaced-IsConsistent k n h
    happen-IsConsistent (replaced_sends k outcome) n h = send_replaced-IsConsistent k outcome n h

    -- In every order of registrations, disconnections, broadcasts and sends, the set of connections
    -- has no socket twice; exactly its sockets have a queue and a sender task; and every queue is
    -- within its bound, which is positive, and holds messages only.
    pub run-IsConsistent :
        (es : List (Event M)) (n : Notifier M)
        → IsConsistent n
        → IsConsistent (run buffer_size es n)
    unfolding run
    run-IsConsistent [] n h = h
    run-IsConsistent (e ∷ es) n h =
        run-IsConsistent es (happen buffer_size e n) (happen-IsConsistent e n h)
