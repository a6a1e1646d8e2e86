-- ===== src/Notifier/Consistent.antt =====
-- The three tables of a notifier go together, and no queue is over its bound.
use naicha_backend.Notifier.{
  ClientQueue, Item, Notifier, Replaced, SendOutcome, Sender, Socket, add, discard, disconnect_all,
  finish_replaced, message, register, replaced_at, send_replaced, stop, take_replaced, unregister,
}
use naicha_backend.Prelude.{
  ==_iff, All, Bool, Bool-cases, List, Option, Option-cases, [], arith, contains, false,
  if◌then◌else◌, inl, inr, is_some, length, max, none, refl, true, ℕ, ◌++◌, ◌<◌, ◌==◌, ◌||◌, ◌∷◌,
  ◌≡◌, ◌≤◌,
}
use naicha_backend.Table.{All-put, All-remove, find, find-put, find-remove}

-- No socket stands twice in a set.
abbrev pub Distinct : List Socket → Type 0
Distinct [] = Unit
Distinct (c ∷ cs) = (contains c cs ≡ false) × Distinct cs

module _ {M : Type 0} where
  abbrev pub is_message : Item M → Bool
  is_message (message m) = true
  is_message stop = false

  -- A queue in the tables is within its bound and holds no `_QUEUE_STOP`.
  abbrev pub IsLive : ClientQueue M → Type 0
  IsLive q =
      (0 < q.maxsize)
      × (length q.items ≤ q.maxsize)
      × All (λ (i : Item M). is_message i ≡ true) q.items

  abbrev pub queue_of : Socket → List (ClientQueue M) → Option (ClientQueue M)
  queue_of c queues = find (λ (q : ClientQueue M). q.socket) c queues

  abbrev pub sender_of : Socket → List (Sender M) → Option (Sender M)
  sender_of c senders = find (λ (t : Sender M). t.socket) c senders

  pub record IsConsistent (n : Notifier M) : Type 0 where
    pub distinct : Distinct n.connections
    pub queued : (c : Socket) → is_some (queue_of c n.queues) ≡ contains c n.connections
    pub driven : (c : Socket) → is_some (sender_of c n.senders) ≡ contains c n.connections
    pub live : All IsLive n.queues

pub contains-append-one :
    (k c : ℕ) (cs : List ℕ) → contains k (cs ++ c ∷ []) ≡ (contains k cs || k == c)
contains-append-one k c [] = ground arith
contains-append-one k c (x ∷ cs) = ground (arith, contains-append-one k c cs)

Distinct-append-one :
    (c : Socket) (cs : List Socket) → contains c cs ≡ false → Distinct cs → Distinct (cs ++ c ∷ [])
Distinct-append-one c [] new d = (refl, tt)
Distinct-append-one c (x ∷ cs) new d = (
  ground (arith, contains-append-one x c cs, new, d.0),
  Distinct-append-one c cs (ground (arith, new)) d.1,
)

contains-add : (k c : Socket) (cs : List Socket) → contains k (add c cs) ≡ (contains k cs || k == c)
contains-add k c cs = elim (Bool-cases (contains c cs)) [
  | inl old ↦ rw old (ground (arith, old, ==_iff k c))
  | inr new ↦ rw new (contains-append-one k c cs)
]

Distinct-add : (c : Socket) (cs : List Socket) → Distinct cs → Distinct (add c cs)
Distinct-add c cs d = elim (Bool-cases (contains c cs)) [
  | inl old ↦ rw old d
  | inr new ↦ rw new (Distinct-append-one c cs new d)
]

pub contains-discard :
    (k c : Socket) (cs : List Socket)
    → contains k (discard c cs) ≡ (if k == c then false else contains k cs)
unfolding discard
contains-discard k c [] = ground arith
contains-discard k c (x ∷ cs) = ground (arith, contains-discard k c cs)

Distinct-discard : (c : Socket) (cs : List Socket) → Distinct cs → Distinct (discard c cs)
unfolding discard
Distinct-discard c [] d = tt
Distinct-discard c (x ∷ cs) d = elim (Bool-cases (x == c)) [
  | inl here ↦ rw here (Distinct-discard c cs d.1)
  | inr there ↦ rw there (ground (arith, contains-discard x c cs, d.0), Distinct-discard c cs d.1)
]

module _ {M : Type 0} where
  pub register-IsConsistent :
      (buffer_size : ℕ) (c : Socket) (n : Notifier M)
      → IsConsistent n
      → IsConsistent (register buffer_size c n)
  unfolding register
  register-IsConsistent buffer_size c n h = record {
    distinct = Distinct-add c n.connections h.distinct;
    queued = λ k. ground (
      arith,
      find-put (λ (q : ClientQueue M). q.socket) k
          (record { socket = c; maxsize = max buffer_size 1; items = [] }) n.queues,
      contains-add k c n.connections,
      h.queued k,
    );
    driven = λ k. ground (
      arith,
      find-put (λ (t : Sender M). t.socket) k (record { socket = c; sending = none }) n.senders,
      contains-add k c n.connections,
      h.driven k,
    );
    live =
        All-put (λ (q : ClientQueue M). q.socket) IsLive
          (record { socket = c; maxsize = max buffer_size 1; items = [] }) n.queues
          (omega arith, omega arith, tt) h.live;
  }

  pub unregister-IsConsistent :
      (c : Socket) (n : Notifier M) → IsConsistent n → IsConsistent (unregister c n)
  unfolding unregister
  unregister-IsConsistent c n h = record {
    distinct = Distinct-discard c n.connections h.distinct;
    queued = λ k. ground (
      arith,
      find-remove (λ (q : ClientQueue M). q.socket) c k n.queues,
      contains-discard k c n.connections,
      h.queued k,
    );
    driven = λ k. ground (
      arith,
      find-remove (λ (t : Sender M). t.socket) c k n.senders,
      contains-discard k c n.connections,
      h.driven k,
    );
    live = All-remove (λ (q : ClientQueue M). q.socket) IsLive c n.queues h.live;
  }

  pub disconnect_all-IsConsistent :
      (cs : List Socket) (n : Notifier M) → IsConsistent n → IsConsistent (disconnect_all cs n)
  unfolding disconnect_all
  disconnect_all-IsConsistent [] n h = h
  disconnect_all-IsConsistent (c ∷ cs) n h =
      disconnect_all-IsConsistent cs (unregister c n) (unregister-IsConsistent c n h)

  replaced-IsConsistent :
      (ts : List (Replaced M)) (n : Notifier M)
      → IsConsistent n
      → IsConsistent (record n { replaced = ts })
  replaced-IsConsistent ts n h = record {
    distinct = h.distinct;
    queued = h.queued;
    driven = h.driven;
    live = h.live;
  }

  pub take_replaced-IsConsistent :
      (k : ℕ) (n : Notifier M) → IsConsistent n → IsConsistent (take_replaced k n)
  unfolding take_replaced
  take_replaced-IsConsistent k n h = elim (Option-cases (replaced_at k n.replaced)) [
    | inl missing ↦ rw (missing, take_replaced) h
    | inr (t, found) ↦ rw (found, take_replaced) (replaced-IsConsistent _ n h)
  ]

  finish_replaced-IsConsistent :
      (k : ℕ) (t : Replaced M) (outcome : SendOutcome) (n : Notifier M)
      → IsConsistent n
      → IsConsistent (finish_replaced k t outcome n)
  finish_replaced-IsConsistent k t SendOutcome.delivered n h = replaced-IsConsistent _ n h
  finish_replaced-IsConsistent k t SendOutcome.send_timed_out n h =
      unregister-IsConsistent t.socket _ (replaced-IsConsistent _ n h)
  finish_replaced-IsConsistent k t SendOutcome.send_failed n h =
      unregister-IsConsistent t.socket _ (replaced-IsConsistent _ n h)

  pub send_replaced-IsConsistent :
      (k : ℕ) (outcome : SendOutcome) (n : Notifier M)
      → IsConsistent n
      → IsConsistent (send_replaced k outcome n)
  unfolding send_replaced
  send_replaced-IsConsistent k outcome n h = elim (Option-cases (replaced_at k n.replaced)) [
    | inl missing ↦ rw (missing, send_replaced) h
    | inr (t, found) ↦ elim (Option-cases t.sending) [
      | inl idle ↦ rw (found, send_replaced) (rw (idle, send_replaced) h)
      | inr (m, busy) ↦
          rw (found, send_replaced)
            (rw (busy, send_replaced) (finish_replaced-IsConsistent k t outcome n h))
    ]
  ]
