-- ===== src/Notifier/FirstTime.antt =====
-- A notifier in which no socket is registered again has no task that was replaced.
use naicha_backend.Notifier.{
  ClientQueue, Event, Item, Notifier, SendOutcome, Socket, begin, broadcast_local, broadcasts,
  disconnect_all, finish, finish_send, happen, left_behind, message, offer_section, offers,
  register, registers, replaced_at, replaced_sends, replaced_takes, send_replaced, sends, stop,
  take_next, take_replaced, takes, unregister, unregisters,
}
use naicha_backend.Notifier.Consistent.{IsConsistent}
use naicha_backend.Notifier.Pending.{delivery, outstanding}
use naicha_backend.Notifier.Runs.{finish_send-cases, take_next-cases}
use naicha_backend.Prelude.{
  Bool, List, Sublistᴰ, [], ap, arith, contains, false, inl, inr, none, refl, sublist-refl, ℕ, ◌++◌,
  ◌∙◌, ◌∷◌, ◌≡◌,
}

module _ {M : Type 0} where
  replaced_at-none : (k : ℕ) (n : Notifier M) → n.replaced ≡ [] → replaced_at k n.replaced ≡ none
  unfolding replaced_at
  replaced_at-none k n no_task = rw no_task refl

  send_replaced-none :
      (k : ℕ) (outcome : SendOutcome) (n : Notifier M)
      → n.replaced ≡ []
      → send_replaced k outcome n ≡ n
  unfolding send_replaced
  send_replaced-none k outcome n no_task = rw (replaced_at-none k n no_task, send_replaced) refl

  take_replaced-none : (k : ℕ) (n : Notifier M) → n.replaced ≡ [] → take_replaced k n ≡ n
  unfolding take_replaced
  take_replaced-none k n no_task = rw (replaced_at-none k n no_task, take_replaced) refl

  disconnect_all-replaced :
      (cs : List Socket) (n : Notifier M) → (disconnect_all cs n).replaced ≡ n.replaced
  unfolding disconnect_all unregister
  disconnect_all-replaced [] n = refl
  disconnect_all-replaced (c ∷ cs) n = disconnect_all-replaced cs (unregister c n)

  broadcast_local-replaced :
      (connected : Socket → Bool) (m : M) (n : Notifier M)
      → (broadcast_local connected m n).replaced ≡ n.replaced
  unfolding broadcast_local offer_section
  broadcast_local-replaced connected m n =
      let (stale, n') = offer_section connected m n in disconnect_all-replaced stale n'

  begin-replaced :
      (c : Socket) (q : ClientQueue M) (items : List (Item M)) (n : Notifier M)
      → (begin c q items n).replaced ≡ n.replaced
  begin-replaced c q [] n = refl
  begin-replaced c q (stop ∷ rest) n = refl
  begin-replaced c q (message m ∷ rest) n = refl

  take_next-replaced : (c : Socket) (n : Notifier M) → (take_next c n).replaced ≡ n.replaced
  take_next-replaced c n = elim (take_next-cases c n) [
    | inl same ↦ ap (λ (n : Notifier M). n.replaced) same
    | inr (q, t, found, driven, idle, e) ↦
        ap (λ (n : Notifier M). n.replaced) e ∙ begin-replaced c q q.items n
  ]

  finish-replaced :
      (c : Socket) (outcome : SendOutcome) (n : Notifier M)
      → (finish c outcome n).replaced ≡ n.replaced
  unfolding unregister
  finish-replaced c SendOutcome.delivered n = refl
  finish-replaced c SendOutcome.send_timed_out n = refl
  finish-replaced c SendOutcome.send_failed n = refl

  finish_send-replaced :
      (c : Socket) (outcome : SendOutcome) (n : Notifier M)
      → (finish_send c outcome n).replaced ≡ n.replaced
  finish_send-replaced c outcome n = elim (finish_send-cases c outcome n) [
    | inl same ↦ ap (λ (n : Notifier M). n.replaced) same
    | inr (t, driven, e) ↦ ap (λ (n : Notifier M). n.replaced) e ∙ finish-replaced c outcome n
  ]

  delivery-none :
      (c k : ℕ) (outcome : SendOutcome) (n : Notifier M)
      → n.replaced ≡ []
      → delivery c (replaced_sends k outcome) n ≡ []
  unfolding delivery
  delivery-none c k SendOutcome.delivered n no_task = rw (replaced_at-none k n no_task) refl
  delivery-none c k SendOutcome.send_timed_out n no_task = refl
  delivery-none c k SendOutcome.send_failed n no_task = refl

  pub pending-send_replaced :
      (c k : ℕ) (outcome : SendOutcome) (n : Notifier M)
      → n.replaced ≡ []
      → Sublistᴰ
          (delivery c (replaced_sends k outcome) n ++ outstanding c (send_replaced k outcome n))
          (outstanding c n)
  pending-send_replaced c k outcome n no_task =
      rw (delivery-none c k outcome n no_task)
        (rw (send_replaced-none k outcome n no_task) (sublist-refl _))

  pub pending-take_replaced :
      (c k : ℕ) (n : Notifier M)
      → n.replaced ≡ []
      → Sublistᴰ (outstanding c (take_replaced k n)) (outstanding c n)
  pending-take_replaced c k n no_task = rw (take_replaced-none k n no_task) (sublist-refl _)

  -- Whether an event registers a socket that is connected.
  abbrev pub registers_again : Event M → Notifier M → Bool
  registers_again (registers k) n = contains k n.connections
  registers_again (unregisters k) n = false
  registers_again (takes k) n = false
  registers_again (offers connected m) n = false
  registers_again (broadcasts connected m) n = false
  registers_again (sends k outcome) n = false
  registers_again (replaced_takes k) n = false
  registers_again (replaced_sends k outcome) n = false

  module _ (buffer_size : ℕ) where
    pub happen-replaced :
        (e : Event M) (n : Notifier M)
        → IsConsistent n
        → registers_again e n ≡ false
        → n.replaced ≡ []
        → (happen buffer_size e n).replaced ≡ []
    unfolding happen register left_behind unregister offer_section
    happen-replaced (registers k) n h new no_task = ground (arith, h.queued k, new, no_task)
    happen-replaced (unregisters k) n h new no_task = no_task
    happen-replaced (takes k) n h new no_task = take_next-replaced k n ∙ no_task
    happen-replaced (offers connected m) n h new no_task = no_task
    happen-replaced (broadcasts connected m) n h new no_task =
        broadcast_local-replaced connected m n ∙ no_task
    happen-replaced (sends k outcome) n h new no_task = finish_send-replaced k outcome n ∙ no_task
    happen-replaced (replaced_takes k) n h new no_task =
        ap (λ (n : Notifier M). n.replaced) (take_replaced-none k n no_task) ∙ no_task
    happen-replaced (replaced_sends k outcome) n h new no_task =
        ap (λ (n : Notifier M). n.replaced) (send_replaced-none k outcome n no_task) ∙ no_task
