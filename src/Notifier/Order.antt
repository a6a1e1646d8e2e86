-- ===== src/Notifier/Order.antt =====
-- What a client receives of the broadcasts, in which order.
use naicha_backend.Notifier.{
  Event, Notifier, SendOutcome, Socket, broadcasts, finish, finish_send, happen, offers, registers,
  replaced_sends, replaced_takes, run, sending_of, sends, takes, unregisters,
}
use naicha_backend.Notifier.Consistent.{IsConsistent, sender_of}
use naicha_backend.Notifier.FirstTime.{
  happen-replaced, pending-send_replaced, pending-take_replaced, registers_again,
}
use naicha_backend.Notifier.Pending.{
  announced, delivery, outstanding, pending-broadcast_local, pending-finish, pending-offer_section,
  pending-register, pending-take_next, pending-unregister, received, sending_items,
}
use naicha_backend.Notifier.Runs.{happen-IsConsistent}
use naicha_backend.Prelude.{
  ==_iff, Bool-cases, List, Option-cases, Sublistᴰ, [], append_assoc, arith, false, inl, inr, none,
  refl, some, sublist-append, sublist-extend, sublist-refl, sublist-trans, subst, ℕ, ◌++◌, ◌==◌,
  ◌∷◌, ◌≡◌,
}

module _ {M : Type 0} where
  finish_send-idle :
      (k : Socket) (outcome : SendOutcome) (n : Notifier M)
      → sending_of k n ≡ none
      → finish_send k outcome n ≡ n
  unfolding finish_send
  finish_send-idle k outcome n idle = ground (arith, idle)

  finish_send-busy :
      (k : Socket) (outcome : SendOutcome) (n : Notifier M) {m : M}
      → sending_of k n ≡ some m
      → finish_send k outcome n ≡ finish k outcome n
  unfolding finish_send
  finish_send-busy k outcome n busy = ground (arith, busy)

  sending_items-idle :
      (k : Socket) (n : Notifier M)
      → sending_of k n ≡ none
      → sending_items (sender_of k n.senders) ≡ []
  unfolding sending_of
  sending_items-idle k n idle = ground (arith, idle)

  delivery-idle :
      (c k : Socket) (outcome : SendOutcome) (n : Notifier M)
      → sending_of k n ≡ none
      → delivery c (sends k outcome) n ≡ []
  unfolding delivery
  delivery-idle c k SendOutcome.send_timed_out n idle = refl
  delivery-idle c k SendOutcome.send_failed n idle = refl
  delivery-idle c k SendOutcome.delivered n idle = elim (Bool-cases (k == c)) [
    | inl same ↦ rw same (
        subst (λ x. sending_items (sender_of x n.senders) ≡ []) ((==_iff k c).0 same)
          (sending_items-idle k n idle))
    | inr other ↦ rw other refl
  ]

  pending-finish_send :
      (c k : Socket) (outcome : SendOutcome) (n : Notifier M)
      → Sublistᴰ
          (delivery c (sends k outcome) n ++ outstanding c (finish_send k outcome n))
          (outstanding c n)
  pending-finish_send c k outcome n = elim (Option-cases (sending_of k n)) [
    | inl idle ↦
        rw (finish_send-idle k outcome n idle)
          (rw (delivery-idle c k outcome n idle) (sublist-refl _))
    | inr (m, busy) ↦ rw (finish_send-busy k outcome n busy) (pending-finish c k outcome n)
  ]

  module _ (buffer_size : ℕ) where
    pending-happen :
        (c : Socket) (e : Event M) (n : Notifier M)
        → IsConsistent n
        → n.replaced ≡ []
        → Sublistᴰ
            (delivery c e n ++ outstanding c (happen buffer_size e n))
            (outstanding c n ++ announced (e ∷ []))
    unfolding happen delivery announced
    pending-happen c (registers k) n h no_task =
        sublist-extend [] (pending-register buffer_size c k n)
    pending-happen c (unregisters k) n h no_task = sublist-extend [] (pending-unregister c k n)
    pending-happen c (takes k) n h no_task = sublist-extend [] (pending-take_next c k n)
    pending-happen c (offers connected m) n h no_task = pending-offer_section connected m c n h
    pending-happen c (broadcasts connected m) n h no_task =
        pending-broadcast_local connected m c n h
    pending-happen c (sends k outcome) n h no_task =
        sublist-extend [] (pending-finish_send c k outcome n)
    pending-happen c (replaced_takes k) n h no_task =
        sublist-extend [] (pending-take_replaced c k n no_task)
    pending-happen c (replaced_sends k outcome) n h no_task =
        sublist-extend [] (pending-send_replaced c k outcome n no_task)

    announced-cons :
        (e : Event M) (es : List (Event M))
        → announced (e ∷ es) ≡ announced (e ∷ []) ++ announced es
    unfolding announced
    announced-cons (registers k) es = refl
    announced-cons (unregisters k) es = refl
    announced-cons (takes k) es = refl
    announced-cons (offers connected m) es = refl
    announced-cons (broadcasts connected m) es = refl
    announced-cons (sends k outcome) es = refl
    announced-cons (replaced_takes k) es = refl
    announced-cons (replaced_sends k outcome) es = refl

    abbrev pub IsFirstTime : List (Event M) → Notifier M → Type 0
    IsFirstTime [] n = Unit
    IsFirstTime (e ∷ es) n = (registers_again e n ≡ false) × IsFirstTime es (happen buffer_size e n)

    -- In every order of events that registers no socket that is connected, and where no task was
    -- replaced before: what a socket receives and then has still to get is what it had to get at first
    -- and the broadcasts after that, in the order of the broadcasts and each at most once; some may be
    -- missing.
    pub received-in_order :
        (c : Socket) (es : List (Event M)) (n : Notifier M)
        → IsConsistent n
        → IsFirstTime es n
        → n.replaced ≡ []
        → Sublistᴰ
            (received buffer_size c es n ++ outstanding c (run buffer_size es n))
            (outstanding c n ++ announced es)
    unfolding received run
    received-in_order c [] n h new no_task = sublist-extend (announced []) (sublist-refl _)
    received-in_order c (e ∷ es) n h new no_task =
        let now = delivery c e n in
        let later = received buffer_size c es (happen buffer_size e n) in
        let end = outstanding c (run buffer_size es (happen buffer_size e n)) in
        let rest =
          received-in_order c es (happen buffer_size e n) (happen-IsConsistent buffer_size e n h)
            new.1 (happen-replaced buffer_size e n h new.0 no_task) in
        let first = sublist-append (pending-happen c e n h no_task) (sublist-refl (announced es)) in
        rw (append_assoc now later end) (
          rw (announced-cons e es) (
            rw (← append_assoc (outstanding c n) (announced (e ∷ [])) (announced es)) (
              sublist-trans first (
                rw (append_assoc now (outstanding c (happen buffer_size e n)) (announced es))
                  (sublist-append (sublist-refl now) rest)))))
