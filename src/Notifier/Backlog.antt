-- ===== src/Notifier/Backlog.antt =====
-- What a client that does not read keeps of the broadcasts.
use naicha_backend.Notifier.{
  ClientQueue, Event, Notifier, Socket, broadcast_local, broadcasts, happen, message, run,
}
use naicha_backend.Notifier.Consistent.{IsConsistent, IsLive, queue_of}
use naicha_backend.Notifier.Latest.{latest, latest-append, latest-short}
use naicha_backend.Notifier.Offered.{push_latest, queue_of-broadcast_local}
use naicha_backend.Notifier.Runs.{happen-IsConsistent}
use naicha_backend.Prelude.{
  Bool, List, [], ap, append-nil, append_assoc, map, some, sym, true, ℕ, ◌++◌, ◌∙◌, ◌∷◌, ◌≡◌,
}
use naicha_backend.Table.{All-find, map_some}

module _ {M : Type 0} where
  abbrev pub broadcast_each : (Socket → Bool) → List M → List (Event M)
  broadcast_each connected [] = []
  broadcast_each connected (m ∷ ms) = broadcasts connected m ∷ broadcast_each connected ms

  -- However many messages are broadcast before the task of a connected client takes the next one,
  -- its queue holds the latest messages, as many as its bound allows, of what it held before and
  -- the broadcasts in their order; the client stays registered.
  pub run-backlog :
      (buffer_size : ℕ) (connected : Socket → Bool) (ms : List M) (c : Socket) (n : Notifier M)
      (q : ClientQueue M)
      → IsConsistent n
      → connected c ≡ true
      → queue_of c n.queues ≡ some q
      → queue_of c (run buffer_size (broadcast_each connected ms) n).queues
        ≡ some (record q { items = latest q.maxsize (q.items ++ map message ms) })
  unfolding run happen
  run-backlog buffer_size connected [] c n q h on found =
      let live = All-find (λ (q : ClientQueue M). q.socket) IsLive c n.queues h.live found in
      found
      ∙ ap (λ items. some (record q { items = items }))
          (sym (latest-short q.maxsize q.items live.1)
            ∙ ap (latest q.maxsize) (sym (append-nil q.items)))
  run-backlog buffer_size connected (m ∷ ms) c n q h on found =
      let taken : queue_of c (broadcast_local connected m n).queues ≡ some (push_latest m q) =
        queue_of-broadcast_local connected m c n h ∙ rw on (ap (map_some (push_latest m)) found) in
      run-backlog buffer_size connected ms c (broadcast_local connected m n) (push_latest m q)
        (happen-IsConsistent buffer_size (broadcasts connected m) n h) on taken
      ∙ ap (λ items. some (record q { items = items }))
          (latest-append q.maxsize (q.items ++ message m ∷ []) (map message ms)
            ∙ ap (latest q.maxsize) (append_assoc q.items (message m ∷ []) (map message ms)))
