-- ===== src/Stream/Channel/Steps.antt =====
-- internal/stream/channel.go: the goroutines of a channel as steps, in any order.
use gorums_ata.Base.{ℕ, zero, suc, true, Option, none, some, List, [], ◌∷◌, if◌then◌else◌, ℤ}
use gorums_ata.Errors.{Err}
use gorums_ata.Stream.Types.{Message, Status, Request, Run, ok, ◌>>=◌}
use gorums_ata.Stream.Channel.{Net, enqueue, drain_send_q, close}
use gorums_ata.Stream.Channel.Sender.{
  Answers, abandon, expire, sender_round, receive_failed, receive_message,
}

-- A step of a caller, the sender, the receiver, a requeueing goroutine, a callback of `AfterFunc`
-- that runs late, the sender's exit, `Close`, or the environment.
pub data Event : Type 0 where
  enqueues : Request → Event
  sends : Answers → Event
  receives : Message → Event
  fails : ℕ → Err → Event
  retries : ℕ → Event
  calls_back : ℕ → Event
  exits closes parent_done : Event
  expires : ℕ → Err → Event

-- The entry at an index, and the list without it.
unfoldable pub pick : ℕ → List Request → Option (Request × List Request)
pick i [] = none
pick zero (r ∷ rs) = some (r, rs)
pick (suc i) (r ∷ rs) = elim (pick i rs) [ none ↦ none | some (q, rest) ↦ some (q, r ∷ rest) ]

-- The sender takes the oldest request of `sendQ`, if there is one.
unfoldable pub take_request : Net → List Request → Answers → Run Net
take_request n [] a = ok n
take_request n (req ∷ rest) a =
    sender_round (record n { chan = record n.chan { send_q = rest } }) req a

module _ (error_proto : Status → Option Err) (average : ℤ → ℤ → ℤ) where
  -- An event that is not enabled changes nothing.
  unfoldable pub step : Net → Event → Run Net
  unfolding take_request
  step n (enqueues req) = enqueue n req
  step n (sends a) = take_request n n.chan.send_q a
  step n (receives m) = receive_message error_proto average n m
  step n (fails s e) = receive_failed n s e
  step n (retries i) = elim (pick i n.chan.retries) [
    | none ↦ ok n
    | some (req, rest) ↦ enqueue (record n { chan = record n.chan { retries = rest } }) req
  ]
  step n (calls_back s) = abandon n s
  step n exits = if n.chan.closed then drain_send_q n else ok n
  step n closes = close n
  step n parent_done = ok (record n { chan = record n.chan { closed = true } })
  step n (expires ctx e) = ok (record n { world = expire n.world ctx (some e) })

  unfoldable pub run : Net → List Event → Run Net
  unfolding step
  run n [] = ok n
  run n (e ∷ es) = step n e >>= λ n'. run n' es
