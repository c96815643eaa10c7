-- ===== src/Stream/Channel/Sender.antt =====
-- internal/stream/channel.go: a round of the sender goroutine, and one of the receiver's.
use gorums_ata.Base.{ℕ, Bool, ◌&&◌, Option, none, some, ◌==◌, if◌then◌else◌, is_some, ℤ}
use gorums_ata.Errors.{Err, atom, stream_down}
use gorums_ata.Stream.Types.{
  Message, Status, Request, want_server_response, want_send_confirmation, Run, ok, ◌>>=◌,
}
use gorums_ata.Stream.Deliver.{World, deliver}
use gorums_ata.Stream.Router.{register, route_message}
use gorums_ata.Stream.Channel.{
  Net, ensure_stream, clear_stream, set_last_err, reply, requeue_pending_msgs, push_dispatch,
}

-- What the environment answers in a round of the sender: the state of the connection, the error of
-- `NodeStream` and of `Send`, the error of the request's context when `Send` returns, and whether
-- the callback of `context.AfterFunc` ran before.
pub record Answers : Type 0 where
  pub ready : Bool
  pub dial : Option Err
  pub sent : Option Err
  pub done : Option Err
  pub called_back : Bool

-- The callback of `AfterFunc`; the receiver does the same when its stream fails.
unfoldable pub abandon : Net → ℕ → Run Net
unfolding clear_stream
abandon n s =
    let (c, won) = clear_stream n.chan s in
    let cleared = record n { chan = c } in if won then requeue_pending_msgs cleared else ok cleared

-- `ctx.Err()` has become `e`, if there is one.
abbrev pub expire : World → ℕ → Option Err → World
expire w ctx e = record w { ctx_err = λ i. if ctx == i && is_some e then e else w.ctx_err i }

abbrev pub or_else : Option Err → Err → Err
or_else none e = e
or_else (some d) e = d

-- The branch of a failed `Send`.
unfoldable pub send_failed : Net → ℕ → Request → Err → Run Net
unfolding clear_stream
send_failed n s req e =
    let cleared = (clear_stream (set_last_err n.chan e) s).0 in
    requeue_pending_msgs (record n { chan = cleared }) >>= λ n'.
    if want_server_response req then ok n' else reply n' req (or_else (n'.world.ctx_err req.ctx) e)

-- What follows a successful `Send`.
unfoldable pub confirm : Net → Request → Run Net
confirm n req =
    let sent = deliver n.world req (record { node_id = n.chan.id; value = none; err = none }) in
    if want_send_confirmation req then sent >>= (λ d. ok (record n { world = d.0 })) else ok n

abbrev pub register_request : Net → Request → Net
register_request n req =
    if want_server_response req
    then record n { router = register n.world.clock n.router req.msg.seq_no req }
    else n

-- The part of a round from the registration on, with stream `s`.
unfoldable pub transmit : Net → ℕ → Request → Answers → Run Net
unfolding abandon send_failed confirm
transmit n s req a =
    let n₁ = register_request n req in
    let n₂ = record n₁ { world = expire n₁.world req.ctx a.done } in
    (if a.called_back && is_some a.done then abandon n₂ s else ok n₂) >>= λ n₃. elim a.sent [
      | some e ↦ send_failed n₃ s req e
      | none ↦ confirm n₃ req
    ]

-- A round of `sender` with the request that it took.
unfoldable pub sender_round : Net → Request → Answers → Run Net
unfolding transmit
sender_round n req a =
    let (c, err) = ensure_stream a.ready a.dial n.chan in
    let n₁ = record n { chan = c } in
    elim err [
      | some e ↦ reply n₁ req e
      | none ↦ elim (n.world.ctx_err req.ctx) [
        | some e ↦ reply n₁ req e
        | none ↦ elim c.stream [
          | none ↦ reply n₁ req (atom stream_down)
          | some s ↦ transmit n₁ s req a
        ]
      ]
    ]

-- The branch of `receiver` where `Recv` on stream `s` failed.
unfoldable pub receive_failed : Net → ℕ → Err → Run Net
unfolding abandon
receive_failed n s e = abandon (record n { chan = set_last_err n.chan e }) s

module _ (error_proto : Status → Option Err) (average : ℤ → ℤ → ℤ) where
  -- The branch of `receiver` where `Recv` returned a message.
  unfoldable pub receive_message : Net → Message → Run Net
  receive_message n m = route_message error_proto average n.world n.router n.chan.id m >>= λ r.
      ok (record n { world = r.0; router = r.1; started = push_dispatch n.started r.2 })
