-- ===== src/Stream/Channel.antt =====
-- internal/stream/channel.go: the channel to one node, with its sender and receiver goroutines.
-- A stream is a number; those that the channel makes are numbered upwards. `conn` and the network
-- are the environment: what they answer is an argument of the round that asks.
pub mod Sender
pub mod Steps
pub mod Ledger
pub mod Rounds
pub mod Receipts
pub mod Once
use gorums_ata.Base.{
  ℕ, suc, ◌+◌, ◌-◌, ◌/◌, Bool, true, false, ◌&&◌, ◌||◌, not, Option, none, some, List, [], ◌∷◌,
  ◌++◌, ◌==◌, if◌then◌else◌, is_some, is_none,
}
use gorums_ata.Errors.{Err, atom, node_closed, stream_down}
use gorums_ata.Stream.Types.{
  Message, Status, Request, Response, want_server_response, want_send_confirmation, Run, ok, blocks,
  panics, ◌>>=◌,
}
use gorums_ata.Stream.Deliver.{World, deliver, reply_error, reply_errors}
use gorums_ata.Stream.Router.{
  Router, Dispatch, cancel_pending, requeue_pending, register, dispatch_local_request,
}

-- `NewLocalChannel` leaves `sendQ` nil, `NewInboundChannel` has no `conn`, `NewOutboundChannel` has.
pub data Kind : Type 0 where
  local inbound outbound : Kind

-- `Channel`. `send_q` holds the requests in the buffer and, behind them, those of the goroutines
-- that wait to send; `closed` is whether `connCtx` is done. `cancelled` lists the streams whose
-- context was cancelled. `retries` holds what the goroutines of `requeuePendingMsgs` have still
-- to enqueue, and `close_ran` is whether `closeOnceFunc` has run.
pub record Channel : Type 0 where
  pub id : ℕ
  pub kind : Kind
  pub send_q : List Request
  pub closed : Bool
  pub last_error : Option Err
  pub stream : Option ℕ
  pub stream_ready : Bool
  pub cancelled : List ℕ
  pub next_stream : ℕ
  pub retries : List Request
  pub close_ran : Bool

-- `newChannel`
unfoldable pub new_channel : ℕ → Kind → Option ℕ → Channel
new_channel id kind stream = record {
  id = id;
  kind = kind;
  send_q = [];
  closed = false;
  last_error = none;
  stream = stream;
  stream_ready = is_some stream;
  cancelled = [];
  next_stream = 0;
  retries = [];
  close_ran = false;
}

-- `NewOutboundChannel`
unfoldable pub new_outbound_channel : ℕ → Channel
unfolding new_channel
new_outbound_channel id = new_channel id outbound none

-- `NewInboundChannel`
unfoldable pub new_inbound_channel : ℕ → ℕ → Channel
unfolding new_channel
new_inbound_channel id stream = new_channel id inbound (some stream)

-- `NewLocalChannel`
unfoldable pub new_local_channel : ℕ → Channel
unfolding new_channel
new_local_channel id = new_channel id local none

abbrev kind_is_local : Kind → Bool
kind_is_local local = true
kind_is_local _ = false

abbrev kind_is_inbound : Kind → Bool
kind_is_inbound inbound = true
kind_is_inbound _ = false

-- `isLocal`
abbrev pub is_local : Channel → Bool
is_local c = kind_is_local c.kind

-- `IsInbound`
abbrev pub is_inbound : Channel → Bool
is_inbound c = kind_is_inbound c.kind

-- `ensureConnectedNodeStream`. `ready` is whether `conn` is in the state `Ready`, and `dial` the
-- error of `NodeStream`, which returns no stream with one.
unfoldable pub ensure_connected_node_stream : Bool → Option Err → Channel → Channel × Option Err
ensure_connected_node_stream ready dial c =
    if ready && is_some c.stream then (c, none) else elim dial [
      | none ↦ (record c { stream = some c.next_stream; next_stream = suc c.next_stream }, none)
      | some e ↦ (record c { stream = none }, some e)
    ]

-- `ensureStream`
unfoldable pub ensure_stream : Bool → Option Err → Channel → Channel × Option Err
unfolding ensure_connected_node_stream
ensure_stream ready dial c =
    let (c', err) = ensure_connected_node_stream ready dial c in
    if is_inbound c
    then (c, if is_none c.stream then some (atom stream_down) else none)
    else elim err [ some e ↦ (c', some e) | none ↦ (record c' { stream_ready = true }, none) ]

abbrev pub is_stream : Option ℕ → ℕ → Bool
is_stream none s = false
is_stream (some t) s = t == s

-- `clearStream`
unfoldable pub clear_stream : Channel → ℕ → Channel × Bool
clear_stream c stale =
    if is_stream c.stream stale
    then (record c { stream = none; cancelled = stale ∷ c.cancelled }, true)
    else (c, false)

-- `isConnected`
unfoldable pub is_connected : Bool → Channel → Bool
is_connected ready c =
    if is_inbound c then not c.closed && is_some c.stream else ready && is_some c.stream

-- `setLastErr`
abbrev pub set_last_err : Channel → Err → Channel
set_last_err c e = record c { last_error = some e }

-- A channel with what it shares: the node's router, the response channels, and the handler calls
-- that were started.
pub record Net : Type 0 where
  pub world : World
  pub router : Router
  pub chan : Channel
  pub started : List Dispatch

abbrev pub push_dispatch : List Dispatch → Option Dispatch → List Dispatch
push_dispatch ds none = ds
push_dispatch ds (some d) = ds ++ d ∷ []

-- `req.replyError(c.id, err)`
unfoldable pub reply : Net → Request → Err → Run Net
reply n req e = reply_error n.world req n.chan.id e >>= λ w. ok (record n { world = w })

abbrev pub push_request : Net → Request → Net
push_request n req = record n { chan = record n.chan { send_q = n.chan.send_q ++ req ∷ [] } }

-- `Enqueue`
unfoldable pub enqueue : Net → Request → Run Net
unfolding reply
enqueue n req =
    if req.oneway && req.streaming
    then panics
    else if is_local n.chan
    then dispatch_local_request n.world n.router n.chan.id req
      >>= (λ r. ok (record n { world = r.0; router = r.1; started = push_dispatch n.started r.2 }))
    else if n.chan.closed
    then reply n req (atom node_closed)
    else ok (push_request n req)

-- `cancelPendingMsgs`
unfoldable pub cancel_pending_msgs : Net → Err → Run Net
unfolding cancel_pending
cancel_pending_msgs n e =
    let (r, reqs) = cancel_pending n.router in
    reply_errors n.world reqs n.chan.id e >>= λ w. ok (record n { world = w; router = r })

abbrev pub push_retries : Net → Router → World → List Request → Net
push_retries n r w reqs = record n {
  world = w;
  router = r;
  chan = record n.chan { retries = n.chan.retries ++ reqs };
}

-- `requeuePendingMsgs`
unfoldable pub requeue_pending_msgs : Net → Run Net
unfolding requeue_pending
requeue_pending_msgs n =
    let (r, requeue, cancel) = requeue_pending n.router in
    reply_errors n.world cancel n.chan.id (atom stream_down) >>= λ w.
    ok (push_retries n r w requeue)

-- `drainSendQ`
unfoldable pub drain_send_q : Net → Run Net
drain_send_q n = reply_errors n.world n.chan.send_q n.chan.id (atom node_closed) >>= λ w.
    ok (record n { world = w; chan = record n.chan { send_q = [] } })

-- `Close`, by `closeOnceFunc`: it cancels `connCtx` first, and then the pending calls.
unfoldable pub close : Net → Run Net
unfolding cancel_pending_msgs
close n =
    let n' = record n { chan = record n.chan { closed = true; close_ran = true } } in
    if is_local n.chan || n.chan.close_ran then ok n else cancel_pending_msgs n' (atom node_closed)
