-- ===== src/Stream/Router.antt =====
-- internal/stream/router.go: the pending calls of a node, and where a received message goes.
-- `time.Duration` is an integer. Each handler runs in a goroutine of its own: the functions return
-- the handler calls that they start, and what a handler sends later is a step of its own.
pub mod Pending
pub mod Demux
use gorums_ata.Base.{
  ℕ, ◌-◌, ◌*◌, ◌/◌, Bool, true, false, not, Option, none, some, List, [], ◌∷◌, map, if◌then◌else◌,
  is_none, length, any, lookup, erase, insert, ℤ, pos, negsuc, is_neg,
}
use gorums_ata.Errors.{Err, atom, no_handler}
use gorums_ata.Stream.MessageId.{is_server_sequence_number}
use gorums_ata.Stream.Types.{
  Message, Status, Request, Response, error_status, want_server_response, want_send_confirmation,
  Run, ok, blocks, panics, ◌>>=◌,
}
use gorums_ata.Stream.Deliver.{World, deliver, reply_error}

-- `MessageRouter`. Go ranges over the map `pending` in any order, here in that of the list;
-- `has_handler` is whether `handler` is not nil, and `local_locked` is `localMu`.
pub record Router : Type 0 where
  pub pending : List (ℕ × Request)
  pub latency : ℤ
  pub has_handler : Bool
  pub local_locked : Bool

-- `-1 * time.Second`, in nanoseconds.
abbrev pub no_latency : ℤ
no_latency = negsuc 999_999_999

-- `NewMessageRouter`
unfoldable pub new_router : Bool → Router
new_router has_handler = record {
  pending = [];
  latency = no_latency;
  has_handler = has_handler;
  local_locked = false;
}

abbrev pub requests : List (ℕ × Request) → List Request
requests = map (λ e. e.1)

-- `PendingCount`
unfoldable pub pending_count : Router → ℕ
pending_count r = length r.pending

-- `Register`; `now` is `time.Now()`.
unfoldable pub register : ℕ → Router → ℕ → Request → Router
register now r id req = record r { pending = insert id (record req { send_time = now }) r.pending }

-- `CancelPending`
unfoldable pub cancel_pending : Router → Router × List Request
cancel_pending r = (record r { pending = [] }, requests r.pending)

-- The loop of `RequeuePending`, with its results `requeue` and `cancel`.
unfoldable pub split_pending : List (ℕ × Request) → List Request × List Request
split_pending [] = ([], [])
split_pending ((id, req) ∷ rest) =
    let (requeue, cancel) = split_pending rest in
    if req.streaming then (requeue, req ∷ cancel) else (req ∷ requeue, cancel)

-- `RequeuePending`
unfoldable pub requeue_pending : Router → Router × List Request × List Request
unfolding split_pending
requeue_pending r =
    let (requeue, cancel) = split_pending r.pending in (record r { pending = [] }, requeue, cancel)

-- A handler call: the message, and whether the handler was given the stream's release function.
pub record Dispatch : Type 0 where
  pub msg : Message
  pub has_release : Bool

-- `error_proto` is grpc's `status.ErrorProto`, and `average` is the moving average on floats that
-- `updateLatency` computes from the latency and the round-trip time.
module _ (error_proto : Status → Option Err) (average : ℤ → ℤ → ℤ) where
  -- `updateLatency`
  unfoldable pub update_latency : Router → ℤ → Router
  update_latency r rtt = record r {
    latency = if is_neg r.latency then rtt else average r.latency rtt;
  }

  -- `time.Since`: the clock does not run backwards.
  abbrev pub since : ℕ → ℕ → ℤ
  since now t = pos (now - t)

  -- The router that `deliverPending` leaves when it has found `req`.
  unfoldable pub settle : ℕ → Router → ℕ → Request → Response → Router
  unfolding update_latency
  settle now r id req resp =
      let taken = if req.streaming then r else record r { pending = erase id r.pending } in
      if is_none resp.err then update_latency taken (since now req.send_time) else taken

  -- `deliverPending`: an entry that is not streaming is removed before its response is delivered.
  unfoldable pub deliver_pending : World → Router → ℕ → Response → Run (World × Router × Bool)
  unfolding settle
  deliver_pending w r id resp = elim (lookup id r.pending) [
    | none ↦ ok (w, r, false)
    | some req ↦ deliver w req resp >>= (λ d. ok (d.0, settle w.clock r id req resp, true))
  ]

  abbrev pub response_of : ℕ → Message → Response
  response_of node_id m = record {
    node_id = node_id;
    value = some m;
    err = error_status error_proto m;
  }

  -- `RouteMessage`, on the client's side of a stream, with the handler call that it starts.
  unfoldable pub route_message :
      World → Router → ℕ → Message → Run (World × Router × Option Dispatch)
  unfolding deliver_pending
  route_message w r node_id m =
      let delivered = deliver_pending w r m.seq_no (response_of node_id m) in
      if is_server_sequence_number m.seq_no
      then ok (w, r, if r.has_handler then some (record { msg = m; has_release = false }) else none)
      else delivered >>= (λ d. ok (d.0, d.1, none))

  -- `RouteInboundMessage`, on the server's side, with the handler call and whether `release` is
  -- called here.
  unfoldable pub route_inbound_message :
      World → Router → ℕ → Message → Run (World × Router × Option Dispatch × Bool)
  unfolding deliver_pending
  route_inbound_message w r node_id m =
      let delivered = deliver_pending w r m.seq_no (response_of node_id m) in
      if not (is_server_sequence_number m.seq_no)
      then (if r.has_handler
          then ok (w, r, some (record { msg = m; has_release = true }), false)
          else ok (w, r, none, true))
      else delivered >>= (λ d. ok (d.0, d.1, none, true))

  -- The closure `send` that `DispatchLocalRequest` gives the handler.
  unfoldable pub local_send : World → Request → ℕ → Message → Run World
  local_send w req node_id m =
      let sent = deliver w req (response_of node_id m) in
      if not (want_server_response req) then ok w else sent >>= (λ d. ok d.0)

-- The end of `DispatchLocalRequest`: it takes `localMu` and starts the handler.
unfoldable pub start_local : World → Router → Request → Run (World × Router × Option Dispatch)
start_local w r req =
    if r.local_locked
    then blocks
    else ok
        (w, record r { local_locked = true }, some (record { msg = req.msg; has_release = true }))

-- `DispatchLocalRequest`, with the handler call that it starts.
unfoldable pub dispatch_local_request :
    World → Router → ℕ → Request → Run (World × Router × Option Dispatch)
unfolding start_local
dispatch_local_request w r node_id req = elim (w.ctx_err req.ctx) [
  | some e ↦ reply_error w req node_id e >>= (λ w'. ok (w', r, none))
  | none ↦
      if not r.has_handler
      then reply_error w req node_id (atom no_handler) >>= (λ w'. ok (w', r, none))
      else if want_send_confirmation req
      then deliver w req (record { node_id = node_id; value = none; err = none })
        >>= (λ d. if d.1 then start_local d.0 r req else ok (d.0, r, none))
      else start_local w r req
]
