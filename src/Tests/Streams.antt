-- ===== src/Tests/Streams.antt =====
-- internal/stream: the theorems on channels, routers and connections at concrete inputs.
use gorums_ata.Base.{
  ℕ, ◌+◌, ◌≤◌, ◌≡◌, refl, true, false, not, none, some, List, [], ◌∷◌, arith, tally,
}
use gorums_ata.Errors.{atom, stream_down}
use gorums_ata.Stream.Types.{◌>>=◌, Response, ok, want_send_confirmation, want_server_response}
use gorums_ata.Stream.MessageId.{server_sequence_number}
use gorums_ata.Stream.Deliver.{World, on, held, reply_errors, reply_errors_returns}
use gorums_ata.Stream.Router.{
  Router, route_inbound_message, requests, requeue_pending, pending_count, deliver_pending,
  route_message, response_of, register,
}
use gorums_ata.Stream.Router.Pending.{requeue_pending_lem, deliver_all}
use gorums_ata.Manager.{new_manager}
use gorums_ata.Inbound.{Inbound, client_id_start, new_inbound_manager, rebuild_config}
use gorums_ata.Inbound.Exchange.{started, exchange}
use gorums_ata.Stream.Channel.{
  Net, new_outbound_channel, close, enqueue, ensure_stream, requeue_pending_msgs,
}
use gorums_ata.Stream.Channel.Sender.{Answers, sender_round}
use gorums_ata.Stream.Channel.Steps.{Event, enqueues, sends, retries, closes, run, pick}
use gorums_ata.Stream.Channel.Once.{answered_once, step_loses_nothing, brought, brings}
use gorums_ata.Stream.Channel.Ledger.{outstanding}
use gorums_ata.Stream.Server.{run as run_stream}
use gorums_ata.Stream.Server.{NodeStream, open_stream, receives, releases}
use gorums_ata.Stream.Server.Order.{run-open_stream-IsOrdered, IsOrdered}
use gorums_ata.Tests.Data.{status_error, later, message, request, world, router, net, state_of}

-- The stream opens, and `Send` succeeds or fails.
abbrev sent_well : Answers
sent_well = record { ready = true; dial = none; sent = none; done = none; called_back = false }

abbrev sent_badly : Answers
sent_badly = record sent_well { sent = some (atom stream_down) }

-- A request whose `Send` fails is requeued, retried, sent, and answered with an error by `Close`.
abbrev events : List Event
events = enqueues (request 5 7) ∷ sends sent_badly ∷ retries 0 ∷ sends sent_well ∷ closes ∷ []

abbrev after : Net
unfolding run
after = state_of net (run status_error later net events)

answered_once_example : held 7 after.world ≤ held 7 net.world + brought status_error later 7 events
unfolding new_outbound_channel run enqueue sender_round ensure_stream requeue_pending_msgs
    reply_errors want_server_response register pick want_send_confirmation close
answered_once_example =
    answered_once status_error later 7 net after events refl refl
      (tt, λ m h. (tt, λ m h. (tt, λ m h. (tt, λ m h. (tt, λ m h. tt))))) refl

-- The channel with the request in its queue, and after its `Send` has failed.
abbrev queued : Net
unfolding run
queued = state_of net (run status_error later net (enqueues (request 5 7) ∷ []))

abbrev requeued : Net
unfolding run
requeued = state_of net (run status_error later queued (sends sent_badly ∷ []))

step_loses_nothing_example :
    outstanding 7 requeued + held 7 requeued.world
    ≡ outstanding 7 queued + held 7 queued.world + brings 7 (sends sent_badly)
unfolding queued enqueue new_outbound_channel sender_round ensure_stream requeue_pending_msgs
    reply_errors want_server_response register
step_loses_nothing_example =
    step_loses_nothing status_error later 7 queued requeued (sends sent_badly) refl tt (refl, refl)
      (λ i. refl) refl

abbrev two_pending : Router
two_pending = router ((5, request 5 7) ∷ (6, record (request 6 8) { streaming = true }) ∷ []) true

requeue_pending_lem_example :
    (pending_count (requeue_pending two_pending).0 ≡ 0)
    × (tally (on 8) (requeue_pending two_pending).1 + tally (on 8) (requeue_pending two_pending).2
        ≡ tally (on 8) (requests two_pending.pending))
    × (tally (λ q. q.streaming) (requeue_pending two_pending).1 ≡ 0)
    × (tally (λ q. not q.streaming) (requeue_pending two_pending).2 ≡ 0)
requeue_pending_lem_example = requeue_pending_lem two_pending (on 8)

-- What `deliverPending` does with the response to request 5.
abbrev unused_manager : Inbound
unused_manager = record {
  my_id = 0;
  has_handler = false;
  has_callback = false;
  nodes = [];
  config = [];
  client_config = [];
  next_msg_id = 0;
  next_client_id = client_id_start;
  changes = [];
  epoch = 0;
  stopped = false;
}

-- Two responses to call 5, and one to a call that is not pending.
abbrev responses : List (ℕ × Response)
responses =
    (5, response_of status_error later 2 (message 5))
    ∷ (8, response_of status_error later 2 (message 8))
    ∷ (5, response_of status_error later 2 (message 5))
    ∷ []

abbrev settled : World × Router × List ℕ
unfolding deliver_all deliver_pending
settled =
    state_of (world, two_pending, []) (deliver_all status_error later world two_pending responses)

exchange_example :
    (route_inbound_message status_error later world two_pending 2 (message 1)
      ≡ ok (world, two_pending, started two_pending true (message 1), not two_pending.has_handler))
    × (route_message status_error later world two_pending 2 (message 1) ≡ (
        deliver_pending status_error later world two_pending 1
          (response_of status_error later 2 (message 1))
        >>= λ d. ok (d.0, d.1, none)))
    × (route_message status_error later world two_pending 2 (message 9_223_372_036_854_775_809)
        ≡ ok (world, two_pending, started two_pending false (message 9_223_372_036_854_775_809)))
    × (route_inbound_message status_error later world two_pending 2
          (message 9_223_372_036_854_775_809)
        ≡ (deliver_pending status_error later world two_pending 9_223_372_036_854_775_809
              (response_of status_error later 2 (message 9_223_372_036_854_775_809))
            >>= λ d. ok (d.0, d.1, none, true)))
unfolding new_manager new_inbound_manager rebuild_config gorums_ata.Inbound.get_msg_id
    gorums_ata.Manager.get_msg_id server_sequence_number
exchange_example =
    exchange status_error later world two_pending 2 (new_manager 0 false) unused_manager (message 1)
      (message 9_223_372_036_854_775_809) (omega arith) refl refl

run-open_stream-IsOrdered_example :
    (s : NodeStream) × (run_stream (open_stream true 1) (receives (message 1) ∷ releases 0 ∷ [])
      ≡ ok s)
    × IsOrdered s
run-open_stream-IsOrdered_example =
    run-open_stream-IsOrdered true 1 (receives (message 1) ∷ releases 0 ∷ [])

HasRoom_two :
    (c : ℕ) → held c world + tally (on c) (request 5 7 ∷ request 6 7 ∷ []) ≤ world.capacity c
HasRoom_two c = ground arith

reply_errors_returns_example :
    (w : World) × (reply_errors world (request 5 7 ∷ request 6 7 ∷ []) 2 (atom stream_down) ≡ ok w)
reply_errors_returns_example =
    reply_errors_returns world (request 5 7 ∷ request 6 7 ∷ []) 2 (atom stream_down) HasRoom_two
