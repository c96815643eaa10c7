-- ===== src/Inbound/Exchange.antt =====
-- internal/stream/router.go, mgr.go, inbound_manager.go: requests in both directions on one stream.
use gorums_ata.Base.{
  ℕ, ◌+◌, ◌%◌, ◌^◌, ◌<◌, ◌≡◌, ap, ◌∙◌, Bool, true, false, not, Option, none, some, arith,
  if◌then◌else◌, ℤ,
}
use gorums_ata.Errors.{Err}
use gorums_ata.Stream.MessageId.{is_server_sequence_number}
use gorums_ata.Stream.MessageId.Spaces.{server_sequence_number_lem}
use gorums_ata.Stream.Types.{Status, Message, ok, ◌>>=◌}
use gorums_ata.Stream.Deliver.{World}
use gorums_ata.Stream.Router.{
  Router, Dispatch, deliver_pending, response_of, route_message, route_inbound_message,
}
use gorums_ata.Manager.{Manager}
use gorums_ata.Manager
use gorums_ata.Inbound.{Inbound}
use gorums_ata.Inbound

-- The message starts the handler, if there is one, and is given the stream's release function or not.
abbrev pub started : Router → Bool → Message → Option Dispatch
started r release m =
    if r.has_handler then some (record { msg = m; has_release = release }) else none

client_id-low :
    (mgr : Manager)
    → mgr.next_msg_id + 1 < 2 ^ 63
    → is_server_sequence_number (Manager.get_msg_id mgr).1 ≡ false
unfolding Manager.get_msg_id
client_id-low mgr h =
    let marked = server_sequence_number_lem ((mgr.next_msg_id + 1) % 2 ^ 64) (omega arith) in
    ground (arith, marked.4)

server_id-high : (im : Inbound) → is_server_sequence_number (Inbound.get_msg_id im).1 ≡ true
unfolding Inbound.get_msg_id
server_id-high im = (server_sequence_number_lem ((im.next_msg_id + 1) % 2 ^ 64) (omega arith)).1

module _ (error_proto : Status → Option Err) (average : ℤ → ℤ → ℤ) where
  -- Calls in both directions do not meet on a stream. A message with an ID that the client's manager
  -- makes, less than `2 ^ 63` of them, starts the handler at the server, if there is one, and touches
  -- no pending call there, and at the client it is given to its pending calls and starts no handler. With an ID that
  -- the server's manager makes it is the other way round. The server releases its lock at once,
  -- except that a handler that it starts is given the release.
  pub exchange :
      (w : World) (r : Router) (i : ℕ) (mgr : Manager) (im : Inbound) (up down : Message)
      → mgr.next_msg_id + 1 < 2 ^ 63
      → up.seq_no ≡ (Manager.get_msg_id mgr).1
      → down.seq_no ≡ (Inbound.get_msg_id im).1
      → (route_inbound_message error_proto average w r i up
          ≡ ok (w, r, started r true up, not r.has_handler))
        × (route_message error_proto average w r i up ≡ (
            deliver_pending error_proto average w r up.seq_no (response_of error_proto average i up)
            >>= λ d. ok (d.0, d.1, none)))
        × (route_message error_proto average w r i down ≡ ok (w, r, started r false down))
        × (route_inbound_message error_proto average w r i down ≡ (
            deliver_pending error_proto average w r down.seq_no
              (response_of error_proto average i down)
            >>= λ d. ok (d.0, d.1, none, true)))
  unfolding route_message route_inbound_message
  exchange w r i mgr im up down few from_client from_server =
      let low : is_server_sequence_number up.seq_no ≡ false =
        ap is_server_sequence_number from_client ∙ client_id-low mgr few in
      let high : is_server_sequence_number down.seq_no ≡ true =
        ap is_server_sequence_number from_server ∙ server_id-high im in
      (ground arith, ground arith, ground arith, ground arith)
