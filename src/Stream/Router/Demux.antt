-- ===== src/Stream/Router/Demux.antt =====
-- internal/stream/router.go: which messages reach the handler, and which a pending call.
use gorums_ata.Base.{
  ℕ, ◌≡◌, ◌⊎◌, inl, inr, Bool, true, false, ◌&&◌, not, Option, none, some, arith, Bool-cases,
  is_some, ℤ,
}
use gorums_ata.Errors.{Err}
use gorums_ata.Stream.MessageId.{is_server_sequence_number}
use gorums_ata.Stream.Types.{Request, Status, Message, ok, >>=-returns}
use gorums_ata.Stream.Deliver.{World}
use gorums_ata.Stream.Router.{
  Router, Dispatch, deliver_pending, response_of, route_message, route_inbound_message,
  dispatch_local_request,
}

module _ (error_proto : Status → Option Err) (average : ℤ → ℤ → ℤ) where
  pub route_message_lem :
      (w w' : World) (r r' : Router) (i : ℕ) (m : Message) (d : Option Dispatch)
      → route_message error_proto average w r i m ≡ ok (w', r', d)
      → ((is_server_sequence_number m.seq_no ≡ true)
          × (w' ≡ w)
          × (r' ≡ r)
          × (is_some d ≡ r.has_handler))
        ⊎ ((is_server_sequence_number m.seq_no ≡ false)
            × (d ≡ none)
            × (found : Bool) × (deliver_pending error_proto average w r m.seq_no
                  (response_of error_proto average i m)
                ≡ ok (w', r', found)))
  unfolding route_message
  route_message_lem w w' r r' i m d e = elim (Bool-cases (is_server_sequence_number m.seq_no)) [
    | inl server ↦ ground arith
    | inr client ↦
        let (x, delivered, out) =
          >>=-returns
            (deliver_pending error_proto average w r m.seq_no (response_of error_proto average i m))
            (λ d. ok (d.0, d.1, none)) (rw (client, route_message) at e) in
        inr (client, ground arith, x.2, ground arith)
  ]

  abbrev pub passes_release : Option Dispatch → Bool
  passes_release none = false
  passes_release (some d) = d.has_release

  -- On the server's side the ordering lock is released once: either by `RouteInboundMessage`, or by
  -- the handler that it starts, which happens only for a client's ID and if there is a handler.
  pub route_inbound_message-release :
      (w w' : World) (r r' : Router) (i : ℕ) (m : Message) (d : Option Dispatch) (released : Bool)
      → route_inbound_message error_proto average w r i m ≡ ok (w', r', d, released)
      → (passes_release d ≡ not released)
        × (is_some d ≡ not (is_server_sequence_number m.seq_no) && r.has_handler)
  unfolding route_inbound_message
  route_inbound_message-release w w' r r' i m d released e = ground arith

  -- A message is for the handler on one side of a stream exactly if it is a response on the other.
  pub route_symmetric :
      (w w₁ w₂ : World) (r r₁ r₂ : Router) (i : ℕ) (m : Message) (d₁ d₂ : Option Dispatch)
      (released : Bool)
      → r.has_handler ≡ true
      → route_message error_proto average w r i m ≡ ok (w₁, r₁, d₁)
      → route_inbound_message error_proto average w r i m ≡ ok (w₂, r₂, d₂, released)
      → is_some d₁ ≡ not (is_some d₂)
  route_symmetric w w₁ w₂ r r₁ r₂ i m d₁ d₂ released h e f = ground (
    arith,
    route_message_lem w w₁ r r₁ i m d₁ e,
    route_inbound_message-release w w₂ r r₂ i m d₂ released f,
  )

-- `DispatchLocalRequest` starts the handler only with `localMu` taken, which it was not before, and
-- only for a request whose context is not done, on a router with a handler.
pub dispatch_local_request-starts :
    (w w' : World) (r r' : Router) (i : ℕ) (req : Request) (d : Dispatch)
    → dispatch_local_request w r i req ≡ ok (w', r', some d)
    → (w.ctx_err req.ctx ≡ none)
      × (r.has_handler ≡ true)
      × (r.local_locked ≡ false)
      × (r'.local_locked ≡ true)
      × (r'.pending ≡ r.pending)
      × (d.msg ≡ req.msg)
unfolding dispatch_local_request
dispatch_local_request-starts w w' r r' i req d e = ground arith
