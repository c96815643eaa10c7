-- ===== src/Tests/Clients.antt =====
-- client_interceptor.go, multicast.go, handler.go, server.go: the theorems at concrete inputs.
use gorums_ata.Base.{
  ℕ, ◌-◌, ◌*◌, ◌≡◌, refl, ◌⊎◌, inl, inr, Bool, false, not, Option, none, some, List, [], ◌∷◌, map,
  ◌==◌, if◌then◌else◌, arith, ◌++◌,
}
use gorums_ata.Calls.Single.Agree.{succeeds, unicast-multicast}
use gorums_ata.Calls.Single.{CallOptions, unicast, multicast}
use Prim.Native.String.{String}
use gorums_ata.Errors.{
  Err, nil, atom, foreign, skip_node, send_failure, quorum_call, errors_is, same,
}
use gorums_ata.Stream.Types.{Status, Message, Response, ok}
use gorums_ata.Node.{Node, new_inbound_node}
use gorums_ata.Config.{Configuration, node_ids}
use gorums_ata.Calls.Client.{ClientCtx, target, responded, new_message}
use gorums_ata.Calls.Client.Started.{
  gets_results, iterates, starts, new_responses, accesses, accesses_lem,
}
use gorums_ata.Handlers.{
  HandlerMessage, ServerCtx, Outcome, Handler, new_response_message, dispatch, handle_request,
}
use gorums_ata.Handlers.Requests.{Responds, handle_request_lem}
use gorums_ata.Tests.Data.{message}

abbrev node : ℕ → Node
unfolding new_inbound_node
node i = new_inbound_node i "host" false

abbrev config : Configuration
config = node 1 ∷ node 2 ∷ node 3 ∷ []

-- Requests are numbers; 0 is not valid, and 9 cannot be marshaled.
abbrev marshal : ℕ → List ℕ ⊎ Err
marshal r = if r == 9 then inr (atom (foreign 9)) else inl (r ∷ [])

abbrev is_valid : ℕ → Bool
is_valid r = not (r == 0)

-- A transform that makes the requests of nodes 1 and 2 invalid.
abbrev less : ℕ → Node → ℕ
less r n = r * (n.id - 2)

abbrev call : List (ℕ → Node → ℕ) → ClientCtx ℕ
call fs = record {
  ctx = 1;
  config = config;
  request = 4;
  method = "read";
  msg_id = 5;
  reply_chan = some 7;
  transforms = fs;
  streaming = false;
  oneway = false;
}

abbrev response : ℕ → Option Err → Response
response i e = record { node_id = i; value = some (message 5); err = e }

abbrev unmarshal : Option Message → Option ℕ ⊎ Err
unmarshal none = inr (atom (foreign 8))
unmarshal (some m) = inl (some m.seq_no)

-- A handler that replies with the request's number, one more.
abbrev increments : Handler ℕ
increments ctx m =
    ok (record { ctx = ctx; out = new_response_message (some m) (some 1); err = none })

abbrev fresh : ServerCtx
fresh = record { released = 0; outbox = [] }

abbrev request : HandlerMessage ℕ
request = record { msg = some 4; envelope = some (message 5) }

abbrev status_of : Err → Status
status_of e = record { code = 2; text = "unknown" }

abbrev parse : Message → ℕ ⊎ Err
parse m = inl m.seq_no

abbrev unimplemented : String → Err
unimplemented method = atom (foreign 12)

abbrev returned : Outcome ℕ
unfolding new_response_message
returned = record { ctx = fresh; out = new_response_message (some request) (some 1); err = none }

handle_request_lem_example : Responds status_of marshal (message 5) fresh returned.out none (
    handle_request status_of marshal parse unimplemented
      (("read", increments) ∷ [])
      fresh
      (message 5))
unfolding dispatch new_response_message
handle_request_lem_example =
    handle_request_lem status_of marshal parse unimplemented (("read", increments) ∷ []) fresh
      (message 5) returned refl

abbrev options : CallOptions
options = record { ignores = false; collected = [] }

abbrev sent : Response
sent = response 2 (some (atom (foreign 4)))

failure-differs : (e : Err) → sent.err ≡ some e → errors_is e (atom skip_node) ≡ false
unfolding errors_is same gorums_ata.Errors.Atom-discrete
failure-differs e same = let is : atom (foreign 4) ≡ e = ground arith in rw (← is) refl

unicast-multicast_example :
    let one =
      unicast marshal [] is_valid 1 (node 2) 5 7 4 "write" options (some (responded sent)) in
    let many =
      multicast marshal [] is_valid
        (λ c. c)
        1
        (node 2 ∷ [])
        5
        7
        4
        "write"
        options
        (responded sent ∷ []) in
    (one.effects ≡ many.effects) × (succeeds one.result ≡ succeeds many.result)
unfolding new_message
unicast-multicast_example =
    unicast-multicast marshal [] is_valid 1 (node 2) 5 7 4 "write" options
      (record { seq_no = 5; method = "write"; payload = 4 ∷ []; status = none; entries = [] }) sent
      refl (λ e same. failure-differs e same)

accesses_lem_example :
    let s =
      accesses marshal [] is_valid
        (new_responses (call (less ∷ [])) (responded (response 1 none) ∷ []))
        (gets_results ∷ iterates 1 ∷ starts ∷ []) in
    (map target s.effects ≡ node_ids config)
    × (map responded s.yielded ++ s.arrivals ≡ responded (response 1 none) ∷ [])
accesses_lem_example =
    accesses_lem marshal [] is_valid (call (less ∷ [])) (responded (response 1 none) ∷ [])
      (gets_results ∷ iterates 1 ∷ starts ∷ []) refl
