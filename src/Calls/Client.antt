-- ===== src/Calls/Client.antt =====
-- client_interceptor.go, multicast.go: how a call's request goes to each node of its configuration,
-- and how its responses come back.
pub mod Sending
pub mod Replies
pub mod Started
use gorums_ata.Base.{
  ℕ, zero, suc, ◌+◌, ◌-◌, ◌⊎◌, inl, inr, Bool, true, false, not, Option, none, some, List, [], ◌∷◌,
  ◌++◌, ◌==◌, if◌then◌else◌, is_some, is_none,
}
use Prim.Native.String.{String}
use gorums_ata.Errors.{
  Err, NodeErrors, nil, atom, skip_node, send_failure, type_mismatch, quorum_call, errors_is,
}
use gorums_ata.Stream.Types.{MetadataEntry, Message, Request, Response, NodeResponse}
use gorums_ata.Node.{Node}
use gorums_ata.Config.{Configuration, is_empty}
use gorums_ata.Calls.Responses.{ResponseSeq, failed, push_failure}

-- `ClientCtx`, without the response sequence. `reply_chan` is nil in a multicast that does not wait.
pub record ClientCtx (Req : Type 0) : Type 0 where
  pub ctx : ℕ
  pub config : Configuration
  pub request : Req
  pub method : String
  pub msg_id : ℕ
  pub reply_chan : Option ℕ
  pub transforms : List (Req → Node → Req)
  pub streaming : Bool
  pub oneway : Bool

-- What `send` does for a node: it enqueues a request at the node, or puts an error into the reply
-- channel.
pub data Effect : Type 0 where
  enqueues : ℕ → Request → Effect
  reports : ℕ → Err → Effect

abbrev pub target : Effect → ℕ
target (enqueues i r) = i
target (reports i e) = i

module _ {Req : Type 0} where
  -- The loop of `transformAndMarshal` over the transforms.
  unfoldable pub transformed : List (Req → Node → Req) → Req → Node → Req
  transformed [] r n = r
  transformed (f ∷ fs) r n = transformed fs (f r n) n

  -- `reportNodeError`
  abbrev pub report_node_error : ClientCtx Req → ℕ → Err → List Effect
  report_node_error c id e = if is_some c.reply_chan then reports id e ∷ [] else []

  -- `ClientCtx.enqueue`
  abbrev pub enqueue : ClientCtx Req → Node → Message → Effect
  enqueue c n m = enqueues n.id (record {
    ctx = c.ctx;
    msg = m;
    streaming = c.streaming;
    oneway = c.oneway;
    response_chan = c.reply_chan;
    send_time = 0;
  })

  -- `MapRequest`, with a function.
  unfoldable pub map_request : (Req → Node → Req) → ClientCtx Req → ClientCtx Req
  map_request f c = record c { transforms = c.transforms ++ f ∷ [] }

  -- `marshal` is `proto.Marshal`, `entries` is the outgoing metadata of the context, and `is_valid`
  -- tells the requests that are a valid proto message.
  module _ (marshal : Req → List ℕ ⊎ Err) (entries : List MetadataEntry)
      (is_valid : Req → Bool) where
    -- `NewMessage`
    unfoldable pub new_message : ℕ → String → Req → Message ⊎ Err
    new_message id method r = elim (marshal r) [
      | inl payload ↦ inl (record {
        seq_no = id;
        method = method;
        payload = payload;
        status = none;
        entries = entries;
      })
      | inr e ↦ inr e
    ]

    -- `transformAndMarshal`; its error is what it reports.
    unfoldable pub transform_and_marshal : ClientCtx Req → Node → Message ⊎ Err
    unfolding transformed new_message
    transform_and_marshal c n =
        let r = transformed c.transforms c.request n in
        if not (is_valid r) then inr (atom skip_node) else new_message c.msg_id c.method r

    -- What a node gets, given its message or the error.
    abbrev pub effect_of : ClientCtx Req → Node → Message ⊎ Err → List Effect
    effect_of c n (inl m) = enqueue c n m ∷ []
    effect_of c n (inr e) = report_node_error c n.id e

    -- The loop of `sendWithPerNodeTransformation`.
    unfoldable pub send_per_node : ClientCtx Req → Configuration → List Effect
    unfolding transform_and_marshal
    send_per_node c [] = []
    send_per_node c (n ∷ ns) = effect_of c n (transform_and_marshal c n) ++ send_per_node c ns

    -- The loops of `sendShared`.
    unfoldable pub send_each : ClientCtx Req → Message ⊎ Err → Configuration → List Effect
    send_each c made [] = []
    send_each c made (n ∷ ns) = effect_of c n made ++ send_each c made ns

    -- `sendShared`
    unfoldable pub send_shared : ClientCtx Req → List Effect
    unfolding new_message send_each
    send_shared c = send_each c (new_message c.msg_id c.method c.request) c.config

    -- `send`
    unfoldable pub send : ClientCtx Req → List Effect
    unfolding send_shared send_per_node
    send c = if is_empty c.transforms then send_shared c else send_per_node c c.config

-- What `select` finds next: a response in the reply channel, or the context done.
pub data Arrival : Type 0 where
  responded : Response → Arrival
  cancelled : Err → Arrival

-- `mapToCallResponse`. `unmarshal` is `unmarshalResponse` with the type assertion: `none` where the
-- message has another type.
module _ {Resp : Type 0} (zero_value : Resp) (unmarshal : Option Message → Option Resp ⊎ Err) where
  unfoldable pub map_to_call_response : Response → NodeResponse Resp
  map_to_call_response r =
      let value : NodeResponse Resp = elim (unmarshal r.value) [
        | inl none ↦ record {
          node_id = r.node_id;
          value = zero_value;
          err = some (atom type_mismatch);
        }
        | inl (some v) ↦ record { node_id = r.node_id; value = v; err = none }
        | inr e ↦ record { node_id = r.node_id; value = zero_value; err = some e }
      ] in
      if is_none r.err
      then value
      else record { node_id = r.node_id; value = zero_value; err = r.err }

  -- `defaultResponseSeq`: at most `n` responses, and whether it returns rather than waits.
  unfoldable pub default_response_seq : ℕ → List Arrival → ResponseSeq Resp × Bool
  unfolding map_to_call_response
  default_response_seq zero as_ = ([], true)
  default_response_seq (suc n) [] = ([], false)
  default_response_seq (suc n) (cancelled e ∷ as_) = ([], true)
  default_response_seq (suc n) (responded r ∷ as_) =
      let rest = default_response_seq n as_ in (map_to_call_response r ∷ rest.0, rest.1)

  -- `streamingResponseSeq`
  unfoldable pub streaming_response_seq : List Arrival → ResponseSeq Resp × Bool
  unfolding map_to_call_response
  streaming_response_seq [] = ([], false)
  streaming_response_seq (cancelled e ∷ as_) = ([], true)
  streaming_response_seq (responded r ∷ as_) =
      let rest = streaming_response_seq as_ in (map_to_call_response r ∷ rest.0, rest.1)

-- `ClientCtx.Node`
unfoldable pub find_node : Configuration → ℕ → Option Node
find_node [] id = none
find_node (n ∷ c) id = if n.id == id then some n else find_node c id

module _ {Resp : Type 0} where
  -- `MapResponse`, with a function.
  unfoldable pub map_response :
      (Resp → Node → Resp) → Configuration → ResponseSeq Resp → ResponseSeq Resp
  unfolding find_node
  map_response f c [] = []
  map_response f c (r ∷ rs) =
      let value : Resp = elim (find_node c r.node_id) [ none ↦ r.value | some n ↦ f r.value n ] in
      (if is_none r.err then record r { value = value } else r) ∷ map_response f c rs

-- The loop of `Multicast` over the reply channel; `none` is that it waits.
unfoldable pub drain_replies : ℕ → NodeErrors → List Arrival → Option (Option Err)
drain_replies zero nil as_ = some none
drain_replies zero (NodeErrors.cons e i es) as_ =
    some (some (quorum_call (atom send_failure) (NodeErrors.cons e i es)))
drain_replies (suc n) errs [] = none
drain_replies (suc n) errs (cancelled e ∷ as_) = some (some e)
drain_replies (suc n) errs (responded r ∷ as_) =
    drain_replies n (if failed r.err then push_failure errs r.err r.node_id else errs) as_

abbrev pub is_cancelled : Arrival → Bool
is_cancelled (responded r) = false
is_cancelled (cancelled e) = true
