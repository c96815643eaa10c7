-- ===== src/Calls/Single.antt =====
-- rpc.go, unicast.go, multicast.go, callopts.go, client_interceptor.go: the calls as a whole, with
-- what they send and what they return. What the caller's `select` finds is an argument.
pub mod Agree
use gorums_ata.Base.{
  ℕ, ◌+◌, ◌-◌, ◌*◌, ◌⊎◌, inl, inr, Bool, true, false, not, Option, none, some, List, [], ◌∷◌, ◌++◌,
  if◌then◌else◌, length,
}
use Prim.Native.String.{String}
use gorums_ata.Errors.{Err, NodeErrors, nil, atom, type_mismatch}
use gorums_ata.Stream.Types.{MetadataEntry, Message, Request, Response, NodeResponse}
use gorums_ata.Node.{Node}
use gorums_ata.Config.{Configuration}
use gorums_ata.Calls.Responses.{ResponseSeq}
use gorums_ata.Calls.Client.{
  ClientCtx, Effect, enqueues, Arrival, responded, cancelled, new_message, send,
  default_response_seq, streaming_response_seq, drain_replies,
}

-- `CallOption`; the interceptors are numbers here, as the options only collect them.
pub data CallOption : Type 0 where
  ignore_errors : CallOption
  interceptors : List ℕ → CallOption

-- `callOptions`
pub record CallOptions : Type 0 where
  pub ignores : Bool
  pub collected : List ℕ

-- The loop of `getCallOptions`.
unfoldable pub apply_options : CallOptions → List CallOption → CallOptions
apply_options o [] = o
apply_options o (ignore_errors ∷ opts) = apply_options (record o { ignores = true }) opts
apply_options o (interceptors is ∷ opts) =
    apply_options (record o { collected = o.collected ++ is }) opts

-- `getCallOptions`
unfoldable pub get_call_options : List CallOption → CallOptions
unfolding apply_options
get_call_options opts = apply_options (record { ignores = false; collected = [] }) opts

-- What a call sends, and what it returns; `none` is that it waits.
pub record Called (A : Type 0) : Type 0 where
  pub effects : List Effect
  pub result : Option A

-- The request of `RPCCall` or `Unicast` for the node.
abbrev pub single : ℕ → Message → Bool → Option ℕ → Request
single ctx m oneway chan = record {
  ctx = ctx;
  msg = m;
  streaming = false;
  oneway = oneway;
  response_chan = chan;
  send_time = 0;
}

module _ {Resp : Type 0} (unmarshal : Option Message → Option Resp ⊎ Err) where
  -- What `RPCCall` returns for a response.
  unfoldable pub rpc_response : Response → Resp ⊎ Err
  rpc_response r =
      let value : Resp ⊎ Err = elim (unmarshal r.value) [
        | inr e ↦ inr e
        | inl none ↦ inr (atom type_mismatch)
        | inl (some v) ↦ inl v
      ] in
      elim r.err [ some e ↦ inr e | none ↦ value ]

  unfoldable pub rpc_result : Option Arrival → Option (Resp ⊎ Err)
  unfolding rpc_response
  rpc_result none = none
  rpc_result (some (cancelled e)) = some (inr e)
  rpc_result (some (responded r)) = some (rpc_response r)

-- What `Unicast` returns when it waits for the confirmation.
unfoldable pub unicast_result : Option Arrival → Option (Option Err)
unicast_result none = none
unicast_result (some (cancelled e)) = some (some e)
unicast_result (some (responded r)) = some r.err

module _ {Req : Type 0} where
  -- `newMulticastClientCtx` before the interceptors.
  unfoldable pub new_multicast_ctx : ℕ → Configuration → ℕ → ℕ → Req → String → Bool → ClientCtx Req
  new_multicast_ctx ctx c id chan req method wait_for_send = record {
    ctx = ctx;
    config = c;
    request = req;
    method = method;
    msg_id = id;
    reply_chan = if wait_for_send then some chan else none;
    transforms = [];
    streaming = false;
    oneway = true;
  }

  -- `newQuorumCallClientCtx` before the interceptors, with the capacity of the reply channel.
  unfoldable pub new_quorum_call_ctx :
      ℕ → Configuration → ℕ → ℕ → Req → String → Bool → ClientCtx Req × ℕ
  new_quorum_call_ctx ctx c id chan req method streaming = (
    record {
      ctx = ctx;
      config = c;
      request = req;
      method = method;
      msg_id = id;
      reply_chan = some chan;
      transforms = [];
      streaming = streaming;
      oneway = false;
    },
    if streaming then length c * 10 else length c,
  )

module _ {Req : Type 0} (marshal : Req → List ℕ ⊎ Err) (entries : List MetadataEntry)
    (is_valid : Req → Bool) where
  module _ {Resp : Type 0} (unmarshal : Option Message → Option Resp ⊎ Err) where
    -- `RPCCall`; `id` is `ctx.nextMsgID()`, and `chan` the reply channel that it makes.
    unfoldable pub rpc_call : ℕ → Node → ℕ → ℕ → Req → String → Option Arrival → Called (Resp ⊎ Err)
    unfolding rpc_result
    rpc_call ctx n id chan req method found =
        elim (new_message marshal entries is_valid id method req) [
          | inr e ↦ record { effects = []; result = some (inr e) }
          | inl m ↦ record {
            effects = enqueues n.id (single ctx m false (some chan)) ∷ [];
            result = rpc_result unmarshal found;
          }
        ]

  -- `Unicast`
  unfoldable pub unicast :
      ℕ → Node → ℕ → ℕ → Req → String → CallOptions → Option Arrival → Called (Option Err)
  unfolding unicast_result
  unicast ctx n id chan req method opts found =
      elim (new_message marshal entries is_valid id method req) [
        | inr e ↦ record { effects = []; result = some (some e) }
        | inl m ↦
            if opts.ignores
            then record {
              effects = enqueues n.id (single ctx m true none) ∷ [];
              result = some none;
            }
            else record {
              effects = enqueues n.id (single ctx m true (some chan)) ∷ [];
              result = unicast_result found;
            }
      ]

  -- `Multicast`; `intercept` is what the interceptors of the options make of the context.
  unfoldable pub multicast :
      (ClientCtx Req → ClientCtx Req)
      → ℕ
      → Configuration
      → ℕ
      → ℕ
      → Req
      → String
      → CallOptions
      → List Arrival
      → Called (Option Err)
  unfolding new_multicast_ctx
  multicast intercept ctx c id chan req method opts as_ =
      let made = intercept (new_multicast_ctx ctx c id chan req method (not opts.ignores)) in
      record {
        effects = send marshal entries is_valid made;
        result = if opts.ignores then some none else drain_replies (length made.config) nil as_;
      }
