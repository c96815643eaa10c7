-- ===== src/Calls/Invoke.antt =====
-- quorumcall.go, client_interceptor.go: `invokeQuorumCall` and the interceptors.
use gorums_ata.Base.{
  ℕ, ◌≡◌, sym, ap, ◌∙◌, ◌⊎◌, Bool, Option, List, [], ◌∷◌, ◌++◌, map, if◌then◌else◌, length,
}
use Prim.Native.String.{String}
use mathlib.Core.List.{append-nil, append_assoc}
use gorums_ata.Errors.{Err}
use gorums_ata.Stream.Types.{Message}
use gorums_ata.Node.{Node}
use gorums_ata.Config.{Configuration}
use gorums_ata.Calls.Responses.{ResponseSeq}
use gorums_ata.Calls.Client.{
  ClientCtx, Arrival, default_response_seq, streaming_response_seq, map_request, map_response,
}
use gorums_ata.Calls.Single.{new_quorum_call_ctx}

-- A response sequence before it is read: what it yields for what arrives, and whether it ends.
abbrev pub Lazy : Type 0 → Type 0
Lazy Resp = List Arrival → ResponseSeq Resp × Bool

-- `QuorumInterceptor`: it may change the context, and wraps the sequence. What it reads of the
-- context while the sequence runs is the configuration, which nothing changes.
abbrev pub Interceptor : Type 0 → Type 0 → Type 0
Interceptor Req Resp = ClientCtx Req → Lazy Resp → ClientCtx Req × Lazy Resp

module _ {Req Resp : Type 0} where
  -- `applyInterceptors`
  unfoldable pub apply_interceptors : List (Interceptor Req Resp) → Interceptor Req Resp
  apply_interceptors [] c seq = (c, seq)
  apply_interceptors (f ∷ fs) c seq = let r = f c seq in apply_interceptors fs r.0 r.1

  -- `MapRequest`, of a function that is not nil.
  abbrev pub mapping_requests : (Req → Node → Req) → Interceptor Req Resp
  mapping_requests f c seq = (map_request f c, seq)

  -- `MapResponse`, of a function that is not nil.
  abbrev pub mapping_responses : (Resp → Node → Resp) → Interceptor Req Resp
  mapping_responses f c seq = (c, λ as_. let r = seq as_ in (map_response f c.config r.0, r.1))

  -- `MapRequest` interceptors only add their functions to the transforms, in order.
  apply_interceptors-mapping_requests :
      (fs : List (Req → Node → Req)) (c : ClientCtx Req) (seq : Lazy Resp)
      → apply_interceptors (map mapping_requests fs) c seq
        ≡ (record c { transforms = c.transforms ++ fs }, seq)
  unfolding apply_interceptors map_request
  apply_interceptors-mapping_requests [] c seq =
      ap (λ fs. (record c { transforms = fs }, seq)) (sym (append-nil c.transforms))
  apply_interceptors-mapping_requests (f ∷ fs) c seq =
      apply_interceptors-mapping_requests fs (record c { transforms = c.transforms ++ f ∷ [] }) seq
      ∙ ap (λ gs. (record c { transforms = gs }, seq)) (append_assoc c.transforms (f ∷ []) fs)

  module _ (zero_value : Resp) (unmarshal : Option Message → Option Resp ⊎ Err) where
    -- `newQuorumCallClientCtx` with the interceptors, as `invokeQuorumCall` calls it.
    unfoldable pub invoke_quorum_call :
        List (Interceptor Req Resp)
        → ℕ
        → Configuration
        → ℕ
        → ℕ
        → Req
        → String
        → Bool
        → ClientCtx Req × Lazy Resp
    unfolding apply_interceptors new_quorum_call_ctx
    invoke_quorum_call interceptors ctx c id chan req method streaming =
        let made = (new_quorum_call_ctx ctx c id chan req method streaming).0 in
        let seq : Lazy Resp =
          if streaming
          then streaming_response_seq zero_value unmarshal
          else default_response_seq zero_value unmarshal (length c) in
        apply_interceptors interceptors made seq
