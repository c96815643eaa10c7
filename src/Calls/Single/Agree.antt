-- ===== src/Calls/Single/Agree.antt =====
-- rpc.go, unicast.go, multicast.go: the calls of one node against those of a configuration.
use gorums_ata.Base.{
  ℕ, ◌≡◌, ◌⊎◌, inl, inr, Bool, true, false, Option, none, some, List, [], ◌∷◌, arith, Bool-cases,
  Option-cases, Sum-cases,
}
use Prim.Native.String.{String}
use gorums_ata.Errors.{Err, atom, skip_node, errors_is, push_error}
use gorums_ata.Stream.Types.{MetadataEntry, Message, Response, NodeResponse}
use gorums_ata.Node.{Node}
use gorums_ata.Calls.Client.{responded, new_message, send, map_to_call_response, drain_replies}
use gorums_ata.Calls.Single.{CallOptions, rpc_response, unicast, multicast}

-- Whether a call returned no error.
abbrev pub succeeds : Option (Option Err) → Bool
succeeds none = false
succeeds (some none) = true
succeeds (some (some e)) = false

module _ {Resp : Type 0} (zero_value : Resp) (unmarshal : Option Message → Option Resp ⊎ Err) where
  abbrev as_node_response : ℕ → Resp ⊎ Err → NodeResponse Resp
  as_node_response id (inl v) = record { node_id = id; value = v; err = none }
  as_node_response id (inr e) = record { node_id = id; value = zero_value; err = some e }

  -- A response means the same to `RPCCall` as to a quorum call: the value or the error that the
  -- call of one node returns is the entry of the response sequence.
  pub rpc_response-map_to_call_response :
      (r : Response)
      → map_to_call_response zero_value unmarshal r
        ≡ as_node_response r.node_id (rpc_response unmarshal r)
  unfolding map_to_call_response rpc_response
  rpc_response-map_to_call_response r = elim (Option-cases r.err) [
    | inr (e, bad) ↦ ground arith
    | inl fine ↦ elim (Sum-cases (unmarshal r.value)) [
      | inr (e, bad) ↦ ground arith
      | inl (o, got) ↦ elim (Option-cases o) [
        | inl other ↦ ground arith
        | inr (v, is) ↦ ground arith
      ]
    ]
  ]

module _ {Req : Type 0} (marshal : Req → List ℕ ⊎ Err) (entries : List MetadataEntry)
    (is_valid : Req → Bool) where
  -- A unicast to a node and a multicast to the configuration of that node alone, without
  -- interceptors, for a request that can be marshalled: both enqueue the same request at the node,
  -- and when the node reports no skip, they find it a success or a failure alike.
  pub unicast-multicast :
      (ctx : ℕ) (n : Node) (id chan : ℕ) (req : Req) (method : String) (opts : CallOptions)
      (m : Message) (r : Response)
      → new_message marshal entries is_valid id method req ≡ inl m
      → ((e : Err) → r.err ≡ some e → errors_is e (atom skip_node) ≡ false)
      → let one =
          unicast marshal entries is_valid ctx n id chan req method opts (some (responded r)) in
        let many =
          multicast marshal entries is_valid
            (λ c. c)
            ctx
            (n ∷ [])
            id
            chan
            req
            method
            opts
            (responded r ∷ []) in
        (one.effects ≡ many.effects) × (succeeds one.result ≡ succeeds many.result)
  unfolding unicast multicast new_message send drain_replies push_error
  unicast-multicast ctx n id chan req method opts m r made h = elim (Sum-cases (marshal req)) [
    | inr (e, bad) ↦ absurd (ground arith)
    | inl (payload, fine) ↦ elim (Bool-cases opts.ignores) [
      | inl ignoring ↦ (ground arith, ground arith)
      | inr waiting ↦ elim (Option-cases r.err) [
        | inl fine ↦ (ground arith, ground arith)
        | inr (e, bad) ↦ let counted = h e bad in (ground arith, ground arith)
      ]
    ]
  ]
