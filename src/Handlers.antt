-- ===== src/Handlers.antt =====
-- handler.go, server.go: what a server does with a request that the stream gives it.
pub mod Requests
pub mod Examples
use gorums_ata.Base.{
  ℕ, ◌+◌, ◌-◌, ◌⊎◌, inl, inr, ◌&&◌, Option, none, some, List, [], ◌∷◌, ◌++◌, map, ◌==◌,
  if◌then◌else◌, is_some, is_none,
}
use Prim.Native.String.{String}
use text.Mathlib.Text.{◌==◌ as str_eq}
use gorums_ata.Errors.{Err}
use gorums_ata.Stream.Types.{Status, Message, Run, ok, panics, ◌>>=◌}

-- `Message` of handler.go: the proto message and the envelope, each of which may be nil.
pub record HandlerMessage (P : Type 0) : Type 0 where
  pub msg : Option P
  pub envelope : Option Message

-- `GetMessageSeqNo`, `GetMethod` and `GetPayload` of an envelope that may be nil.
abbrev pub seq_of : Option Message → ℕ
seq_of none = 0
seq_of (some v) = v.seq_no

abbrev pub method_of : Option Message → String
method_of none = ""
method_of (some v) = v.method

abbrev pub payload_of : Option Message → List ℕ
payload_of none = []
payload_of (some v) = v.payload

-- What has come of a `ServerCtx`: how often `release` was called, and the messages sent.
pub record ServerCtx : Type 0 where
  pub released : ℕ
  pub outbox : List (Option Message)

-- What a handler returns, with the context that it leaves.
pub record Outcome (P : Type 0) : Type 0 where
  pub ctx : ServerCtx
  pub out : Option (HandlerMessage P)
  pub err : Option Err

abbrev pub Handler : Type 0 → Type 0
Handler P = ServerCtx → HandlerMessage P → Run (Outcome P)

abbrev pub Interceptor : Type 0 → Type 0
Interceptor P = ServerCtx → HandlerMessage P → Handler P → Run (Outcome P)

-- `ServerCtx.Release`
unfoldable pub release : ServerCtx → ServerCtx
release ctx = record ctx { released = ctx.released + 1 }

module _ {P : Type 0} where
  -- `chainInterceptors`: its loop wraps the last interceptor first.
  unfoldable pub chain_interceptors : Handler P → List (Interceptor P) → Handler P
  chain_interceptors final [] = final
  chain_interceptors final (i ∷ is) =
      let next = chain_interceptors final is in λ ctx m. i ctx m next

  -- `NewResponseMessage`
  unfoldable pub new_response_message :
      Option (HandlerMessage P) → Option P → Option (HandlerMessage P)
  new_response_message none resp = none
  new_response_message (some m) resp = some (record {
    msg = resp;
    envelope = some (record {
      seq_no = seq_of m.envelope;
      method = method_of m.envelope;
      payload = [];
      status = none;
      entries = [];
    });
  })

  -- `Server.handlers`
  abbrev pub find_handler : String → List (String × Handler P) → Option (Handler P)
  find_handler method [] = none
  find_handler method ((name, h) ∷ hs) =
      if str_eq name method then some h else find_handler method hs

  -- `RegisterHandler`; the map finds the latest one.
  unfoldable pub register_handler :
      List (Interceptor P)
      → List (String × Handler P)
      → String
      → Handler P
      → List (String × Handler P)
  unfolding chain_interceptors
  register_handler interceptors hs method h = (method, chain_interceptors h interceptors) ∷ hs

  -- `from_error` is grpc's `status.FromError`, or else `status.New` with the code `Unknown`.
  module _ (from_error : Err → Status) where
    -- `MessageWithError`: setting the status of a nil message, or of a nil envelope, panics.
    unfoldable pub message_with_error :
        Option (HandlerMessage P)
        → Option (HandlerMessage P)
        → Option Err
        → Run (Option (HandlerMessage P))
    unfolding new_response_message
    message_with_error request out err =
        let out' : Option (HandlerMessage P) =
          if is_some out then out else new_response_message request none in
        elim err [
          | none ↦ ok out'
          | some e ↦ elim out' [
            | none ↦ panics
            | some o ↦ elim o.envelope [
              | none ↦ panics
              | some v ↦
                  ok (
                    some (record o { envelope = some (record v { status = some (from_error e) }) }))
            ]
          ]
        ]

    -- `marshal` is `proto.Marshal`.
    module _ (marshal : P → List ℕ ⊎ Err) where
      -- The message that `SendMessage` gives to `send`.
      unfoldable pub with_payload : HandlerMessage P → Run (Option (HandlerMessage P))
      unfolding message_with_error
      with_payload m = elim m.msg [
        | none ↦ ok (some m)
        | some p ↦ elim (payload_of m.envelope) [
          | [] ↦ elim (marshal p) [
            | inl bytes ↦ elim m.envelope [
              | none ↦ panics
              | some v ↦ ok (some (record m { envelope = some (record v { payload = bytes }) }))
            ]
            | inr e ↦ message_with_error none (some m) (some e)
          ]
          | b ∷ bs ↦ ok (some m)
        ]
      ]

      -- `SendMessage`, of a message that may be nil: reading its fields panics then.
      unfoldable pub send_message : ServerCtx → Option (HandlerMessage P) → Run ServerCtx
      unfolding with_payload
      send_message ctx none = panics
      send_message ctx (some m) = with_payload m >>= λ o. elim o [
        | none ↦ panics
        | some sent ↦ ok (record ctx { outbox = ctx.outbox ++ sent.envelope ∷ [] })
      ]

      -- The end of `HandleRequest`, with the deferred `Release`.
      unfoldable pub respond :
          Message → ServerCtx → Option (HandlerMessage P) → Option Err → Run ServerCtx
      unfolding send_message message_with_error release
      respond req ctx out err =
          let request : HandlerMessage P = record { msg = none; envelope = some req } in
          let reply = message_with_error (some request) out err >>= λ m. send_message ctx m in
          if is_none out && is_none err then ok (release ctx) else (reply >>= λ c. ok (release c))

      -- `unmarshal` is `unmarshalRequest`, and `unimplemented` the error for a method's name.
      module _ (unmarshal : Message → P ⊎ Err) (unimplemented : String → Err) where
        -- The part of `HandleRequest` up to what is to be sent.
        unfoldable pub dispatch : List (String × Handler P) → ServerCtx → Message → Run (Outcome P)
        dispatch hs ctx req = elim (find_handler req.method hs) [
          | none ↦ ok (record { ctx = ctx; out = none; err = some (unimplemented req.method) })
          | some h ↦ elim (unmarshal req) [
            | inr e ↦ ok (record { ctx = ctx; out = none; err = some e })
            | inl p ↦ h ctx (record { msg = some p; envelope = some req })
          ]
        ]

        -- `HandleRequest`
        unfoldable pub handle_request :
            List (String × Handler P) → ServerCtx → Message → Run ServerCtx
        unfolding dispatch respond
        handle_request hs ctx req = dispatch hs ctx req >>= λ o. respond req o.ctx o.out o.err
