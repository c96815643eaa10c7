-- ===== src/Handlers/Requests.antt =====
-- handler.go, server.go: the order of interceptors, and the replies to a request.
use gorums_ata.Base.{
  ℕ, ◌+◌, ◌≡◌, refl, sym, ap, ◌∙◌, ◌⊎◌, inl, inr, Bool, true, false, ◌&&◌, ◌||◌, not, Option, none,
  some, List, [], ◌∷◌, ◌++◌, map, arith, Bool-cases, Option-cases, is_some, is_none, Sum-cases,
}
use Prim.Native.String.{String}
use mathlib.Core.List.{append_assoc, append-nil}
use gorums_ata.Errors.{Err}
use gorums_ata.Stream.Types.{Status, Message, Run, ok, panics}
use gorums_ata.Config.{is_empty}
use gorums_ata.Handlers.{
  HandlerMessage, ServerCtx, Outcome, seq_of, Handler, Interceptor, chain_interceptors,
  with_payload, message_with_error, send_message, dispatch, handle_request, release, respond,
  new_response_message,
}

-- The context after one more message and the release.
abbrev replied : ServerCtx → Option Message → ServerCtx
replied ctx m = record { released = ctx.released + 1; outbox = ctx.outbox ++ m ∷ [] }

abbrev pub has_status : Option Message → Bool
has_status none = false
has_status (some v) = is_some v.status

module _ {P : Type 0} where
  -- An interceptor that sends a message of its own before it calls the next.
  abbrev pub sends_first : Option Message → Interceptor P
  sends_first m ctx request next = next (record ctx { outbox = ctx.outbox ++ m ∷ [] }) request

  -- Interceptors run in the order in which they are given, each before the handler.
  pub chain_interceptors_lem :
      (final : Handler P) (ms : List (Option Message)) (ctx : ServerCtx)
      (request : HandlerMessage P)
      → chain_interceptors final (map sends_first ms) ctx request
        ≡ final (record ctx { outbox = ctx.outbox ++ ms }) request
  unfolding chain_interceptors
  chain_interceptors_lem final [] ctx request =
      ap (λ b. final (record ctx { outbox = b }) request) (sym (append-nil ctx.outbox))
  chain_interceptors_lem final (m ∷ ms) ctx request =
      chain_interceptors_lem final ms (record ctx { outbox = ctx.outbox ++ m ∷ [] }) request
      ∙ ap (λ b. final (record ctx { outbox = b }) request) (append_assoc ctx.outbox (m ∷ []) ms)

  -- The message ID of a reply: the request's, or that of the message that the handler returned.
  abbrev pub reply_seq_no : Message → Option (HandlerMessage P) → ℕ
  reply_seq_no req none = req.seq_no
  reply_seq_no req (some o) = seq_of o.envelope

  -- A message without an envelope, on which something is to be set.
  abbrev pub lacks_envelope : Option (HandlerMessage P) → Option Err → Bool
  lacks_envelope none err = false
  lacks_envelope (some o) err = is_none o.envelope && (is_some err || is_some o.msg)

  -- The context after the reply: `Release` was called once more, and nothing was sent, if there
  -- was neither a message nor an error, and otherwise one message with the ID and the status due.
  abbrev pub HasReplied :
      Message → ServerCtx → Option (HandlerMessage P) → Option Err → ServerCtx → Type 0
  HasReplied req ctx out err end =
      (end.released ≡ ctx.released + 1)
      × (((is_some out || is_some err) ≡ false) × (end.outbox ≡ ctx.outbox)
          ⊎ ((is_some out || is_some err) ≡ true)
            × (v : Option Message) × (end.outbox ≡ ctx.outbox ++ v ∷ [])
            × (seq_of v ≡ reply_seq_no req out)
            × ((is_some err && not (has_status v)) ≡ false))

  module _ (from_error : Err → Status) (marshal : P → List ℕ ⊎ Err) where
    -- The message that is sent has the envelope's ID, and its status if it has one.
    abbrev IsFilled : Option Message → Run (Option (HandlerMessage P)) → Type 0
    IsFilled v r =
        (sent : HandlerMessage P) × (r ≡ ok (some sent))
        × (seq_of sent.envelope ≡ seq_of v)
        × ((has_status v && not (has_status sent.envelope)) ≡ false)

    with_payload_lem :
        (v : Message) (m : Option P)
        → IsFilled
            (some v)
            (with_payload from_error marshal (record { msg = m; envelope = some v }))
    unfolding with_payload message_with_error
    with_payload_lem v none = (_, refl, refl, ground arith)
    with_payload_lem v (some p) = elim (Bool-cases (is_empty v.payload)) [
      | inr ready ↦ (record { msg = some p; envelope = some v }, ground arith, refl, ground arith)
      | inl wanted ↦ elim (Sum-cases (marshal p)) [
        | inl (bytes, fine) ↦ (
          record { msg = some p; envelope = some (record v { payload = bytes }) },
          ground arith,
          refl,
          ground arith,
        )
        | inr (e, bad) ↦ (
          record { msg = some p; envelope = some (record v { status = some (from_error e) }) },
          ground arith,
          refl,
          ground arith,
        )
      ]
    ]

    -- What `HandleRequest` does with what a handler has returned.
    abbrev pub Responds :
        Message → ServerCtx → Option (HandlerMessage P) → Option Err → Run ServerCtx → Type 0
    Responds req ctx out err r =
        ((lacks_envelope out err ≡ true) × (r ≡ panics))
        ⊎ ((lacks_envelope out err ≡ false)
            × (end : ServerCtx) × (r ≡ ok end)
            × HasReplied req ctx out err end)

    respond_lem :
        (req : Message) (ctx : ServerCtx) (out : Option (HandlerMessage P)) (err : Option Err)
        → Responds req ctx out err (respond from_error marshal req ctx out err)
    unfolding respond send_message message_with_error new_response_message release
    respond_lem req ctx none none = inr (refl, release ctx, refl, (refl, inl (refl, refl)))
    respond_lem req ctx none (some e) =
        let v : Message = record {
          seq_no = req.seq_no;
          method = req.method;
          payload = [];
          status = some (from_error e);
          entries = [];
        } in
        unfold with_payload in
        inr (refl, replied ctx (some v), refl, (refl, inr (refl, some v, refl, refl, refl)))
    respond_lem req ctx (some o) none = elim (Option-cases o.envelope) [
      | inl bare ↦ elim (Option-cases o.msg) [
        | inl empty ↦ inr (
          ground arith,
          replied ctx none,
          unfold with_payload in ground arith,
          (refl, inr (refl, none, refl, ground arith, refl)),
        )
        | inr (p, has) ↦ elim (Sum-cases (marshal p)) [
          | inl (bytes, fine) ↦ inl (ground arith, unfold with_payload in ground arith)
          | inr (e, bad) ↦ inl (ground arith, unfold with_payload in ground arith)
        ]
      ]
      | inr (v, has) ↦
          let (sent, is, seq, st) = with_payload_lem v o.msg in
          let whole : o ≡ record { msg = o.msg; envelope = some v } =
            λ i. record { msg = o.msg; envelope = has i } in
          let ran = ap (with_payload from_error marshal) whole ∙ is in
          inr (
            ground arith,
            replied ctx sent.envelope,
            rw ran refl,
            (refl, inr (refl, sent.envelope, refl, seq ∙ ap seq_of (sym has), refl)),
          )
    ]
    respond_lem req ctx (some o) (some e) = elim (Option-cases o.envelope) [
      | inl bare ↦ inl (ground arith, ground arith)
      | inr (v, has) ↦
          let (sent, is, seq, st) =
            with_payload_lem (record v { status = some (from_error e) }) o.msg in
          inr (
            ground arith,
            replied ctx sent.envelope,
            ground (arith, is),
            (refl, inr (refl, sent.envelope, refl, seq ∙ ap seq_of (sym has), st)),
          )
    ]

  module _ (from_error : Err → Status) (marshal : P → List ℕ ⊎ Err) (unmarshal : Message → P ⊎ Err)
      (unimplemented : String → Err) where
    -- When the handler has returned, or there is none, or the request is not valid, `HandleRequest`
    -- panics exactly if the handler's message has no envelope, and an error or a payload must be set
    -- on it. Otherwise it returns, and calls `Release` once more. It then sends nothing if there is
    -- neither a message nor an error, and else one message, which has the message ID of the
    -- handler's message or else of the request, and a status if there is an error.
    pub handle_request_lem :
        (hs : List (String × Handler P)) (ctx : ServerCtx) (req : Message) (o : Outcome P)
        → dispatch from_error marshal unmarshal unimplemented hs ctx req ≡ ok o
        → Responds from_error marshal req o.ctx o.out o.err
            (handle_request from_error marshal unmarshal unimplemented hs ctx req)
    unfolding handle_request
    handle_request_lem hs ctx req o e =
        rw (handle_request, e) (respond_lem from_error marshal req o.ctx o.out o.err)
