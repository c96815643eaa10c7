-- ===== src/Handlers/Examples.antt =====
-- examples/interceptors/server_interceptors.go: interceptors that log, delay, reject, and add
-- metadata. Their logging is left out, and that `DelayedInterceptor` sleeps before it goes on.
use gorums_ata.Base.{
  ℕ, ◌*◌, ◌≡◌, refl, inl, inr, Bool, true, false, ◌&&◌, Option, none, some, List, [], ◌∷◌, map,
  arith, if◌then◌else◌, Bool-cases, length, Text, codes, same_text,
}
use gorums_ata.Errors.{Err}
use gorums_ata.Stream.Types.{Message, ok, panics}
use gorums_ata.Handlers.{HandlerMessage, ServerCtx, Handler, Interceptor, chain_interceptors}

-- For how many milliseconds `DelayedInterceptor` sleeps: by the address of the sender, if the context
-- has a peer that has an address.
unfoldable pub delay : Option (Option Text) → ℕ
delay none = 0
delay (some none) = 0
delay (some (some addr)) = length addr * 100

pub data Example : Type 0 where
  logging logging_simple delayed adds_metadata no_foo : Example

abbrev pub rejects : List Example → Bool
rejects [] = false
rejects (no_foo ∷ es) = true
rejects (logging ∷ es) = rejects es
rejects (logging_simple ∷ es) = rejects es
rejects (delayed ∷ es) = rejects es
rejects (adds_metadata ∷ es) = rejects es

abbrev pub is_foo : Option Text → Bool
is_foo none = false
is_foo (some k) = same_text k (codes "foo")

-- The envelope that the handler is given.
abbrev pub given : List Example → Message → Message
given [] v = v
given (adds_metadata ∷ es) v =
    given es (record v { entries = record { key = "customKey"; value = "customValue" } ∷ [] })
given (no_foo ∷ es) v = given es v
given (logging ∷ es) v = given es v
given (logging_simple ∷ es) v = given es v
given (delayed ∷ es) v = given es v

module _ {P : Type 0} where
  -- `LoggingInterceptor`
  unfoldable pub logging_interceptor : Interceptor P
  logging_interceptor ctx in_ next = next ctx in_

  -- `LoggingSimpleInterceptor`
  unfoldable pub logging_simple_interceptor : Interceptor P
  logging_simple_interceptor ctx in_ next = next ctx in_

  -- `DelayedInterceptor`, without its sleep.
  unfoldable pub delayed_interceptor : Interceptor P
  delayed_interceptor ctx in_ next = next ctx in_

  -- `MetadataInterceptor`: the envelope's entries are replaced; without an envelope it panics.
  unfoldable pub metadata_interceptor : Interceptor P
  metadata_interceptor ctx in_ next = elim in_.envelope [
    | none ↦ panics
    | some v ↦ next ctx (record in_ {
      envelope =
          some (record v { entries = record { key = "customKey"; value = "customValue" } ∷ [] });
    })
  ]

  -- `key` is `GetKey` of a message that has it, and `rejected` the error.
  abbrev pub key_of : (P → Option Text) → HandlerMessage P → Option Text
  key_of key m = elim m.msg [ none ↦ none | some p ↦ key p ]

  module _ (key : P → Option Text) (rejected : Err) where
    -- `NoFooAllowedInterceptor`
    unfoldable pub no_foo_allowed_interceptor : Interceptor P
    no_foo_allowed_interceptor ctx in_ next =
        if is_foo (key_of key in_)
        then ok (record { ctx = ctx; out = none; err = some rejected })
        else next ctx in_

    abbrev pub interceptor : Example → Interceptor P
    interceptor logging = logging_interceptor
    interceptor logging_simple = logging_simple_interceptor
    interceptor delayed = delayed_interceptor
    interceptor adds_metadata = metadata_interceptor
    interceptor no_foo = no_foo_allowed_interceptor

    -- In any chain of the examples a message that has an envelope and the key "foo" is rejected, and the
    -- handler is not called, if `NoFooAllowedInterceptor` is in the chain. Otherwise the chain does
    -- what the handler does with the message, whose entries `MetadataInterceptor` has replaced if it
    -- is in the chain.
    pub chain_interceptors-examples :
        (h : Handler P) (es : List Example) (ctx : ServerCtx) (p : Option P) (v : Message)
        → chain_interceptors h (map interceptor es) ctx (record { msg = p; envelope = some v }) ≡ (
            if rejects es && is_foo (key_of key (record { msg = p; envelope = some v }))
            then ok (record { ctx = ctx; out = none; err = some rejected })
            else h ctx (record { msg = p; envelope = some (given es v) }))
    unfolding chain_interceptors logging_interceptor logging_simple_interceptor delayed_interceptor
        metadata_interceptor no_foo_allowed_interceptor
    chain_interceptors-examples h [] ctx p v = refl
    chain_interceptors-examples h (logging ∷ es) ctx p v = chain_interceptors-examples h es ctx p v
    chain_interceptors-examples h (logging_simple ∷ es) ctx p v =
        chain_interceptors-examples h es ctx p v
    chain_interceptors-examples h (delayed ∷ es) ctx p v = chain_interceptors-examples h es ctx p v
    chain_interceptors-examples h (adds_metadata ∷ es) ctx p v =
        chain_interceptors-examples h es ctx p _
    chain_interceptors-examples h (no_foo ∷ es) ctx p v =
        elim (Bool-cases (is_foo (key_of key (record { msg = p; envelope = some v })))) [
          | inl foo ↦ ground arith
          | inr fine ↦ ground (arith, chain_interceptors-examples h es ctx p v)
        ]
