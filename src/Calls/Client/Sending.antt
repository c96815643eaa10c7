-- ===== src/Calls/Client/Sending.antt =====
-- client_interceptor.go: what `send` does for each node of the configuration.
use gorums_ata.Base.{
  ℕ, ◌≡◌, refl, ap, ◌∙◌, ◌⊎◌, inl, inr, Bool, true, List, [], ◌∷◌, ◌++◌, map, arith, Bool-cases,
  is_some,
}
use gorums_ata.Errors.{Err}
use gorums_ata.Stream.Types.{MetadataEntry, Message}
use gorums_ata.Node.{Node}
use gorums_ata.Config.{Configuration, is_empty, node_ids}
use gorums_ata.Calls.Client.{
  ClientCtx, Effect, target, effect_of, transformed, new_message, transform_and_marshal,
  send_per_node, send_each, send_shared, send,
}

module _ {Req : Type 0} (marshal : Req → List ℕ ⊎ Err) (entries : List MetadataEntry)
    (is_valid : Req → Bool) where
  target-effect_of :
      (c : ClientCtx Req) (n : Node) (made : Message ⊎ Err) (rest : List Effect)
      → is_some c.reply_chan ≡ true
      → map target (effect_of marshal entries is_valid c n made ++ rest) ≡ n.id ∷ map target rest
  target-effect_of c n (inl m) rest h = refl
  target-effect_of c n (inr e) rest h = ground arith

  send_each-node_ids :
      (c : ClientCtx Req) (made : Message ⊎ Err) (ns : Configuration)
      → is_some c.reply_chan ≡ true
      → map target (send_each marshal entries is_valid c made ns) ≡ node_ids ns
  unfolding send_each node_ids
  send_each-node_ids c made [] h = refl
  send_each-node_ids c made (n ∷ ns) h =
      target-effect_of c n made _ h ∙ ap (◌∷◌ n.id) (send_each-node_ids c made ns h)

  send_per_node-node_ids :
      (c : ClientCtx Req) (ns : Configuration)
      → is_some c.reply_chan ≡ true
      → map target (send_per_node marshal entries is_valid c ns) ≡ node_ids ns
  unfolding send_per_node node_ids
  send_per_node-node_ids c [] h = refl
  send_per_node-node_ids c (n ∷ ns) h =
      target-effect_of c n (transform_and_marshal marshal entries is_valid c n) _ h
      ∙ ap (◌∷◌ n.id) (send_per_node-node_ids c ns h)

  -- A call that waits for its nodes gives each node of the configuration one request, or reports
  -- one error for it, in the configuration's order, whatever the transforms and `Marshal` do.
  pub send-node_ids :
      (c : ClientCtx Req)
      → is_some c.reply_chan ≡ true
      → map target (send marshal entries is_valid c) ≡ node_ids c.config
  unfolding send send_shared
  send-node_ids c h = elim (Bool-cases (is_empty c.transforms)) [
    | inl plain ↦ rw plain (
        send_each-node_ids c (new_message marshal entries is_valid c.msg_id c.method c.request)
          c.config h)
    | inr some_ ↦ rw some_ (send_per_node-node_ids c c.config h)
  ]

  transform_and_marshal-plain :
      (c : ClientCtx Req) (n : Node)
      → c.transforms ≡ []
      → is_valid c.request ≡ true
      → transform_and_marshal marshal entries is_valid c n
        ≡ new_message marshal entries is_valid c.msg_id c.method c.request
  unfolding transform_and_marshal transformed
  transform_and_marshal-plain c n h v = rw h (rw v refl)

  shared_per_node :
      (c : ClientCtx Req) (ns : Configuration)
      → c.transforms ≡ []
      → is_valid c.request ≡ true
      → send_each marshal entries is_valid c
          (new_message marshal entries is_valid c.msg_id c.method c.request)
          ns
        ≡ send_per_node marshal entries is_valid c ns
  unfolding send_each send_per_node transform_and_marshal transformed
  shared_per_node c [] h v = refl
  shared_per_node c (n ∷ ns) h v = rw (transform_and_marshal-plain c n h v) (
      ap
        (λ rest.
          effect_of marshal entries is_valid c n
            (new_message marshal entries is_valid c.msg_id c.method c.request)
          ++ rest)
        (shared_per_node c ns h v))

  -- The message that `sendShared` marshals once is the one that each node gets when it is marshaled
  -- for each node with no transforms, if the request is valid.
  pub send_shared_lem :
      (c : ClientCtx Req)
      → c.transforms ≡ []
      → is_valid c.request ≡ true
      → send_shared marshal entries is_valid c ≡ send_per_node marshal entries is_valid c c.config
  unfolding send_shared
  send_shared_lem c h v = shared_per_node c c.config h v
