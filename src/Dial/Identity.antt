-- ===== src/Dial/Identity.antt =====
-- opts.go, inbound_manager.go: how a server is seen by the servers that it connects to.
use gorums_ata.Base.{
  ℕ, ◌^◌, ◌<◌, ◌≡◌, refl, sym, ap, ◌∙◌, true, some, List, [], ◌∷◌, ◌++◌, map, arith, ◌==◌,
  if◌then◌else◌, All, Text,
}
use mathlib.Core.List.{append-nil, append_assoc}
use gorums_ata.Stream.Types.{ok}
use gorums_ata.Stream.Deliver.{World}
use gorums_ata.Integers.{node_id, has_peer_metadata, metadata_with_node_id}
use gorums_ata.Integers.RoundTrip.{node_id-metadata}
use gorums_ata.Inbound.{Inbound, untracked, is_known, register_peer, accept_client, accept_peer}
use gorums_ata.Server.{Server}
use gorums_ata.Dial.{
  Metadata, values, node_id_key, DialOptions, DialOption, with_metadata, with_server,
  new_dial_options, apply_dial_options, install,
}

-- All values of the key, in order.
abbrev values_of : List Metadata → List Text
values_of [] = []
values_of (md ∷ mds) = values node_id_key md ++ values_of mds

values_of_none :
    (mds : List Metadata) → All (λ md. values node_id_key md ≡ []) mds → values_of mds ≡ []
values_of_none [] h = refl
values_of_none (md ∷ mds) h = rw (h.0, values_of_none mds h.1) refl

-- The first value counts.
node_id-head :
    (id : ℕ) (more : List Text)
    → id < 2 ^ 32
    → (node_id (some (metadata_with_node_id id ++ more)) ≡ id)
      × (has_peer_metadata (some (metadata_with_node_id id ++ more)) ≡ true)
unfolding metadata_with_node_id node_id has_peer_metadata
node_id-head id more small = ((node_id-metadata id small).0, ground arith)

no_identity :
    (w : World) (im : Inbound) (stream : ℕ)
    → accept_peer w im stream (node_id (some [])) (has_peer_metadata (some []))
      ≡ ok (w, im, untracked)
unfolding accept_peer is_known node_id has_peer_metadata
no_identity w im stream = refl

module _ {P : Type 0} (join : Metadata → Metadata → Metadata)
    (joined : (k : Text) (a b : Metadata) → values k (join a b) ≡ values k a ++ values k b) where
  values-with_all :
      (o : DialOptions P) (mds : List Metadata)
      → values node_id_key (apply_dial_options o (map (with_metadata join) mds)).metadata
        ≡ values node_id_key o.metadata ++ values_of mds
  unfolding apply_dial_options with_metadata
  values-with_all o [] = sym (append-nil (values node_id_key o.metadata))
  values-with_all o (md ∷ mds) =
      values-with_all (record o { metadata = join o.metadata md }) mds
      ∙ ap (λ vs. vs ++ values_of mds) (joined node_id_key o.metadata md)
      ∙ append_assoc (values node_id_key o.metadata) (values node_id_key md) (values_of mds)

  apply-append :
      (o : DialOptions P) (xs ys : List (DialOption P))
      → apply_dial_options o (xs ++ ys) ≡ apply_dial_options (apply_dial_options o xs) ys
  unfolding apply_dial_options
  apply-append o [] ys = refl
  apply-append o (x ∷ xs) ys = apply-append (x o) xs ys

  installed :
      (srv : Server P) (o : DialOptions P) (after : List Metadata)
      → values node_id_key o.metadata ≡ []
      → values node_id_key
          (apply_dial_options o (install join srv ∷ map (with_metadata join) after)).metadata
        ≡ metadata_with_node_id srv.inbound.my_id ++ values_of after
  unfolding apply_dial_options install
  installed srv o after none_yet =
      values-with_all (install join srv o) after
      ∙ ap (λ vs. vs ++ values_of after)
          (joined node_id_key o.metadata
              ((node_id_key, metadata_with_node_id srv.inbound.my_id) ∷ [])
            ∙ ap (λ vs. vs ++ metadata_with_node_id srv.inbound.my_id) none_yet)

  values-with_server :
      (srv : Server P) (opt : DialOption P) (before after : List Metadata)
      → with_server join (some srv) ≡ ok opt
      → All (λ md. values node_id_key md ≡ []) before
      → values node_id_key
          (apply_dial_options new_dial_options
            (map (with_metadata join) before ++ opt ∷ map (with_metadata join) after)).metadata
        ≡ metadata_with_node_id srv.inbound.my_id ++ values_of after
  unfolding with_server
  values-with_server srv opt before after made fresh =
      let is : opt ≡ install join srv = cc in
      rw
        (
          is,
          apply-append new_dial_options (map (with_metadata join) before)
              (install join srv ∷ map (with_metadata join) after),
        )
        (installed srv (apply_dial_options new_dial_options (map (with_metadata join) before)) after
          (values-with_all new_dial_options before ∙ values_of_none before fresh))

  -- A server sees a connection made with `WithServer` by the dialling server's own ID: as that peer if
  -- it knows the ID, as a client that it can call if the ID is 0, and otherwise it does not track it.
  -- Without `WithServer`, it does not track the connection. Any metadata may be given after
  -- `WithServer`, and before it any that has no value for the node ID's key.
  pub accept_peer-with_server :
      (srv : Server P) (opt : DialOption P) (before after : List Metadata) (w : World)
      (im : Inbound) (stream : ℕ)
      → with_server join (some srv) ≡ ok opt
      → All (λ md. values node_id_key md ≡ []) before
      → srv.inbound.my_id < 2 ^ 32
      → let id = srv.inbound.my_id in
        let plain = map (with_metadata join) before in
        let sent = λ (opts : List (DialOption P)).
          some (values node_id_key (apply_dial_options new_dial_options opts).metadata) in
        let mine = sent (plain ++ opt ∷ map (with_metadata join) after) in
        (accept_peer w im stream (node_id mine) (has_peer_metadata mine) ≡ (
          if is_known im id
          then register_peer w im stream id
          else if id == 0
          then accept_client w im stream
          else ok (w, im, untracked)))
        × (accept_peer w im stream (node_id (sent plain)) (has_peer_metadata (sent plain))
            ≡ ok (w, im, untracked))
  unfolding accept_peer
  accept_peer-with_server srv opt before after w im stream made fresh small =
      let (back, has) = node_id-head srv.inbound.my_id (values_of after) small in
      (
        rw (values-with_server srv opt before after made fresh) (rw (back, has) (ground arith)),
        rw (values-with_all new_dial_options before, values_of_none before fresh)
            (no_identity w im stream),
      )
