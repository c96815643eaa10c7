-- ===== src/Server/Alone.antt =====
-- server.go, handler.go: the configurations of a server that has no known peers.
use gorums_ata.Base.{
  ℕ, ◌≤◌, ◌≡◌, refl, ap, ◌∙◌, ◌↔◌, inl, inr, false, Option, none, some, List, [], ◌∷◌, arith,
  Bool-cases, Option-cases, is_some, to_nat, lookup,
}
use gorums_ata.Stream.Types.{ok, panics}
use gorums_ata.Stream.Deliver.{World}
use gorums_ata.Inbound.{
  Inbound, client_id_start, is_client, rebuild_config, Accepted, Event, run, new_inbound_manager,
}
use gorums_ata.Node.{Node}
use gorums_ata.Inbound.Current.{IsSound, IsCurrent, copies}
use gorums_ata.Inbound.Runs.{run-Proceeds}
use gorums_ata.Server.{
  ServerOption, Server, zero_options, apply_options, new_server, ctx_config, ctx_client_config,
  configuration_context, config_context, client_config_context,
}
use gorums_ata.Inbound.NoPeers.{
  HasNoPeers, nil_of_copies, HasNoPeers-config, run-HasNoPeers, rebuilt-HasNoPeers, start,
  start-IsSound,
}

client_context-lem :
    {P : Type 0} (s : Server P) (ids : List ℕ)
    → s.inbound.client_config ≡ ids
    → (c : Option (List ℕ)) × (client_config_context (some s) ≡ ok c) × ((c ≡ none) ↔ (ids ≡ []))
unfolding client_config_context ctx_client_config configuration_context
client_context-lem s [] e = (none, ground arith, (λ h. refl, λ h. refl))
client_context-lem s (k ∷ ks) e = (some (k ∷ ks), ground arith, (λ h. cc, λ h. cc))

-- Without peers, no client is listed exactly if no node has a stream.
unconnected_iff :
    (im : Inbound)
    → IsCurrent im
    → HasNoPeers im
    → (im.client_config ≡ [])
      ↔ ((k : ℕ) (n : Node) → lookup k im.nodes ≡ some n → is_some n.channel ≡ false)
unconnected_iff im cur lonely = (
  (λ empty k n found. elim (Bool-cases (is_some n.channel)) [
    | inr off ↦ off
    | inl on ↦
        let high : client_id_start ≤ k = ground (arith, lonely k) in
        let count : copies k im.client_config ≡ to_nat (is_client k n) =
          cur.clients k ∙ rw found refl in
        let zero_ : copies k im.client_config ≡ 0 = ap (copies k) empty in ground (arith, count)
  ]),
  λ off. nil_of_copies im.client_config λ k. elim (Option-cases (lookup k im.nodes)) [
    | inl absent ↦ cur.clients k ∙ rw absent refl
    | inr (n, found) ↦
        let count : copies k im.client_config ≡ to_nat (is_client k n) =
          cur.clients k ∙ rw found refl in
        ground (arith, count, off k n found)
  ],
)

module _ {P : Type 0} (opts : List (ServerOption P)) (s : Server P)
    (no_peers : (apply_options zero_options opts).peer_opt ≡ none)
    (made : new_server opts ≡ ok s) where
  new_server-inbound :
      s.inbound
      ≡ rebuild_config (
          start
            (apply_options zero_options opts).my_id
            (is_some (apply_options zero_options opts).on_config_change))
  unfolding new_server new_inbound_manager
  new_server-inbound = ground arith

  -- On a server that was made without a list of peers, in whatever order clients connect and leave,
  -- `ConfigContext` panics, since `Config` is empty but not nil; `ClientConfigContext` returns, and
  -- its result is nil exactly if none of the manager's nodes has a stream.
  pub config_context_alone :
      (w w' : World) (im : Inbound) (es : List Event) (as_ : List Accepted)
      → run w s.inbound es ≡ ok (w', im, as_)
      → (config_context (some (record s { inbound = im })) ≡ panics)
        × ((c : Option (List ℕ)) × (client_config_context (some (record s { inbound = im })) ≡ ok c)
            × ((c ≡ none)
                ↔ ((k : ℕ) (n : Node) → lookup k im.nodes ≡ some n → is_some n.channel ≡ false)))
  unfolding config_context ctx_config configuration_context
  config_context_alone w w' im es as_ ran =
      let o = apply_options zero_options opts in
      let begun = start-IsSound o.my_id (is_some o.on_config_change) in
      let sound : IsSound s.inbound = rw new_server-inbound begun in
      let lonely : HasNoPeers s.inbound =
        rw new_server-inbound (rebuilt-HasNoPeers _ (λ k low. refl)) in
      let now = (run-Proceeds w w' s.inbound im es as_ sound ran).0 in
      let still = run-HasNoPeers w w' s.inbound im es as_ sound lonely ran in
      let empty = HasNoPeers-config im now.0 still in
      let (c, is, nil_iff) = client_context-lem (record s { inbound = im }) im.client_config refl in
      let off = unconnected_iff im now.0 still in
      (ground arith, (c, is, ((λ e. off.0 (nil_iff.0 e)), λ h. nil_iff.1 (off.1 h))))
