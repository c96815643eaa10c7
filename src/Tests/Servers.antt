-- ===== src/Tests/Servers.antt =====
-- server.go, opts.go, examples/interceptors: the theorems at concrete inputs.
use gorums_ata.Base.{
  ℕ, ◌≡◌, refl, sym, ◌↔◌, inl, inr, true, false, Option, none, some, List, [], ◌∷◌, ◌++◌, map,
  arith, ◌==◌, if◌then◌else◌, Bool-cases, Text, codes, same_text, same_text_iff, put_text,
  find_text-put_text, lookup, is_some,
}
use mathlib.Core.List.{append-nil}
use gorums_ata.Errors.{Err, atom, foreign}
use gorums_ata.Stream.Types.{Run, ok, panics}
use gorums_ata.Stream.Deliver.{World}
use gorums_ata.Node.{Node, new_inbound_node, attach_stream}
use gorums_ata.Inbound.{
  Inbound, Accepted, untracked, connects, run, step, is_known, register_peer, accept_client,
  accept_peer, rebuild_config, keys_where, new_inbound_manager,
}
use gorums_ata.Integers.{node_id, has_peer_metadata}
use gorums_ata.Handlers.{HandlerMessage, ServerCtx, Handler, find_handler}
use gorums_ata.Handlers.Examples.{logging, no_foo, interceptor, logging_simple}
use gorums_ata.Server.{
  Server, new_server, config_context, client_config_context, with_buffer_sizes, apply_options,
  zero_options, with_interceptors, register,
}
use gorums_ata.Server.Alone.{config_context_alone}
use gorums_ata.Dial.{
  Metadata, values, node_id_key, DialOption, with_metadata, with_server, install, new_dial_options,
  apply_dial_options,
}
use gorums_ata.Dial.Identity.{accept_peer-with_server}
use gorums_ata.Storage.Start.{parse_interceptors}
use gorums_ata.Storage.Flags.{flag_of, named, parse_interceptors-register}
use gorums_ata.Tests.Data.{world, message, state_of}

abbrev alone : Server ℕ
unfolding rebuild_config keys_where
alone = record {
  handlers = [];
  interceptors = [];
  inbound = rebuild_config (record {
    my_id = 0;
    has_handler = true;
    has_callback = false;
    nodes = [];
    config = [];
    client_config = [];
    next_msg_id = 0;
    next_client_id = 1048576;
    changes = [];
    epoch = 0;
    stopped = false;
  });
  recv_buffer_size = 8;
  send_buffer_size = 4;
  connect_callback = none;
  on_config_change = none;
  grpc_opts = [];
}

no_peers : (apply_options {P = ℕ} zero_options (with_buffer_sizes 8 4 ∷ [])).peer_opt ≡ none
unfolding apply_options with_buffer_sizes
no_peers = refl

alone_made : new_server (with_buffer_sizes 8 4 ∷ []) ≡ ok alone
unfolding new_server apply_options with_buffer_sizes new_inbound_manager rebuild_config keys_where
alone_made = refl

abbrev client_joins : Run (World × Inbound × List Accepted)
client_joins = run world alone.inbound (connects 5 0 true ∷ [])

abbrev joined : World × Inbound × List Accepted
joined = state_of (world, alone.inbound, []) client_joins

ran : client_joins ≡ ok joined
unfolding run step accept_peer accept_client is_known attach_stream new_inbound_node rebuild_config
    keys_where
ran = refl

config_context_alone_example :
    (config_context (some (record alone { inbound = joined.1 })) ≡ panics)
    × ((c : Option (List ℕ)) × (client_config_context (some (record alone { inbound = joined.1 }))
          ≡ ok c)
        × ((c ≡ none)
            ↔ ((k : ℕ) (n : Node) → lookup k joined.1.nodes ≡ some n → is_some n.channel ≡ false)))
config_context_alone_example =
    config_context_alone (with_buffer_sizes 8 4 ∷ []) alone no_peers alone_made world joined.0
      joined.1 (connects 5 0 true ∷ []) joined.2 ran

-- `metadata.Join`, of maps.
abbrev join : Metadata → Metadata → Metadata
join a [] = a
join a ((k, vs) ∷ b) = put_text k (values k a ++ vs) (join a b)

values-join : (k : Text) (a b : Metadata) → values k (join a b) ≡ values k a ++ values k b
values-join k a [] = sym (append-nil (values k a))
values-join k a ((j, vs) ∷ b) = elim (Bool-cases (same_text j k)) [
  | inl here ↦
      let e : j ≡ k = (same_text_iff j k).0 here in
      rw e (ground (arith, find_text-put_text k k (values k a ++ vs) (join a b), same_text_iff k k))
  | inr other ↦
      ground (arith, find_text-put_text j k (values j a ++ vs) (join a b), values-join k a b)
]

abbrev tracing : Metadata
tracing = (codes "trace", codes "on" ∷ []) ∷ []

abbrev sent : List (DialOption ℕ) → Option (List Text)
sent opts = some (values node_id_key (apply_dial_options new_dial_options opts).metadata)

abbrev mine : Option (List Text)
mine = sent (with_metadata join tracing ∷ install join alone ∷ [])

accept_peer-with_server_example :
    (accept_peer world alone.inbound 5 (node_id mine) (has_peer_metadata mine) ≡ (
      if is_known alone.inbound 0
      then register_peer world alone.inbound 5 0
      else if 0 == 0
      then accept_client world alone.inbound 5
      else ok (world, alone.inbound, untracked)))
    × (accept_peer world alone.inbound 5
          (node_id (sent (with_metadata join tracing ∷ [])))
          (has_peer_metadata (sent (with_metadata join tracing ∷ [])))
        ≡ ok (world, alone.inbound, untracked))
unfolding rebuild_config keys_where with_server
accept_peer-with_server_example =
    accept_peer-with_server join values-join alone (install join alone) (tracing ∷ []) [] world
      alone.inbound 5 refl (refl, tt) (omega arith)

abbrev handler : Handler Text
handler ctx m = ok (record { ctx = ctx; out = some m; err = none })

abbrev to_write : Text → HandlerMessage Text
to_write key = record { msg = some key; envelope = some (message 4) }

abbrev idle : ServerCtx
idle = record { released = 0; outbox = [] }

abbrev rejected : Err
rejected = atom (foreign 3)

abbrev filtering : Server Text
unfolding rebuild_config keys_where
filtering = record {
  handlers = [];
  interceptors = map (interceptor some rejected) (logging_simple ∷ no_foo ∷ []);
  inbound = alone.inbound;
  recv_buffer_size = 0;
  send_buffer_size = 0;
  connect_callback = none;
  on_config_change = none;
  grpc_opts = [];
}

filtering_made :
    new_server
      (with_interceptors (map (interceptor some rejected) (map named (logging ∷ no_foo ∷ []))) ∷ [])
    ≡ ok filtering
unfolding new_server apply_options with_interceptors new_inbound_manager rebuild_config keys_where
filtering_made = refl

parse_interceptors-register_example :
    (parse_interceptors (flag_of logging (no_foo ∷ [])) ≡ inl (some (logging_simple ∷ no_foo ∷ [])))
    × (g : Handler Text) × (find_handler "Write" (register filtering "Write" handler).handlers
        ≡ some g)
    × (g idle (to_write (codes "foo"))
        ≡ ok (record { ctx = idle; out = none; err = some rejected }))
parse_interceptors-register_example =
    parse_interceptors-register some rejected logging (no_foo ∷ []) filtering filtering_made "Write"
      handler idle (some (codes "foo")) (message 4)
