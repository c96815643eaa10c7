-- ===== src/Dial.antt =====
-- opts.go: the options of a client's connections.
pub mod Identity
use gorums_ata.Base.{
  ℕ, ◌+◌, ◌-◌, Option, none, some, List, [], ◌∷◌, ◌++◌, ◌==◌, if◌then◌else◌, is_some, Text, codes,
  find_text,
}
use gorums_ata.Stream.Types.{Run, ok, panics}
use gorums_ata.Integers.{metadata_with_node_id}
use gorums_ata.Manager.{Manager, new_manager}
use gorums_ata.Server.{NodeListOption, Server, ServerOption}

-- `metadata.MD`
abbrev pub Metadata : Type 0
Metadata = List (Text × List Text)

-- `md[k]`
abbrev pub values : Text → Metadata → List Text
values k md = elim (find_text k md) [ none ↦ [] | some vs ↦ vs ]

-- `gorumsNodeIDKey`
abbrev pub node_id_key : Text
node_id_key = codes "gorums-node-id"

-- `dialOptions`. An option of gRPC, a logger and a `backoff.Config` are numbers here; the default
-- configuration is 0. A nil option of a server is `none`.
pub record DialOptions (P : Type 0) : Type 0 where
  pub grpc_dial_opts : List ℕ
  pub logger : Option ℕ
  pub backoff : ℕ
  pub send_buffer : ℕ
  pub metadata : Metadata
  pub handler : Option (Server P)
  pub local_node_id : ℕ  -- uint32
  pub srv_opts : List (ServerOption P)
  pub outbound_nodes : Option NodeListOption

abbrev pub DialOption : Type 0 → Type 0
DialOption P = DialOptions P → DialOptions P

-- `join` is grpc's `metadata.Join`.
module _ {P : Type 0} (join : Metadata → Metadata → Metadata) where
  -- `WithMetadata`
  unfoldable pub with_metadata : Metadata → DialOption P
  with_metadata md o = record o { metadata = join o.metadata md }

  -- The option that `WithServer` returns.
  unfoldable pub install : Server P → DialOption P
  unfolding metadata_with_node_id
  install srv o = record o {
    handler = some srv;
    local_node_id = srv.inbound.my_id;
    metadata = join o.metadata ((node_id_key, metadata_with_node_id srv.inbound.my_id) ∷ []);
  }

  -- `WithServer`, which panics if the server is nil.
  unfoldable pub with_server : Option (Server P) → Run (DialOption P)
  unfolding install
  with_server none = panics
  with_server (some srv) = ok (install srv)

module _ {P : Type 0} where
  -- `newDialOptions`
  abbrev pub new_dial_options : DialOptions P
  new_dial_options = record {
    grpc_dial_opts = [];
    logger = none;
    backoff = 0;
    send_buffer = 0;
    metadata = [];
    handler = none;
    local_node_id = 0;
    srv_opts = [];
    outbound_nodes = none;
  }

  -- `WithDialOptions`
  unfoldable pub with_dial_options : List ℕ → DialOption P
  with_dial_options opts o = record o { grpc_dial_opts = o.grpc_dial_opts ++ opts }

  -- `WithLogger`
  unfoldable pub with_logger : Option ℕ → DialOption P
  with_logger logger o = record o { logger = logger }

  -- `WithBackoff`
  unfoldable pub with_backoff : ℕ → DialOption P
  with_backoff backoff o = record o { backoff = backoff }

  -- `WithSendBufferSize`
  unfoldable pub with_send_buffer_size : ℕ → DialOption P
  with_send_buffer_size size o = record o { send_buffer = size }

  abbrev pub not_nil : List (Option (ServerOption P)) → List (ServerOption P)
  not_nil [] = []
  not_nil (none ∷ opts) = not_nil opts
  not_nil (some opt ∷ opts) = opt ∷ not_nil opts

  -- `WithServerOptions`
  unfoldable pub with_server_options : List (Option (ServerOption P)) → DialOption P
  with_server_options opts o = record o { srv_opts = o.srv_opts ++ not_nil opts }

  -- `WithOutboundNodes`
  unfoldable pub with_outbound_nodes : Option NodeListOption → DialOption P
  with_outbound_nodes none o = o
  with_outbound_nodes (some opt) o = record o { outbound_nodes = some opt }

  -- The loop over the options, as `newOutboundManager` and `NewSystem` have it.
  unfoldable pub apply_dial_options : DialOptions P → List (DialOption P) → DialOptions P
  apply_dial_options o [] = o
  apply_dial_options o (opt ∷ opts) = apply_dial_options (opt o) opts

  -- `newOutboundManager`, with the options that it keeps; `connect_params` is
  -- `grpc.WithConnectParams` of a configuration.
  unfoldable pub new_outbound_manager : (ℕ → ℕ) → List (DialOption P) → Manager × DialOptions P
  unfolding apply_dial_options new_manager
  new_outbound_manager connect_params opts =
      let o = apply_dial_options new_dial_options opts in
      (
        new_manager o.local_node_id (is_some o.handler),
        if o.backoff == 0
            then o
            else record o { grpc_dial_opts = o.grpc_dial_opts ++ connect_params o.backoff ∷ [] },
      )
