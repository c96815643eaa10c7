-- ===== src/Server.antt =====
-- server.go, handler.go: a server's options, what NewServer makes of them, and the configurations
-- that a handler asks for.
pub mod Alone
use gorums_ata.Base.{
  ℕ, ◌+◌, ◌-◌, true, Option, none, some, List, [], ◌∷◌, ◌++◌, ltb, if◌then◌else◌, is_some, length,
}
use Prim.Native.String.{String}
use gorums_ata.Stream.Types.{Run, ok, panics, ◌>>=◌}
use gorums_ata.Manager.{Built}
use gorums_ata.Config.{Configuration}
use gorums_ata.Handlers.{Handler, Interceptor, register_handler}
use gorums_ata.Inbound.{Inbound, new_inbound_manager}

-- `newConfig` of a `NodeListOption`, on the manager.
abbrev pub NodeListOption : Type 0
NodeListOption = Inbound → Built (Inbound × Configuration)

-- `serverOptions`. An option of gRPC and a callback are numbers here, to tell them apart.
pub record ServerOptions (P : Type 0) : Type 0 where
  pub recv_buffer_size : ℕ
  pub send_buffer_size : ℕ
  pub grpc_opts : List ℕ
  pub connect_callback : Option ℕ
  pub interceptors : List (Interceptor P)
  pub my_id : ℕ  -- uint32
  pub peer_opt : Option NodeListOption
  pub on_config_change : Option ℕ

abbrev pub ServerOption : Type 0 → Type 0
ServerOption P = ServerOptions P → ServerOptions P

-- `Server`, with the fields that `stream.NewServer` and `grpc.NewServer` are given.
pub record Server (P : Type 0) : Type 0 where
  pub handlers : List (String × Handler P)
  pub interceptors : List (Interceptor P)
  pub inbound : Inbound
  pub recv_buffer_size : ℕ
  pub send_buffer_size : ℕ
  pub connect_callback : Option ℕ
  pub on_config_change : Option ℕ
  pub grpc_opts : List ℕ

module _ {P : Type 0} where
  -- `WithBufferSizes`
  unfoldable pub with_buffer_sizes : ℕ → ℕ → ServerOption P
  with_buffer_sizes receive_size send_size o = record o {
    recv_buffer_size = receive_size;
    send_buffer_size = send_size;
  }

  -- `WithGRPCServerOptions`
  unfoldable pub with_grpc_server_options : List ℕ → ServerOption P
  with_grpc_server_options opts o = record o { grpc_opts = o.grpc_opts ++ opts }

  -- `WithConnectCallback`
  unfoldable pub with_connect_callback : Option ℕ → ServerOption P
  with_connect_callback callback o = record o { connect_callback = callback }

  -- `WithInterceptors`
  unfoldable pub with_interceptors : List (Interceptor P) → ServerOption P
  with_interceptors is o = record o { interceptors = o.interceptors ++ is }

  -- `WithConfig`, of an option that may be nil: the first callback counts.
  unfoldable pub with_config : ℕ → Option NodeListOption → List (Option ℕ) → ServerOption P
  with_config my_id opt [] o = record o { my_id = my_id; peer_opt = opt }
  with_config my_id opt (f ∷ fs) o = record o {
    my_id = my_id;
    peer_opt = opt;
    on_config_change = f;
  }

  abbrev pub zero_options : ServerOptions P
  zero_options = record {
    recv_buffer_size = 0;
    send_buffer_size = 0;
    grpc_opts = [];
    connect_callback = none;
    interceptors = [];
    my_id = 0;
    peer_opt = none;
    on_config_change = none;
  }

  -- The loop of `NewServer` over its options.
  unfoldable pub apply_options : ServerOptions P → List (ServerOption P) → ServerOptions P
  apply_options o [] = o
  apply_options o (opt ∷ opts) = apply_options (opt o) opts

  -- `NewServer`
  unfoldable pub new_server : List (ServerOption P) → Run (Server P)
  unfolding apply_options new_inbound_manager
  new_server opts =
      let o = apply_options zero_options opts in
      new_inbound_manager o.my_id true (is_some o.on_config_change) o.peer_opt >>= λ im.
      ok (record {
        handlers = [];
        interceptors = o.interceptors;
        inbound = im;
        recv_buffer_size = o.recv_buffer_size;
        send_buffer_size = o.send_buffer_size;
        connect_callback = o.connect_callback;
        on_config_change = o.on_config_change;
        grpc_opts = o.grpc_opts;
      })

  -- `RegisterHandler`, on the server.
  unfoldable pub register : Server P → String → Handler P → Server P
  unfolding register_handler
  register s method h = record s { handlers = register_handler s.interceptors s.handlers method h }

  -- `ServerCtx.Config` and `ServerCtx.ClientConfig`, of a context whose server may be nil; a nil
  -- configuration is `none`.
  unfoldable pub ctx_config : Option (Server P) → Option (List ℕ)
  ctx_config none = none
  ctx_config (some s) = some s.inbound.config

  unfoldable pub ctx_client_config : Option (Server P) → Option (List ℕ)
  ctx_client_config none = none
  ctx_client_config (some s) = some s.inbound.client_config

-- `Configuration.Context`, as the configuration that the context holds.
unfoldable pub configuration_context : List ℕ → Run (List ℕ)
configuration_context [] = panics
configuration_context (id ∷ ids) = ok (id ∷ ids)

module _ {P : Type 0} where
  -- `ServerCtx.ConfigContext`; a nil context is `none`.
  unfoldable pub config_context : Option (Server P) → Run (Option (List ℕ))
  unfolding ctx_config configuration_context
  config_context srv = elim (ctx_config srv) [
    | none ↦ ok none
    | some cfg ↦ configuration_context cfg >>= λ c. ok (some c)
  ]

  -- `ServerCtx.ClientConfigContext`
  unfoldable pub client_config_context : Option (Server P) → Run (Option (List ℕ))
  unfolding ctx_client_config configuration_context
  client_config_context srv = elim (ctx_client_config srv) [
    | none ↦ ok none
    | some cfg ↦
        let made = configuration_context cfg >>= λ c. ok (some c) in
        if ltb 0 (length cfg) then made else ok none
  ]
