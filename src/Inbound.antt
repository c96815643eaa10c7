-- ===== src/Inbound.antt =====
-- inbound_manager.go: the peers that a server knows, and the clients that connect to it.
pub mod Current
pub mod Connections
pub mod Runs
pub mod Waiting
pub mod Later
pub mod Woken
pub mod Untracked
pub mod NoPeers
pub mod Exchange
use gorums_ata.Base.{
  ℕ, suc, ◌+◌, ◌-◌, ◌%◌, ◌^◌, compare, ◌≡◌, Bool, true, false, ◌&&◌, ◌||◌, not, Option, none, some,
  List, [], ◌∷◌, ◌++◌, map, arith, leb, ◌==◌, if◌then◌else◌, is_some, lookup, erase, insert,
  sort_by,
}
use Prim.Native.String.{String}
use gorums_ata.Stream.MessageId.{server_sequence_number}
use gorums_ata.Stream.Types.{Run, ok, panics, ◌>>=◌}
use gorums_ata.Stream.Deliver.{World}
use gorums_ata.Node.{Node, new_local_node, new_inbound_node, attach_stream, detach, compare_id}
use gorums_ata.Manager.{Built, built}
use gorums_ata.Config.{Configuration}
use gorums_ata.Builder.{Registry}

-- `inboundManager`. A node of the two configurations is a pointer, here the key it has in `nodes`.
-- `changes` lists the arguments of the calls of `onConfigChange`, the last first, and `epoch`
-- counts the channels that `configCh` has been.
pub record Inbound : Type 0 where
  pub my_id : ℕ  -- uint32
  pub has_handler : Bool
  pub has_callback : Bool
  pub nodes : List (ℕ × Node)
  pub config : List ℕ
  pub client_config : List ℕ
  pub next_msg_id : ℕ  -- uint64
  pub next_client_id : ℕ  -- uint32
  pub changes : List (List ℕ)
  pub epoch : ℕ
  pub stopped : Bool

-- `clientIDStart`
abbrev pub client_id_start : ℕ
client_id_start = 1048576

-- `getMsgID`
unfoldable pub get_msg_id : Inbound → Inbound × ℕ
get_msg_id im =
    let id = (im.next_msg_id + 1) % 2 ^ 64 in
    (record im { next_msg_id = id }, server_sequence_number id)

-- `newNode`
unfoldable pub new_node : Inbound → ℕ → String → Built (Inbound × Node)
new_node im id addr =
    let local = id == im.my_id && im.has_handler in
    let node =
      if local
      then new_local_node id addr im.has_handler
      else new_inbound_node id addr im.has_handler in
    built (record im { nodes = insert id node im.nodes }, node)

-- `Nodes`
unfoldable pub all_nodes : Inbound → List Node
all_nodes im = sort_by compare_id (map (λ e. e.1) im.nodes)

-- The keys of a map whose nodes are wanted.
unfoldable pub keys_where : (ℕ → Node → Bool) → List (ℕ × Node) → List ℕ
keys_where p [] = []
keys_where p ((id, n) ∷ m) = let rest = keys_where p m in if p id n then id ∷ rest else rest

-- The tests of the loop of `rebuildConfig`.
abbrev pub is_client : ℕ → Node → Bool
is_client id n = leb client_id_start id && is_some n.channel

abbrev pub is_member : ℕ → ℕ → Node → Bool
is_member my_id id n = not (leb client_id_start id) && (id == my_id || is_some n.channel)

-- `slices.Equal`
unfoldable pub same_keys : List ℕ → List ℕ → Bool
same_keys [] [] = true
same_keys [] (y ∷ ys) = false
same_keys (x ∷ xs) [] = false
same_keys (x ∷ xs) (y ∷ ys) = x == y && same_keys xs ys

-- `rebuildConfig`
unfoldable pub rebuild_config : Inbound → Inbound
unfolding keys_where same_keys
rebuild_config im =
    let cfg = sort_by compare (keys_where (is_member im.my_id) im.nodes) in
    let client_cfg = sort_by compare (keys_where is_client im.nodes) in
    let changed = not (same_keys im.config cfg) in
    record im {
      config = cfg;
      client_config = client_cfg;
      changes = if changed && im.has_callback then cfg ∷ im.changes else im.changes;
      epoch = suc im.epoch;
    }

-- `newInboundManager`; `opt` is `newConfig` of the list of known peers, if one is given.
unfoldable pub new_inbound_manager :
    ℕ → Bool → Bool → Option (Inbound → Built (Inbound × Configuration)) → Run Inbound
unfolding rebuild_config
new_inbound_manager my_id has_handler has_callback opt =
    let im : Inbound = record {
      my_id = my_id;
      has_handler = has_handler;
      has_callback = has_callback;
      nodes = [];
      config = [];
      client_config = [];
      next_msg_id = 0;
      next_client_id = client_id_start;
      changes = [];
      epoch = 0;
      stopped = false;
    } in
    elim opt [
      | none ↦ ok (rebuild_config im)
      | some new_config ↦ elim (new_config im) [
        | built r ↦ ok (rebuild_config r.0)
        | Built.refused e ↦ panics
      ]
    ]

-- `isKnown`
unfoldable pub is_known : Inbound → ℕ → Bool
is_known im id = not (id == 0) && is_some (lookup id im.nodes)

-- The peer node that `AcceptPeer` returns, with the number that `detach` has in the cleanup
-- function: a known peer, a client, a `nilPeerNode`, or an error.
pub data Accepted : Type 0 where
  known new_client : ℕ → ℕ → Accepted
  untracked exhausted : Accepted

-- `registerPeer`
unfoldable pub register_peer : World → Inbound → ℕ → ℕ → Run (World × Inbound × Accepted)
unfolding rebuild_config attach_stream
register_peer w im stream id = elim (lookup id im.nodes) [
  | none ↦ panics
  | some node ↦ attach_stream w node stream >>= λ r.
      ok (r.0, rebuild_config (record im { nodes = insert id r.1 im.nodes }), known id r.2)
]

-- `acceptClient`
unfoldable pub accept_client : World → Inbound → ℕ → Run (World × Inbound × Accepted)
unfolding rebuild_config attach_stream new_inbound_node
accept_client w im stream =
    let id = im.next_client_id in
    let node = new_inbound_node id "client" im.has_handler in
    let joined = attach_stream w node stream >>= λ r. ok (
      r.0,
      rebuild_config
          (record im { next_client_id = (id + 1) % 2 ^ 32; nodes = insert id r.1 im.nodes }),
      new_client id r.2,
    ) in
    if id == 2 ^ 32 - 1 then ok (w, im, exhausted) else joined

-- `AcceptPeer`, of a manager that is not nil; `id` is `nodeID` of the stream, and `has_metadata`
-- is `hasPeerMetadata`.
unfoldable pub accept_peer : World → Inbound → ℕ → ℕ → Bool → Run (World × Inbound × Accepted)
unfolding register_peer accept_client is_known
accept_peer w im stream id has_metadata =
    if is_known im id
    then register_peer w im stream id
    else if not (id == 0)
    then ok (w, im, untracked)
    else if not has_metadata
    then ok (w, im, untracked)
    else accept_client w im stream

-- The cleanup function of `registerPeer`.
unfoldable pub peer_left : World → Inbound → ℕ → ℕ → Run (World × Inbound)
unfolding rebuild_config detach
peer_left w im id i = elim (lookup id im.nodes) [
  | none ↦ ok (w, im)
  | some node ↦ detach w node i >>= λ r.
      ok (r.0, if r.2 then rebuild_config (record im { nodes = insert id r.1 im.nodes }) else im)
]

-- The cleanup function of `acceptClient`.
unfoldable pub client_left : World → Inbound → ℕ → ℕ → Run (World × Inbound)
unfolding rebuild_config detach
client_left w im id i = elim (lookup id im.nodes) [
  | none ↦ ok (w, im)
  | some node ↦ detach w node i >>= λ r.
      ok (r.0, if r.2 then rebuild_config (record im { nodes = erase id im.nodes }) else im)
]

-- `close`
unfoldable pub close : Inbound → Inbound
close im = record im { stopped = true }

pub new_node-id :
    (im im' : Inbound) (id : ℕ) (addr : String) (n : Node)
    → new_node im id addr ≡ built (im', n)
    → (n.id ≡ id) × (n.addr ≡ addr)
unfolding new_node new_local_node new_inbound_node
new_node-id im im' id addr n e = (ground arith, ground arith)

-- The manager as the registry that a list of peers is added to.
abbrev pub inbound_registry : Registry
inbound_registry = record {
  State = Inbound;
  nodes = all_nodes;
  new_node = new_node;
  new_node_id = new_node-id;
}

-- What happens to the manager: a stream connects, with its `nodeID` and `hasPeerMetadata`, or the
-- cleanup function of a known peer or of a client is called.
pub data Event : Type 0 where
  connects : ℕ → ℕ → Bool → Event
  peer_leaves client_leaves : ℕ → ℕ → Event

unfoldable pub step : World → Inbound → Event → Run (World × Inbound × List Accepted)
unfolding accept_peer peer_left client_left
step w im (connects stream id has_metadata) =
    accept_peer w im stream id has_metadata >>= λ r. ok (r.0, r.1, r.2 ∷ [])
step w im (peer_leaves id i) = peer_left w im id i >>= λ r. ok (r.0, r.1, [])
step w im (client_leaves id i) = client_left w im id i >>= λ r. ok (r.0, r.1, [])

-- The events in order, and what the calls of `AcceptPeer` returned.
unfoldable pub run : World → Inbound → List Event → Run (World × Inbound × List Accepted)
unfolding step
run w im [] = ok (w, im, [])
run w im (e ∷ es) = step w im e >>= λ r. run r.0 r.1 es >>= λ q. ok (q.0, q.1, r.2 ++ q.2)
