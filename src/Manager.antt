-- ===== src/Manager.antt =====
-- mgr.go: the nodes that a client keeps, and its message IDs.
pub mod Registered
use gorums_ata.Base.{
  ℕ, ◌+◌, ◌-◌, ◌%◌, ◌^◌, Bool, false, ◌&&◌, Option, none, some, List, [], ◌∷◌, ◌++◌, ◌==◌,
  if◌then◌else◌, is_some, any, lookup, insert,
}
use Prim.Native.String.{String}
use gorums_ata.Errors.{Err}
use gorums_ata.Node.{Node, new_local_node, new_outbound_node, close_node}

-- `outboundManager`, with the options that its methods read. `close_ran` is whether `closeOnce`
-- has fired.
pub record Manager : Type 0 where
  pub nodes : List Node
  pub by_id : List (ℕ × Node)  -- `lookup`
  pub close_ran : Bool
  pub next_msg_id : ℕ  -- uint64
  pub local_node_id : ℕ
  pub has_handler : Bool

-- `newOutboundManager`
unfoldable pub new_manager : ℕ → Bool → Manager
new_manager local_node_id has_handler = record {
  nodes = [];
  by_id = [];
  close_ran = false;
  next_msg_id = 0;
  local_node_id = local_node_id;
  has_handler = has_handler;
}

-- `outboundManager.Node`
abbrev pub node_of : Manager → ℕ → Option Node
node_of m id = lookup id m.by_id

-- `addNode`
unfoldable pub add_node : Manager → Node → Manager
add_node m n = record m { by_id = insert n.id n m.by_id; nodes = m.nodes ++ n ∷ [] }

-- The errors of a registry and of `nodeBuilder`.
pub data BuildError : Type 0 where
  missing_nodes node_zero : BuildError
  invalid_address : String → Err → BuildError
  id_in_use already_exists : ℕ → BuildError
  address_in_use : String → ℕ → BuildError
  not_connected : Err → BuildError

pub data Built {ℓ} (A : Type ℓ) : Type ℓ where
  built : A → Built A
  refused : BuildError → Built A

infixl 5 ◌>>=◌
abbrev pub ◌>>=◌ {ℓ κ} : {A : Type ℓ} {B : Type κ} → Built A → (A → Built B) → Built B
built a >>= f = f a
refused e >>= f = refused e

-- `newNode`. `dial_err` is the error of resolving the address or of `grpc.NewClient`, if any.
unfoldable pub new_node : Manager → ℕ → String → Option Err → Built (Manager × Node)
unfolding add_node new_local_node new_outbound_node
new_node m id addr dial_err =
    let local = new_local_node id addr m.has_handler in
    let remote = new_outbound_node id addr m.has_handler in
    if is_some (node_of m id)
    then refused (already_exists id)
    else if id == m.local_node_id && m.has_handler
    then built (add_node m local, local)
    else elim dial_err [
      | some e ↦ refused (not_connected e)
      | none ↦ built (add_node m remote, remote)
    ]

-- `getMsgID`: `atomic.AddUint64` wraps around.
unfoldable pub get_msg_id : Manager → Manager × ℕ
get_msg_id m = let id = (m.next_msg_id + 1) % 2 ^ 64 in (record m { next_msg_id = id }, id)
