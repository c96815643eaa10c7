-- ===== src/Manager/Registered.antt =====
-- mgr.go: a node is found under its own ID, and is never replaced.
use gorums_ata.Base.{
  ℕ, ◌+◌, ◌^◌, ◌<◌, ◌≡◌, false, Option, none, some, [], ◌∷◌, ◌++◌, arith, ◌==◌, if◌then◌else◌,
  lookup-erase,
}
use Prim.Native.String.{String}
use gorums_ata.Errors.{Err}
use gorums_ata.Stream.MessageId.{is_server_sequence_number}
use gorums_ata.Stream.MessageId.Spaces.{server_sequence_number_lem}
use gorums_ata.Node.{Node, new_local_node, new_outbound_node}
use gorums_ata.Manager.{Manager, built, node_of, add_node, new_node, get_msg_id}

-- Each node is found under its own ID.
abbrev pub IsKeyed : Manager → Type 0
IsKeyed m = (k : ℕ) (n : Node) → node_of m k ≡ some n → n.id ≡ k

new_node-registers :
    (m m' : Manager) (id : ℕ) (addr : String) (dial_err : Option Err) (n : Node)
    → new_node m id addr dial_err ≡ built (m', n)
    → (node_of m id ≡ none)
      × (n.id ≡ id)
      × (n.addr ≡ addr)
      × ((k : ℕ) → node_of m' k ≡ (if id == k then some n else node_of m k))
      × (m'.nodes ≡ m.nodes ++ n ∷ [])
unfolding new_node add_node new_local_node new_outbound_node
new_node-registers m m' id addr dial_err n e = (
  ground arith,
  ground arith,
  ground arith,
  λ k. ground (arith, lookup-erase id k m.by_id),
  ground arith,
)

-- `newNode` keeps every node where it was, registers the new one under the ID asked for, and
-- refuses an ID that is taken.
pub new_node_lem :
    (m m' : Manager) (id : ℕ) (addr : String) (dial_err : Option Err) (n : Node)
    → IsKeyed m
    → new_node m id addr dial_err ≡ built (m', n)
    → (node_of m id ≡ none)
      × (n.id ≡ id)
      × (n.addr ≡ addr)
      × IsKeyed m'
      × ((k : ℕ) → node_of m' k ≡ (if id == k then some n else node_of m k))
      × (m'.nodes ≡ m.nodes ++ n ∷ [])
unfolding new_node add_node
new_node_lem m m' id addr dial_err n keyed e =
    let (fresh, i, a, found, all) = new_node-registers m m' id addr dial_err n e in
    (fresh, i, a, λ k x h. ground (arith, found k, keyed k x), found, all)

-- Message IDs count up, and stay in the client's space, for the first `2 ^ 63 - 1` calls.
pub get_msg_id_lem :
    (m : Manager)
    → m.next_msg_id + 1 < 2 ^ 63
    → ((get_msg_id m).1 ≡ m.next_msg_id + 1)
      × ((get_msg_id m).0.next_msg_id ≡ m.next_msg_id + 1)
      × (is_server_sequence_number (get_msg_id m).1 ≡ false)
unfolding get_msg_id
get_msg_id_lem m h = ground (arith, (server_sequence_number_lem (m.next_msg_id + 1) (omega arith)))
