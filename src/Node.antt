-- ===== src/Node.antt =====
-- node.go: a node, the channel that it has at present, and the comparisons of nodes.
pub mod Attach
pub mod Compare
use gorums_ata.Base.{
  ℕ, suc, ◌-◌, ◌<◌, Ordering, compare, Bool, true, false, ◌&&◌, not, Option, none, some, List, [],
  ◌==◌, if◌then◌else◌, is_some, ℤ, is_neg, compare_int,
}
use Prim.Native.String.{String}
use gorums_ata.Errors.{Err}
use gorums_ata.Stream.Types.{Message, Request, Run, ok, ◌>>=◌}
use gorums_ata.Stream.Deliver.{World}
use gorums_ata.Stream.Router.{Router, Dispatch, new_router, pending_count}
use gorums_ata.Stream.Channel.{
  Channel, Net, new_inbound_channel, new_local_channel, new_outbound_channel, is_inbound, enqueue,
  close,
}

-- `Node`. The channel pointer is a number, which tells channels apart, with the channel it points
-- to; `attached` is the next such number. The goroutines of a channel that was replaced go on
-- outside the node.
pub record Node : Type 0 where
  pub id : ℕ  -- uint32
  pub addr : String
  pub router : Router
  pub channel : Option (ℕ × Channel)
  pub attached : ℕ

-- `newInboundNode`
unfoldable pub new_inbound_node : ℕ → String → Bool → Node
unfolding new_router
new_inbound_node id addr has_handler = record {
  id = id;
  addr = addr;
  router = new_router has_handler;
  channel = none;
  attached = 0;
}

-- `newLocalNode`
unfoldable pub new_local_node : ℕ → String → Bool → Node
unfolding new_router new_local_channel
new_local_node id addr has_handler = record {
  id = id;
  addr = addr;
  router = new_router has_handler;
  channel = some (0, new_local_channel id);
  attached = 1;
}

-- `newOutboundNode`, once the address is resolved and the connection made.
unfoldable pub new_outbound_node : ℕ → String → Bool → Node
unfolding new_router new_outbound_channel
new_outbound_node id addr has_handler = record {
  id = id;
  addr = addr;
  router = new_router has_handler;
  channel = some (0, new_outbound_channel id);
  attached = 1;
}

abbrev channel_is_inbound : Option (ℕ × Channel) → Bool
channel_is_inbound none = false
channel_is_inbound (some (i, c)) = is_inbound c

-- `Node.IsInbound`, of a pointer that may be nil
unfoldable pub node_is_inbound : Option Node → Bool
node_is_inbound none = false
node_is_inbound (some n) = channel_is_inbound n.channel

-- `Node.PendingCount`
unfoldable pub node_pending_count : Option Node → ℕ
unfolding pending_count
node_pending_count none = 0
node_pending_count (some n) = pending_count n.router

-- The channel with the node's router, in a world.
abbrev pub net_of : World → Node → Channel → Net
net_of w n c = record { world = w; router = n.router; chan = c; started = [] }

-- `Channel.Close` on a channel that may be nil
unfoldable pub close_channel : World → Node → Option (ℕ × Channel) → Run (World × Router)
unfolding close
close_channel w n none = ok (w, n.router)
close_channel w n (some (i, c)) = close (net_of w n c) >>= λ m. ok (m.world, m.router)

-- `attachStream`: the new channel replaces the old one, which is closed then. The number returned
-- stands for the function `detach`.
unfoldable pub attach_stream : World → Node → ℕ → Run (World × Node × ℕ)
unfolding close_channel new_inbound_channel
attach_stream w n stream =
    let made : ℕ × Channel = (n.attached, new_inbound_channel n.id stream) in
    close_channel w n n.channel >>= λ r.
    ok (r.0, record n { router = r.1; channel = some made; attached = suc n.attached }, n.attached)

abbrev pub holds : Option (ℕ × Channel) → ℕ → Bool
holds none i = false
holds (some (j, c)) i = j == i

-- The function that `attachStream` returns.
unfoldable pub detach : World → Node → ℕ → Run (World × Node × Bool)
unfolding close_channel
detach w n i =
    let closed = close_channel w n n.channel in
    if holds n.channel i
    then closed >>= (λ r. ok (r.0, record n { router = r.1; channel = none }, true))
    else ok (w, n, false)

-- `Node.close`
unfoldable pub close_node : World → Node → Run (World × Router)
unfolding close_channel
close_node w n = close_channel w n n.channel

enqueue_on : World → Node → Option (ℕ × Channel) → Request → Run (World × Node × List Dispatch)
enqueue_on w n none req = ok (w, n, [])
enqueue_on w n (some (i, c)) req = enqueue (net_of w n c) req >>= λ m.
    ok (m.world, record n { router = m.router; channel = some (i, m.chan) }, m.started)

-- `Node.Enqueue`: with no channel the request is dropped.
unfoldable pub node_enqueue : World → Node → Request → Run (World × Node × List Dispatch)
unfolding enqueue_on enqueue
node_enqueue w n req = enqueue_on w n n.channel req

-- `Node.ID`, of a pointer that may be nil
unfoldable pub node_id : Option Node → ℕ
node_id none = 0
node_id (some n) = n.id

-- `Node.Address`
unfoldable pub address : Option Node → String
address none = "<nil>"
address (some n) = n.addr

-- `Node.LastErr`
unfoldable pub last_err : Node → Option Err
last_err n = elim n.channel [ none ↦ none | some (i, c) ↦ c.last_error ]

-- `Node.Latency`
abbrev pub latency : Node → ℤ
latency n = n.router.latency

-- The comparison `ID`
unfoldable pub compare_id : Node → Node → Ordering
compare_id a b = compare a.id b.id

-- The comparison `LastNodeError`
unfoldable pub compare_last_error : Node → Node → Ordering
unfolding last_err
compare_last_error a b =
    let x = is_some (last_err a) in
    let y = is_some (last_err b) in
    if x && not y then Ordering.gt else if not x && y then Ordering.lt else Ordering.eq

-- The comparison `Latency`
unfoldable pub compare_latency : Node → Node → Ordering
compare_latency a b =
    let x = is_neg (latency a) in
    let y = is_neg (latency b) in
    if x && y
    then Ordering.eq
    else if x
    then Ordering.gt
    else if y
    then Ordering.lt
    else compare_int (latency a) (latency b)
