-- ===== src/Tests/Nodes.antt =====
-- node.go, mgr.go, config.go, config_opts.go, inbound_manager.go: the theorems at concrete inputs.
use gorums_ata.Base.{
  count_up, ℕ, ◌+◌, ◌≤◌, ◌≡◌, refl, ◌⊎◌, inl, Bool, true, false, ◌&&◌, ◌||◌, none, some, List, [],
  ◌∷◌, arith, is_some, to_nat, any, insert_by, sort_by, not,
}
use Prim.Native.String.{String}
use text.Mathlib.Text.{◌==◌ as str_eq}
use gorums_ata.Stream.Types.{ok}
use gorums_ata.Stream.Deliver.{World, reply_errors}
use gorums_ata.Node.{Node, new_inbound_node, attach_stream, detach, compare_id}
use gorums_ata.Node.Attach.{detach_stale}
use gorums_ata.Manager.{Manager, Built, built, new_manager, node_of, add_node}
use gorums_ata.Manager.Registered.{IsKeyed}
use gorums_ata.Config.{Configuration, is_empty, node_ids, contains, equal, union, difference}
use gorums_ata.Config.Members.{contains-union, is_panic}
use gorums_ata.Config.Watch.{
  Watcher, tick, receive, ticks_of, run as run_watcher, skipped_update_lost,
}
use gorums_ata.Builder.{Resolved, new_config_list, new_builder}
use gorums_ata.Builder.Lists.{has_id, copies_addr}
use gorums_ata.Inbound.{
  Inbound, inbound_registry, all_nodes, client_id_start, rebuild_config, Event, connects,
  client_leaves, Accepted, run, new_node as inbound_node,
}
use gorums_ata.Inbound.Current.{HoldsExactly, IsOpenPeer, IsOpenClient}
use gorums_ata.Inbound.Connections.{Ascends}
use gorums_ata.Builder.Numbered.{new_config_list_lem}
use gorums_ata.Inbound.Runs.{run-HoldsExactly}
use gorums_ata.Tests.Data.{world, state_of}

abbrev node : ℕ → String → Node
unfolding new_inbound_node
node i addr = new_inbound_node i addr false

abbrev built_of {ℓ} : {A : Type ℓ} → A → Built A → A
built_of d (built a) = a
built_of d (Built.refused e) = d

-- A stream that is replaced by another one, whose `detach` is called.
abbrev first_stream : World × Node × ℕ
unfolding attach_stream
first_stream = state_of (world, node 2 "two", 9) (attach_stream world (node 2 "two") 50)

abbrev second_stream : World × Node × ℕ
unfolding attach_stream
second_stream = state_of (world, node 2 "two", 9) (attach_stream first_stream.0 first_stream.1 51)

abbrev detached : World × Node × Bool
unfolding detach
detached =
    state_of (world, node 2 "two", false) (detach second_stream.0 second_stream.1 second_stream.2)

detach_stale_example :
    (detach second_stream.0 second_stream.1 first_stream.2
      ≡ ok (second_stream.0, second_stream.1, false))
    × (detached.2 ≡ true)
    × (detached.1.channel ≡ none)
    × (detached.1.id ≡ 2)
unfolding attach_stream node reply_errors detach
detach_stale_example =
    detach_stale world first_stream.0 second_stream.0 detached.0 (node 2 "two") first_stream.1
      second_stream.1 detached.1 50 51 first_stream.2 second_stream.2 detached.2 refl refl refl

-- A manager with nodes 1 and 3.
abbrev manager : Manager
unfolding new_manager add_node
manager = add_node (add_node (new_manager 0 false) (node 1 "one")) (node 3 "three")

manager-IsKeyed : IsKeyed manager
unfolding new_manager add_node node
manager-IsKeyed k n h = ground arith

abbrev one_three : Configuration
one_three = node 1 "one" ∷ node 3 "three" ∷ []

abbrev three_four : Configuration
three_four = node 4 "four" ∷ node 3 "three" ∷ []

contains-union_example :
    ((d : Configuration) × (union (some manager) one_three three_four ≡ ok d)
      × (contains 4 d ≡ (
          contains 4 one_three
          || (contains 4 three_four && (is_empty one_three || is_some (node_of manager 4))))))
    × (union (some manager) [] three_four ≡ ok three_four)
    × (union (some manager) one_three [] ≡ ok one_three)
    × (is_panic (union none one_three three_four)
        ≡ (not (is_empty one_three) && not (is_empty (difference three_four one_three))))
contains-union_example = contains-union manager manager-IsKeyed 4 one_three three_four

abbrev full : Watcher
full = record { current = one_three; ch = some one_three; seen = []; closed = false }

skipped_update_lost_example :
    let s' = run_watcher full (tick three_four ∷ receive ∷ ticks_of three_four 2) in
    (s'.ch ≡ none) × (s'.seen ≡ one_three ∷ full.seen) × (s'.current ≡ three_four)
unfolding equal node
skipped_update_lost_example = skipped_update_lost full one_three three_four 2 refl refl refl

-- A server with ID 9 that knows itself and node 4.
abbrev peers : Inbound
peers = record {
  my_id = 9;
  has_handler = false;
  has_callback = true;
  nodes = (4, node 4 "four") ∷ (9, node 9 "nine") ∷ [];
  config = [];
  client_config = [];
  next_msg_id = 0;
  next_client_id = client_id_start;
  changes = [];
  epoch = 0;
  stopped = false;
}

abbrev server : Inbound
unfolding rebuild_config
server = rebuild_config peers

-- Node 4 connects, a client connects and leaves, and another client connects.
abbrev connections : List Event
connections =
    connects 50 4 true
    ∷ connects 51 0 true
    ∷ client_leaves client_id_start 0
    ∷ connects 52 0 true
    ∷ connects 53 7 true
    ∷ []

abbrev served : World × Inbound × List Accepted
unfolding run
served = state_of (world, server, []) (run world server connections)

run-HoldsExactly_example :
    HoldsExactly (IsOpenPeer served.1) served.1.config
    × HoldsExactly (IsOpenClient served.1) served.1.client_config
    × Ascends client_id_start served.2 served.1.next_client_id
unfolding run reply_errors
run-HoldsExactly_example =
    run-HoldsExactly world served.0 peers served.1 connections served.2 (refl, (refl, tt))
      (omega arith, omega arith, λ k h. ground arith) refl

abbrev resolve : String → Resolved
resolve = inl

abbrev two_more : Inbound × Configuration
unfolding new_config_list
two_more =
    built_of (peers, []) (new_config_list inbound_registry resolve peers ("ten" ∷ "eleven" ∷ []))

new_config_list_lem_example :
    (node_ids two_more.1 ≡ count_up 10 2)
    × ((has_id 4 (all_nodes peers) ≡ false) ⊎ (4 ≤ 9))
    × ((◌≡◌ {A = ℕ} 9 0) ⊎ (has_id 9 (all_nodes peers) ≡ true))
    × (copies_addr "ten" two_more.1 + to_nat (any (λ n. str_eq n.addr "ten") (all_nodes peers)) ≤ 1)
unfolding new_builder all_nodes sort_by insert_by compare_id node new_config_list inbound_node
new_config_list_lem_example =
    new_config_list_lem inbound_registry resolve peers 9 refl two_more.0 ("ten" ∷ "eleven" ∷ [])
      two_more.1 4 "ten" (omega arith) refl
