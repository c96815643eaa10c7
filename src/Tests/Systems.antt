-- ===== src/Tests/Systems.antt =====
-- system.go, inbound_manager.go, internal/strconv/number.go: the theorems at concrete inputs.
use gorums_ata.Base.{
  ℕ, ◌≡◌, refl, inl, true, false, Option, none, some, List, [], ◌∷◌, ◌++◌, arith, leb, ◌==◌,
  if◌then◌else◌, length, insert_by, sort_by, negsuc, ◌≤◌,
}
use gorums_ata.Stream.Metadata.{
  Metadata, values, entries_of, append_to_incoming, append_to_incoming-entries_of,
}
use gorums_ata.Errors.{Err, atom, foreign}
use gorums_ata.Stream.Deliver.{World}
use gorums_ata.Inbound.{Inbound, Accepted, connects, step, rebuild_config}
use gorums_ata.Inbound.Waiting.{
  checks, waits, returned, Condition, Turns, unmet, Wait, waiter, event, Reach, here, next,
  turn_count, turn, changed, done,
}
use gorums_ata.Inbound.Woken.{wait_ends}
use gorums_ata.System.{Resource, listener, new_local_systems}
use gorums_ata.System.Released.{is_open}
use gorums_ata.System.Started.{IsAfter, new_local_systems-IsAfter}
use gorums_ata.Integers.{int, parse_integer, format}
use gorums_ata.Integers.RoundTrip.{parse_integer-format}
use gorums_ata.Tests.Data.{world, state_of}
use gorums_ata.Node.{new_inbound_node}

abbrev server : Inbound
unfolding new_inbound_node rebuild_config
server = rebuild_config (record {
  my_id = 9;
  has_handler = false;
  has_callback = false;
  nodes = (4, new_inbound_node 4 "four" false) ∷ (9, new_inbound_node 9 "nine" false) ∷ [];
  config = [];
  client_config = [];
  next_msg_id = 0;
  next_client_id = 1048576;
  changes = [];
  epoch = 0;
  stopped = false;
})

-- A wait for two peers, before a peer connects.
abbrev enough : Condition
enough peers clients = leb 2 (length peers)

abbrev first : Wait
unfolding server
first = record { world = world; manager = server; ctx = none; at = checks }

abbrev joined : World × Inbound × List Accepted
unfolding step server
joined = state_of (world, server, []) (step world server (connects 50 4 true))

abbrev woken : Wait
unfolding server
woken = record { world = joined.0; manager = joined.1; ctx = none; at = waits server.epoch }

reached : Reach enough first woken
unfolding server step sort_by insert_by
reached = next (next here (waiter (unmet refl))) (event (connects 50 4 true) refl)

again : Turns enough woken.manager woken.ctx woken.at checks
unfolding woken step
again = turn (changed (λ e. absurd (omega arith))) done

wait_ends_example :
    (turn_count again ≤ 3)
    × (r : Option Err) × Turns enough woken.manager woken.ctx checks (returned r)
unfolding step woken sort_by insert_by
wait_ends_example = wait_ends enough {s = first} {t = woken} refl reached (inl refl) checks again

-- The connections of the manager 1 cannot be made, of three.
abbrev outbound : ℕ → Option Err
outbound i = if i == 1 then some (atom (foreign 4)) else none

abbrev always : ℕ → Option Err
always i = none

abbrev closes : Resource → Option Err
closes r = none

new_local_systems-IsAfter_example :
    IsAfter closes outbound 3
      (listener 2)
      (new_local_systems closes outbound always 3).1
      (is_open (listener 2) false (new_local_systems closes outbound always 3).0)
new_local_systems-IsAfter_example = new_local_systems-IsAfter closes outbound always 3 (listener 2)

parse_integer-format_example :
    parse_integer (int 8) (format (int 8) (negsuc 99) 16) 16 ≡ (negsuc 99, none)
parse_integer-format_example =
    parse_integer-format (int 8) (negsuc 99) 16 (omega arith) (omega arith) (omega arith)
      (omega arith)

-- A call with two keys, one of which the stream has too.
abbrev outgoing : Metadata
outgoing = ("trace", "a" ∷ "b" ∷ []) ∷ ("user", "eve" ∷ []) ∷ []

abbrev incoming : Metadata
incoming = ("gorums-node-id", "2" ∷ []) ∷ ("trace", "z" ∷ []) ∷ []

append_to_incoming-entries_of_example :
    values "trace" (append_to_incoming (λ k. k) incoming (entries_of outgoing))
    ≡ values "trace" incoming ++ values "trace" outgoing
append_to_incoming-entries_of_example =
    append_to_incoming-entries_of (λ k. k) "trace" outgoing incoming (refl, refl, (refl, refl, tt))
