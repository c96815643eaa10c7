-- ===== src/Inbound/NoPeers.antt =====
-- inbound_manager.go: a manager that knows no peers stays without.
use gorums_ata.Base.{
  ℕ, ◌+◌, ◌-◌, ◌%◌, ◌^◌, ◌≤◌, ◌<◌, ◌≡◌, refl, ◌∙◌, inl, inr, Bool, true, false, ◌&&◌, none, List,
  [], ◌∷◌, ◌++◌, arith, leb, ◌==◌, Bool-cases, Option-cases, lookup, insert, lookup-erase,
}
use gorums_ata.Stream.Types.{Run, ok, ◌>>=◌, >>=-returns}
use gorums_ata.Stream.Deliver.{World}
use gorums_ata.Node.{Node, attach_stream, new_inbound_node}
use gorums_ata.Inbound.{
  Inbound, client_id_start, rebuild_config, is_known, Accepted, new_client, register_peer,
  accept_client, accept_peer, peer_left, client_left, Event, connects, peer_leaves, client_leaves,
  step, run,
}
use gorums_ata.Inbound.Current.{IsCurrent, IsSound, with_nodes, copies, rebuild_config-IsCurrent}
use gorums_ata.Inbound.Connections.{
  Outcome, same, replaced, erased, peer_left-Outcome, client_left-Outcome, register_peer-Outcome,
}
use gorums_ata.Inbound.Runs.{step-Proceeds}

-- No node has an ID below those of clients.
abbrev pub HasNoPeers : Inbound → Type 0
HasNoPeers im = (k : ℕ) → k < client_id_start → lookup k im.nodes ≡ none

-- A list in which no number occurs.
pub nil_of_copies : (ks : List ℕ) → ((k : ℕ) → copies k ks ≡ 0) → ks ≡ []
nil_of_copies [] h = refl
nil_of_copies (k ∷ ks) h = ground (arith, h k)

pub HasNoPeers-config : (im : Inbound) → IsCurrent im → HasNoPeers im → im.config ≡ []
HasNoPeers-config im cur h = nil_of_copies im.config λ k.
    elim (Bool-cases (leb client_id_start k)) [
      | inl high ↦ cur.members k ∙ elim (Option-cases (lookup k im.nodes)) [
        | inl free ↦ rw free refl
        | inr (n, found) ↦ ground arith
      ]
      | inr low ↦ ground (arith, cur.members k, h k)
    ]

pub rebuilt-HasNoPeers : (im : Inbound) → HasNoPeers im → HasNoPeers (rebuild_config im)
unfolding rebuild_config
rebuilt-HasNoPeers im h = h

Outcome-HasNoPeers : (im im' : Inbound) → HasNoPeers im → Outcome im im' → HasNoPeers im'
unfolding rebuild_config
Outcome-HasNoPeers im im' h (same e) = rw e h
Outcome-HasNoPeers im im' h (replaced id n old was e) =
    rw e λ k low. ground (arith, h k, h id, lookup-erase id k im.nodes)
Outcome-HasNoPeers im im' h (erased id e) =
    rw e λ k low. ground (arith, h k, lookup-erase id k im.nodes)

accept_client-HasNoPeers :
    (w w' : World) (im im' : Inbound) (stream : ℕ) (a : Accepted)
    → client_id_start ≤ im.next_client_id
    → HasNoPeers im
    → accept_client w im stream ≡ ok (w', im', a)
    → HasNoPeers im'
unfolding accept_client rebuild_config
accept_client-HasNoPeers w w' im im' stream a from h e =
    let id = im.next_client_id in
    let node = new_inbound_node id "client" im.has_handler in
    elim (Bool-cases (id == 2 ^ 32 - 1)) [
      | inl full ↦ let same_im : im' ≡ im = ground arith in rw same_im h
      | inr room ↦
          let there : (World × Node × ℕ) → Run (World × Inbound × Accepted) = λ r. ok (
            r.0,
            rebuild_config (with_nodes im (insert id r.1 im.nodes) ((id + 1) % 2 ^ 32)),
            new_client id r.2,
          ) in
          let e' : (attach_stream w node stream >>= there) ≡ ok (w', im', a) = ground arith in
          let (r, gone, is) = >>=-returns (attach_stream w node stream) there e' in
          λ k low. ground (arith, h k, lookup-erase id k im.nodes)
    ]

accept_peer-HasNoPeers :
    (w w' : World) (im im' : Inbound) (stream id : ℕ) (has_metadata : Bool) (a : Accepted)
    → client_id_start ≤ im.next_client_id
    → HasNoPeers im
    → accept_peer w im stream id has_metadata ≡ ok (w', im', a)
    → HasNoPeers im'
unfolding accept_peer
accept_peer-HasNoPeers w w' im im' stream id has_metadata a from h e =
    elim (Bool-cases (is_known im id)) [
      | inl known ↦
          let e' : register_peer w im stream id ≡ ok (w', im', a) = ground arith in
          let (out, up) = register_peer-Outcome w w' im im' stream id a e' in
          Outcome-HasNoPeers im im' h out
      | inr unknown ↦ elim (Bool-cases (id == 0 && has_metadata)) [
        | inl anonymous ↦ accept_client-HasNoPeers w w' im im' stream a from h (ground arith)
        | inr plain ↦ let same_im : im' ≡ im = ground arith in rw same_im h
      ]
    ]

step-HasNoPeers :
    (w w' : World) (im im' : Inbound) (e : Event) (as_ : List Accepted)
    → client_id_start ≤ im.next_client_id
    → HasNoPeers im
    → step w im e ≡ ok (w', im', as_)
    → HasNoPeers im'
unfolding step
step-HasNoPeers w w' im im' (connects stream id has_metadata) as_ from h e =
    let there : (World × Inbound × Accepted) → Run (World × Inbound × List Accepted) =
      λ r. ok (r.0, r.1, r.2 ∷ []) in
    let (r, ran, is) = >>=-returns (accept_peer w im stream id has_metadata) there e in
    let now : im' ≡ r.1 = ground arith in
    rw now (accept_peer-HasNoPeers w r.0 im r.1 stream id has_metadata r.2 from h ran)
step-HasNoPeers w w' im im' (peer_leaves id i) as_ from h e =
    let there : (World × Inbound) → Run (World × Inbound × List Accepted) =
      λ r. ok (r.0, r.1, []) in
    let (r, ran, is) = >>=-returns (peer_left w im id i) there e in
    let now : im' ≡ r.1 = ground arith in
    rw now (Outcome-HasNoPeers im r.1 h (peer_left-Outcome w r.0 im r.1 id i ran))
step-HasNoPeers w w' im im' (client_leaves id i) as_ from h e =
    let there : (World × Inbound) → Run (World × Inbound × List Accepted) =
      λ r. ok (r.0, r.1, []) in
    let (r, ran, is) = >>=-returns (client_left w im id i) there e in
    let now : im' ≡ r.1 = ground arith in
    rw now (Outcome-HasNoPeers im r.1 h (client_left-Outcome w r.0 im r.1 id i ran))

pub run-HasNoPeers :
    (w w' : World) (im im' : Inbound) (es : List Event) (as_ : List Accepted)
    → IsSound im
    → HasNoPeers im
    → run w im es ≡ ok (w', im', as_)
    → HasNoPeers im'
unfolding run
run-HasNoPeers w w' im im' [] as_ s h e = let same_im : im' ≡ im = ground arith in rw same_im h
run-HasNoPeers w w' im im' (v ∷ es) as_ s h e =
    let (r, one, rest) = >>=-returns (step w im v) _ e in
    let there : (World × Inbound × List Accepted) → Run (World × Inbound × List Accepted) =
      λ q. ok (q.0, q.1, r.2 ++ q.2) in
    let (q, ran, is) = >>=-returns (run r.0 r.1 es) there rest in
    let (s1, up1) = step-Proceeds w r.0 im r.1 v r.2 s one in
    let now : im' ≡ q.1 = ground arith in
    rw now (
      run-HasNoPeers r.0 q.0 r.1 q.1 es q.2 s1 (step-HasNoPeers w r.0 im r.1 v r.2 s.1.0 h one) ran)

abbrev pub start : ℕ → Bool → Inbound
start my_id has_callback = record {
  my_id = my_id;
  has_handler = true;
  has_callback = has_callback;
  nodes = [];
  config = [];
  client_config = [];
  next_msg_id = 0;
  next_client_id = client_id_start;
  changes = [];
  epoch = 0;
  stopped = false;
}

pub start-IsSound :
    (my_id : ℕ) (has_callback : Bool) → IsSound (rebuild_config (start my_id has_callback))
unfolding rebuild_config
start-IsSound my_id has_callback = (
  rebuild_config-IsCurrent (start my_id has_callback) tt,
  (omega arith, omega arith, λ k h. refl),
)
