-- ===== src/Inbound/Later.antt =====
-- inbound_manager.go: an event at the manager leaves the configurations or replaces the channel.
use gorums_ata.Base.{
  ℕ, ◌+◌, ◌-◌, ◌%◌, ◌^◌, ◌<◌, ◌≡◌, ◌⊎◌, inl, inr, Bool, ◌&&◌, List, arith, ◌==◌, Bool-cases, insert,
}
use gorums_ata.Stream.Types.{Run, ok, ◌>>=◌, >>=-returns}
use gorums_ata.Stream.Deliver.{World}
use gorums_ata.Node.{Node, attach_stream, new_inbound_node}
use gorums_ata.Inbound.{
  Inbound, Accepted, Event, connects, peer_leaves, client_leaves, new_client, rebuild_config,
  is_known, step, register_peer, accept_client, accept_peer, peer_left, client_left,
}
use gorums_ata.Inbound.Current.{with_nodes}
use gorums_ata.Inbound.Connections.{
  Outcome, same, replaced, erased, peer_left-Outcome, client_left-Outcome, register_peer-Outcome,
}

-- The configurations are the same, or the channel is another.
abbrev pub IsLater : Inbound → Inbound → Type 0
IsLater im im' = (im' ≡ im) ⊎ (im.epoch < im'.epoch)

Outcome-IsLater : (im im' : Inbound) → Outcome im im' → IsLater im im'
unfolding rebuild_config
Outcome-IsLater im im' (same e) = inl e
Outcome-IsLater im im' (replaced id n old h e) = inr (rw e (omega arith))
Outcome-IsLater im im' (erased id e) = inr (rw e (omega arith))

accept_client-IsLater :
    (w w' : World) (im im' : Inbound) (stream : ℕ) (a : Accepted)
    → accept_client w im stream ≡ ok (w', im', a)
    → IsLater im im'
unfolding accept_client rebuild_config
accept_client-IsLater w w' im im' stream a e =
    let id = im.next_client_id in
    let node = new_inbound_node id "client" im.has_handler in
    elim (Bool-cases (id == 2 ^ 32 - 1)) [
      | inl full ↦ inl (ground arith)
      | inr room ↦
          let there : (World × Node × ℕ) → Run (World × Inbound × Accepted) = λ r. ok (
            r.0,
            rebuild_config (with_nodes im (insert id r.1 im.nodes) ((id + 1) % 2 ^ 32)),
            new_client id r.2,
          ) in
          let e' : (attach_stream w node stream >>= there) ≡ ok (w', im', a) = ground arith in
          let (r, gone, is) = >>=-returns (attach_stream w node stream) there e' in
          inr (ground arith)
    ]

accept_peer-IsLater :
    (w w' : World) (im im' : Inbound) (stream id : ℕ) (has_metadata : Bool) (a : Accepted)
    → accept_peer w im stream id has_metadata ≡ ok (w', im', a)
    → IsLater im im'
unfolding accept_peer
accept_peer-IsLater w w' im im' stream id has_metadata a e = elim (Bool-cases (is_known im id)) [
  | inl known ↦
      let e' : register_peer w im stream id ≡ ok (w', im', a) = ground arith in
      Outcome-IsLater im im' (register_peer-Outcome w w' im im' stream id a e').0
  | inr unknown ↦ elim (Bool-cases (id == 0 && has_metadata)) [
    | inl anonymous ↦ accept_client-IsLater w w' im im' stream a (ground arith)
    | inr plain ↦ inl (ground arith)
  ]
]

pub step-IsLater :
    (w w' : World) (im im' : Inbound) (e : Event) (as_ : List Accepted)
    → step w im e ≡ ok (w', im', as_)
    → IsLater im im'
unfolding step
step-IsLater w w' im im' (connects stream id has_metadata) as_ h =
    let (r, ran, is) = >>=-returns (accept_peer w im stream id has_metadata) _ h in
    let now : r.1 ≡ im' = ground arith in
    rw (← now) (accept_peer-IsLater w r.0 im r.1 stream id has_metadata r.2 ran)
step-IsLater w w' im im' (peer_leaves id i) as_ h =
    let (r, ran, is) = >>=-returns (peer_left w im id i) _ h in
    let now : r.1 ≡ im' = ground arith in
    rw (← now) (Outcome-IsLater im r.1 (peer_left-Outcome w r.0 im r.1 id i ran))
step-IsLater w w' im im' (client_leaves id i) as_ h =
    let (r, ran, is) = >>=-returns (client_left w im id i) _ h in
    let now : r.1 ≡ im' = ground arith in
    rw (← now) (Outcome-IsLater im r.1 (client_left-Outcome w r.0 im r.1 id i ran))
