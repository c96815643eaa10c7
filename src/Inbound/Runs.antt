-- ===== src/Inbound/Runs.antt =====
-- inbound_manager.go: what the manager is after streams connect and end in any order.
use gorums_ata.Base.{
  ℕ, ◌+◌, ◌-◌, ◌%◌, ◌^◌, ◌≡◌, ◌≢◌, inl, inr, Bool, ◌&&◌, List, [], ◌∷◌, ◌++◌, arith, ◌==◌,
  Bool-cases, insert,
}
use gorums_ata.Stream.Types.{Run, ok, >>=-returns, ◌>>=◌}
use gorums_ata.Stream.Deliver.{World}
use gorums_ata.Node.{Node, attach_stream, new_inbound_node}
use gorums_ata.Inbound.{
  Inbound, rebuild_config, is_known, Accepted, new_client, register_peer, accept_client,
  accept_peer, peer_left, client_left, Event, connects, peer_leaves, client_leaves, step, run,
}
use gorums_ata.Inbound.Current.{
  IsMap, IsFresh, IsSound, with_nodes, join-IsSound, rebuild_config-IsCurrent, HoldsExactly,
  IsOpenPeer, IsOpenClient, IsCurrent-HoldsExactly,
}
use gorums_ata.Inbound.Connections.{
  Ascends-append, Outcome, Outcome-IsSound, peer_left-Outcome, client_left-Outcome,
  register_peer-Outcome, Ascends,
}

-- The state after some events, and what they accepted.
abbrev pub Proceeds : Inbound → Inbound → List Accepted → Type 0
Proceeds im im' as_ = IsSound im' × Ascends im.next_client_id as_ im'.next_client_id

Proceeds-moved :
    (im im' im1 : Inbound) (as_ as1 : List Accepted)
    → im' ≡ im1
    → as_ ≡ as1
    → Proceeds im im1 as1
    → Proceeds im im' as_
Proceeds-moved im im' im1 as_ as1 e f p = rw e (rw f p)

joined-Proceeds :
    (im im' : Inbound) (n : Node) (i : ℕ) (a : Accepted)
    → IsSound im
    → im.next_client_id ≢ 2 ^ 32 - 1
    → im'
      ≡ rebuild_config
          (with_nodes im (insert im.next_client_id n im.nodes) ((im.next_client_id + 1) % 2 ^ 32))
    → a ≡ new_client im.next_client_id i
    → Proceeds im im' (a ∷ [])
unfolding rebuild_config
joined-Proceeds im im' n i a s below now made =
    let hi = s.1.1 in
    let next : (im.next_client_id + 1) % 2 ^ 32 ≡ im.next_client_id + 1 = ground arith in
    rw now (rw made (join-IsSound im n s below, (omega arith, omega arith)))

accept_client_lem :
    (w w' : World) (im im' : Inbound) (stream : ℕ) (a : Accepted)
    → IsSound im
    → accept_client w im stream ≡ ok (w', im', a)
    → Proceeds im im' (a ∷ [])
unfolding accept_client rebuild_config
accept_client_lem w w' im im' stream a s e =
    let id = im.next_client_id in
    let node = new_inbound_node id "client" im.has_handler in
    let joined : ℕ × Node × ℕ → Inbound =
      λ r. rebuild_config (with_nodes im (insert id r.1 im.nodes) ((id + 1) % 2 ^ 32)) in
    elim (Bool-cases (id == 2 ^ 32 - 1)) [
      | inl full ↦
          let same_im : im' ≡ im = ground arith in
          let none_ : a ≡ Accepted.exhausted = ground arith in
          rw same_im (rw none_ (s, omega arith))
      | inr room ↦
          let there : (World × Node × ℕ) → Run (World × Inbound × Accepted) = λ r. ok (
            r.0,
            rebuild_config (with_nodes im (insert id r.1 im.nodes) ((id + 1) % 2 ^ 32)),
            new_client id r.2,
          ) in
          let e' : (attach_stream w node stream >>= there) ≡ ok (w', im', a) = ground arith in
          let (r, gone, is) = >>=-returns (attach_stream w node stream) there e' in
          joined-Proceeds im im' r.1 r.2 a s (ground arith) (ground arith) (ground arith)
    ]

accept_peer_lem :
    (w w' : World) (im im' : Inbound) (stream id : ℕ) (has_metadata : Bool) (a : Accepted)
    → IsSound im
    → accept_peer w im stream id has_metadata ≡ ok (w', im', a)
    → Proceeds im im' (a ∷ [])
unfolding accept_peer
accept_peer_lem w w' im im' stream id has_metadata a s e = elim (Bool-cases (is_known im id)) [
  | inl known ↦
      let e' : register_peer w im stream id ≡ ok (w', im', a) = ground arith in
      let (out, up) = register_peer-Outcome w w' im im' stream id a e' in
      let (sound, next) = Outcome-IsSound im im' s out in (sound, rw next (up im.next_client_id))
  | inr unknown ↦ elim (Bool-cases (id == 0 && has_metadata)) [
    | inl anonymous ↦ accept_client_lem w w' im im' stream a s (ground arith)
    | inr plain ↦
        let same_im : im' ≡ im = ground arith in
        let none_ : a ≡ Accepted.untracked = ground arith in rw same_im (rw none_ (s, omega arith))
  ]
]

left-Proceeds :
    (im im' im1 : Inbound) (as_ : List Accepted)
    → IsSound im
    → Outcome im im1
    → im' ≡ im1
    → as_ ≡ []
    → Proceeds im im' as_
left-Proceeds im im' im1 as_ s out now none_ =
    let (sound, next) = Outcome-IsSound im im1 s out in rw now (rw none_ (sound, omega arith))

pub step-Proceeds :
    (w w' : World) (im im' : Inbound) (e : Event) (as_ : List Accepted)
    → IsSound im
    → step w im e ≡ ok (w', im', as_)
    → Proceeds im im' as_
unfolding step
step-Proceeds w w' im im' (connects stream id has_metadata) as_ s h =
    let there : (World × Inbound × Accepted) → Run (World × Inbound × List Accepted) =
      λ r. ok (r.0, r.1, r.2 ∷ []) in
    let (r, ran, is) = >>=-returns (accept_peer w im stream id has_metadata) there h in
    let now : im' ≡ r.1 = ground arith in
    let made : as_ ≡ r.2 ∷ [] = ground arith in
    Proceeds-moved im im' r.1 as_ (r.2 ∷ []) now made
      (accept_peer_lem w r.0 im r.1 stream id has_metadata r.2 s ran)
step-Proceeds w w' im im' (peer_leaves id i) as_ s h =
    let there : (World × Inbound) → Run (World × Inbound × List Accepted) =
      λ r. ok (r.0, r.1, []) in
    let (r, ran, is) = >>=-returns (peer_left w im id i) there h in
    left-Proceeds im im' r.1 as_ s (peer_left-Outcome w r.0 im r.1 id i ran) (ground arith)
      (ground arith)
step-Proceeds w w' im im' (client_leaves id i) as_ s h =
    let there : (World × Inbound) → Run (World × Inbound × List Accepted) =
      λ r. ok (r.0, r.1, []) in
    let (r, ran, is) = >>=-returns (client_left w im id i) there h in
    left-Proceeds im im' r.1 as_ s (client_left-Outcome w r.0 im r.1 id i ran) (ground arith)
      (ground arith)

pub run-Proceeds :
    (w w' : World) (im im' : Inbound) (es : List Event) (as_ : List Accepted)
    → IsSound im
    → run w im es ≡ ok (w', im', as_)
    → Proceeds im im' as_
unfolding run
run-Proceeds w w' im im' [] as_ s h =
    let same_im : im' ≡ im = ground arith in
    let none_ : as_ ≡ [] = ground arith in rw same_im (rw none_ (s, omega arith))
run-Proceeds w w' im im' (e ∷ es) as_ s h =
    let (r, one, rest) = >>=-returns (step w im e) _ h in
    let there : (World × Inbound × List Accepted) → Run (World × Inbound × List Accepted) =
      λ q. ok (q.0, q.1, r.2 ++ q.2) in
    let (q, ran, is) = >>=-returns (run r.0 r.1 es) there rest in
    let (s1, up1) = step-Proceeds w r.0 im r.1 e r.2 s one in
    let (s2, up2) = run-Proceeds r.0 q.0 r.1 q.1 es q.2 s1 ran in
    let now : im' ≡ q.1 = ground arith in
    let made : as_ ≡ r.2 ++ q.2 = ground arith in
    Proceeds-moved im im' q.1 as_ (r.2 ++ q.2) now made
      (s2, Ascends-append im.next_client_id r.1.next_client_id q.1.next_client_id r.2 q.2 up1 up2)

-- From a manager that `rebuildConfig` has just been called on, whose nodes have IDs below that of the
-- next client, in whatever order streams connect and end: `Config` holds exactly the nodes with an ID
-- below `1 << 20` that have a stream or are this server itself, and `ClientConfig` those with an ID from
-- `1 << 20` on that have a stream, each once and in the order of their IDs. No client gets an ID that
-- another client had before. This holds of any such events that do not panic.
pub run-HoldsExactly :
    (w w' : World) (im im' : Inbound) (es : List Event) (as_ : List Accepted)
    → IsMap im.nodes
    → IsFresh im
    → run w (rebuild_config im) es ≡ ok (w', im', as_)
    → HoldsExactly (IsOpenPeer im') im'.config
      × HoldsExactly (IsOpenClient im') im'.client_config
      × Ascends im.next_client_id as_ im'.next_client_id
unfolding rebuild_config
run-HoldsExactly w w' im im' es as_ m fresh ran =
    let s : IsSound (rebuild_config im) = (rebuild_config-IsCurrent im m, fresh) in
    let (sound, up) = run-Proceeds w w' (rebuild_config im) im' es as_ s ran in
    let (members, clients) = IsCurrent-HoldsExactly im' sound.0 in (members, clients, up)
