-- ===== src/Inbound/Connections.antt =====
-- inbound_manager.go: what the cleanup functions and `registerPeer` leave, and the IDs of clients.
use gorums_ata.Base.{
  ℕ, ◌+◌, ◌≤◌, ◌≡◌, refl, inl, inr, Bool, some, List, [], ◌∷◌, ◌++◌, arith, if◌then◌else◌,
  Bool-cases, Option-cases, lookup, erase, insert,
}
use gorums_ata.Stream.Types.{Run, ok, >>=-returns, ◌>>=◌}
use gorums_ata.Stream.Deliver.{World}
use gorums_ata.Node.{Node, attach_stream, detach}
use gorums_ata.Inbound.{
  Inbound, rebuild_config, Accepted, new_client, register_peer, peer_left, client_left,
}
use gorums_ata.Inbound.Current.{IsSound, with_nodes, insert-IsSound, erase-IsSound}

-- The clients accepted have IDs from `n` up to `m`, each above the ones before it.
abbrev pub Ascends : ℕ → List Accepted → ℕ → Type 0
Ascends n [] m = n ≤ m
Ascends n (new_client c i ∷ as_) m = (n ≤ c) × Ascends (c + 1) as_ m
Ascends n (Accepted.known c i ∷ as_) m = Ascends n as_ m
Ascends n (Accepted.untracked ∷ as_) m = Ascends n as_ m
Ascends n (Accepted.exhausted ∷ as_) m = Ascends n as_ m

Ascends-from : (n n' m : ℕ) (ys : List Accepted) → n ≤ n' → Ascends n' ys m → Ascends n ys m
Ascends-from n n' m [] le h = omega arith
Ascends-from n n' m (new_client c i ∷ as_) le (h, rest) = (omega arith, rest)
Ascends-from n n' m (Accepted.known c i ∷ as_) le h = Ascends-from n n' m as_ le h
Ascends-from n n' m (Accepted.untracked ∷ as_) le h = Ascends-from n n' m as_ le h
Ascends-from n n' m (Accepted.exhausted ∷ as_) le h = Ascends-from n n' m as_ le h

pub Ascends-append :
    (n m k : ℕ) (xs ys : List Accepted) → Ascends n xs m → Ascends m ys k → Ascends n (xs ++ ys) k
Ascends-append n m k [] ys h g = Ascends-from n m k ys h g
Ascends-append n m k (new_client c i ∷ as_) ys (h, rest) g =
    (h, Ascends-append (c + 1) m k as_ ys rest g)
Ascends-append n m k (Accepted.known c i ∷ as_) ys h g = Ascends-append n m k as_ ys h g
Ascends-append n m k (Accepted.untracked ∷ as_) ys h g = Ascends-append n m k as_ ys h g
Ascends-append n m k (Accepted.exhausted ∷ as_) ys h g = Ascends-append n m k as_ ys h g

-- What one event leaves: the same nodes, or a new node under a key that is in use, or a key less.
pub data Outcome (im im' : Inbound) : Type 0 where
  same : im' ≡ im → Outcome im im'
  replaced :
      (id : ℕ) (n old : Node)
      → lookup id im.nodes ≡ some old
      → im' ≡ rebuild_config (with_nodes im (insert id n im.nodes) im.next_client_id)
      → Outcome im im'
  erased :
      (id : ℕ)
      → im' ≡ rebuild_config (with_nodes im (erase id im.nodes) im.next_client_id)
      → Outcome im im'

pub Outcome-IsSound :
    (im im' : Inbound)
    → IsSound im
    → Outcome im im'
    → IsSound im' × (im'.next_client_id ≡ im.next_client_id)
unfolding rebuild_config
Outcome-IsSound im im' s (same e) = rw e (s, refl)
Outcome-IsSound im im' s (replaced id n old h e) = rw e (insert-IsSound im id n old s h, refl)
Outcome-IsSound im im' s (erased id e) = rw e (erase-IsSound im id s, refl)

pub peer_left-Outcome :
    (w w' : World) (im im' : Inbound) (id i : ℕ)
    → peer_left w im id i ≡ ok (w', im')
    → Outcome im im'
unfolding peer_left rebuild_config
peer_left-Outcome w w' im im' id i e = elim (Option-cases (lookup id im.nodes)) [
  | inl free ↦ same (ground arith)
  | inr (n, found) ↦
      let left : (World × Node × Bool) → Run (World × Inbound) = λ r.
        ok (
          r.0,
          if r.2 then rebuild_config (record im { nodes = insert id r.1 im.nodes }) else im,
        ) in
      let e' : (detach w n i >>= left) ≡ ok (w', im') = ground arith in
      let (r, gone, is) = >>=-returns (detach w n i) left e' in
      elim (Bool-cases r.2) [
        | inl left_ ↦ replaced id r.1 n found (ground arith)
        | inr stays ↦ same (ground arith)
      ]
]

pub client_left-Outcome :
    (w w' : World) (im im' : Inbound) (id i : ℕ)
    → client_left w im id i ≡ ok (w', im')
    → Outcome im im'
unfolding client_left rebuild_config
client_left-Outcome w w' im im' id i e = elim (Option-cases (lookup id im.nodes)) [
  | inl free ↦ same (ground arith)
  | inr (n, found) ↦
      let left : (World × Node × Bool) → Run (World × Inbound) = λ r.
        ok (r.0, if r.2 then rebuild_config (record im { nodes = erase id im.nodes }) else im) in
      let e' : (detach w n i >>= left) ≡ ok (w', im') = ground arith in
      let (r, gone, is) = >>=-returns (detach w n i) left e' in
      elim (Bool-cases r.2) [
        | inl left_ ↦ erased id (ground arith)
        | inr stays ↦ same (ground arith)
      ]
]

pub register_peer-Outcome :
    (w w' : World) (im im' : Inbound) (stream id : ℕ) (a : Accepted)
    → register_peer w im stream id ≡ ok (w', im', a)
    → Outcome im im' × ((n : ℕ) → Ascends n (a ∷ []) n)
unfolding register_peer rebuild_config
register_peer-Outcome w w' im im' stream id a e = elim (Option-cases (lookup id im.nodes)) [
  | inl free ↦ cc
  | inr (n, found) ↦
      let there : (World × Node × ℕ) → Run (World × Inbound × Accepted) = λ r. ok (
        r.0,
        rebuild_config (record im { nodes = insert id r.1 im.nodes }),
        Accepted.known id r.2,
      ) in
      let e' : (attach_stream w n stream >>= there) ≡ ok (w', im', a) = ground arith in
      let (r, gone, is) = >>=-returns (attach_stream w n stream) there e' in
      let known : a ≡ Accepted.known id r.2 = ground arith in
      (replaced id r.1 n found (ground arith), λ n. rw known (omega arith))
]
