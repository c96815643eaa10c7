-- ===== src/Inbound/Current.antt =====
-- inbound_manager.go: the two configurations follow the connections.
use gorums_ata.Base.{
  ℕ, ◌+◌, ◌-◌, ◌%◌, ◌^◌, ◌≤◌, ◌<◌, Ordering, compare, ◌≡◌, refl, sym, ap, ◌∙◌, ◌≢◌, ◌↔◌, ◌⊎◌, inl,
  inr, Bool, true, false, Option, none, some, List, [], ◌∷◌, arith, ◌==◌, ==_iff, Bool-cases,
  Option-cases, is_some, to_nat, tally, lookup, erase, insert, lookup-erase, tally-sort_by,
  IsSorted, sort_by-IsSorted,
}
use gorums_ata.Node.{Node}
use gorums_ata.Inbound.{Inbound, client_id_start, keys_where, is_client, is_member, rebuild_config}

-- The map holds a key once.
abbrev pub IsMap : List (ℕ × Node) → Type 0
IsMap [] = Unit {0}
IsMap ((id, n) ∷ m) = (lookup id m ≡ none) × IsMap m

pub erase-IsMap : (id : ℕ) (m : List (ℕ × Node)) → IsMap m → IsMap (erase id m)
erase-IsMap id [] h = tt
erase-IsMap id ((j, n) ∷ m) h = ground (arith, erase-IsMap id m, lookup-erase id j m)

pub insert-IsMap : (id : ℕ) (n : Node) (m : List (ℕ × Node)) → IsMap m → IsMap (insert id n m)
insert-IsMap id n m h = (ground (arith, lookup-erase id id m), erase-IsMap id m h)

-- Whether a key is in a map, with a node that passes the test.
abbrev pub passes : (ℕ → Node → Bool) → ℕ → Option Node → Bool
passes p k none = false
passes p k (some n) = p k n

abbrev pub copies : ℕ → List ℕ → ℕ
copies k = tally (λ x. x == k)

copies-absent :
    (p : ℕ → Node → Bool) (k : ℕ) (m : List (ℕ × Node))
    → lookup k m ≡ none
    → copies k (keys_where p m) ≡ 0
unfolding keys_where
copies-absent p k [] h = refl
copies-absent p k ((id, n) ∷ m) h = ground (arith, copies-absent p k m)

copies-keys_where :
    (p : ℕ → Node → Bool) (k : ℕ) (m : List (ℕ × Node))
    → IsMap m
    → copies k (keys_where p m) ≡ to_nat (passes p k (lookup k m))
unfolding keys_where
copies-keys_where p k [] h = refl
copies-keys_where p k ((id, n) ∷ m) h = elim (Bool-cases (id == k)) [
  | inl hit ↦
      let same : id ≡ k = (==_iff id k).0 hit in
      let found = ap (λ j. p j n) same in
      let free = ap (λ j. lookup j m) same in ground (arith, copies-absent p k m)
  | inr miss ↦ ground (arith, copies-keys_where p k m)
]

-- The configurations hold exactly the peers and the clients that they should, each once, in order.
pub record IsCurrent (im : Inbound) : Type 0 where
  pub is_map : IsMap im.nodes
  pub members :
      (k : ℕ) → copies k im.config ≡ to_nat (passes (is_member im.my_id) k (lookup k im.nodes))
  pub clients :
      (k : ℕ) → copies k im.client_config ≡ to_nat (passes is_client k (lookup k im.nodes))
  pub in_order : IsSorted compare im.config
  pub clients_in_order : IsSorted compare im.client_config

-- Who should be in the configurations: `k` is the ID of a known peer, below that of any client, which
-- has a stream or is this server itself; or of a client that has a stream.
abbrev pub IsOpenPeer : Inbound → ℕ → Type 0
IsOpenPeer im k =
    (k < 1_048_576)
    × (n : Node) × (lookup k im.nodes ≡ some n)
    × ((k ≡ im.my_id) ⊎ (is_some n.channel ≡ true))

abbrev pub IsOpenClient : Inbound → ℕ → Type 0
IsOpenClient im k =
    (1_048_576 ≤ k) × (n : Node) × (lookup k im.nodes ≡ some n) × (is_some n.channel ≡ true)

-- A configuration holds the IDs that should be in it, each once, in order.
abbrev pub HoldsExactly : (ℕ → Type 0) → List ℕ → Type 0
HoldsExactly P ids =
    ((k : ℕ) → (copies k ids ≤ 1) × ((copies k ids ≡ 1) ↔ P k)) × IsSorted compare ids

counted_member :
    (im : Inbound) (k : ℕ)
    → IsCurrent im
    → (copies k im.config ≤ 1) × ((copies k im.config ≡ 1) ↔ IsOpenPeer im k)
counted_member im k cur = elim (Option-cases (lookup k im.nodes)) [
  | inl absent ↦
      let none_ : copies k im.config ≡ 0 = cur.members k ∙ rw absent refl in
      (omega (arith, none_), (λ h. absurd (omega (arith, none_)), λ h. cc))
  | inr (n, found) ↦
      let count : copies k im.config ≡ to_nat (is_member im.my_id k n) =
        cur.members k ∙ rw found refl in
      let itself = ==_iff k im.my_id in
      (
        ground (arith, count),
        (
          λ h.
              let low : k < 1_048_576 = ground (arith, count) in
              (
                low,
                n,
                found,
                elim (Bool-cases (k == im.my_id)) [
                  | inl me ↦ inl (itself.0 me)
                  | inr other ↦ inr (ground (arith, count))
                ],
              ),
          λ h. let same : some n ≡ some h.1 = sym found ∙ h.2 in ground (arith, count, itself),
        ),
      )
]

counted_client :
    (im : Inbound) (k : ℕ)
    → IsCurrent im
    → (copies k im.client_config ≤ 1) × ((copies k im.client_config ≡ 1) ↔ IsOpenClient im k)
counted_client im k cur = elim (Option-cases (lookup k im.nodes)) [
  | inl absent ↦
      let none_ : copies k im.client_config ≡ 0 = cur.clients k ∙ rw absent refl in
      (omega (arith, none_), (λ h. absurd (omega (arith, none_)), λ h. cc))
  | inr (n, found) ↦
      let count : copies k im.client_config ≡ to_nat (is_client k n) =
        cur.clients k ∙ rw found refl in
      (
        ground (arith, count),
        (
          λ h. (ground (arith, count), n, found, ground (arith, count)),
          λ h. let same : some n ≡ some h.1 = sym found ∙ h.2 in ground (arith, count),
        ),
      )
]

pub IsCurrent-HoldsExactly :
    (im : Inbound)
    → IsCurrent im
    → HoldsExactly (IsOpenPeer im) im.config × HoldsExactly (IsOpenClient im) im.client_config
IsCurrent-HoldsExactly im cur = (
  (λ k. counted_member im k cur, cur.in_order),
  (λ k. counted_client im k cur, cur.clients_in_order),
)

compare-flip : (x y : ℕ) → compare x y ≡ Ordering.gt → compare y x ≢ Ordering.gt
compare-flip x y h = ground arith

pub rebuild_config-IsCurrent : (im : Inbound) → IsMap im.nodes → IsCurrent (rebuild_config im)
unfolding rebuild_config
rebuild_config-IsCurrent im h = record {
  is_map = h;
  members = λ k.
      tally-sort_by compare (λ x. x == k) (keys_where (is_member im.my_id) im.nodes)
      ∙ copies-keys_where (is_member im.my_id) k im.nodes h;
  clients = λ k.
      tally-sort_by compare (λ x. x == k) (keys_where is_client im.nodes)
      ∙ copies-keys_where is_client k im.nodes h;
  in_order = sort_by-IsSorted compare compare-flip (keys_where (is_member im.my_id) im.nodes);
  clients_in_order = sort_by-IsSorted compare compare-flip (keys_where is_client im.nodes);
}

-- No ID from the next client's on is in use.
abbrev pub IsFresh : Inbound → Type 0
IsFresh im =
    (client_id_start ≤ im.next_client_id)
    × (im.next_client_id < 2 ^ 32)
    × ((k : ℕ) → im.next_client_id ≤ k → lookup k im.nodes ≡ none)

abbrev pub IsSound : Inbound → Type 0
IsSound im = IsCurrent im × IsFresh im

-- The manager after a change of its nodes, with the configurations rebuilt.
abbrev pub with_nodes : Inbound → List (ℕ × Node) → ℕ → Inbound
with_nodes im nodes next = record im { nodes = nodes; next_client_id = next }

pub insert-IsSound :
    (im : Inbound) (id : ℕ) (n old : Node)
    → IsSound im
    → lookup id im.nodes ≡ some old
    → IsSound (rebuild_config (with_nodes im (insert id n im.nodes) im.next_client_id))
unfolding rebuild_config
insert-IsSound im id n old (cur, (lo, hi, fresh)) e = (
  rebuild_config-IsCurrent (with_nodes im (insert id n im.nodes) im.next_client_id)
      (insert-IsMap id n im.nodes cur.is_map),
  (lo, hi, λ k h. ground (arith, fresh k, fresh id, lookup-erase id k im.nodes)),
)

pub erase-IsSound :
    (im : Inbound) (id : ℕ)
    → IsSound im
    → IsSound (rebuild_config (with_nodes im (erase id im.nodes) im.next_client_id))
unfolding rebuild_config
erase-IsSound im id (cur, (lo, hi, fresh)) = (
  rebuild_config-IsCurrent (with_nodes im (erase id im.nodes) im.next_client_id)
      (erase-IsMap id im.nodes cur.is_map),
  (lo, hi, λ k h. ground (arith, fresh k, lookup-erase id k im.nodes)),
)

pub join-IsSound :
    (im : Inbound) (n : Node)
    → IsSound im
    → im.next_client_id ≢ 2 ^ 32 - 1
    → IsSound (
        rebuild_config
          (with_nodes im (insert im.next_client_id n im.nodes) ((im.next_client_id + 1) % 2 ^ 32)))
unfolding rebuild_config
join-IsSound im n (cur, (lo, hi, fresh)) below =
    let next : (im.next_client_id + 1) % 2 ^ 32 ≡ im.next_client_id + 1 = ground arith in
    (
      rebuild_config-IsCurrent
          (with_nodes im (insert im.next_client_id n im.nodes) ((im.next_client_id + 1) % 2 ^ 32))
          (insert-IsMap im.next_client_id n im.nodes cur.is_map),
      (
        ground arith,
        ground arith,
        λ k h. ground (arith, fresh k, lookup-erase im.next_client_id k im.nodes),
      ),
    )
