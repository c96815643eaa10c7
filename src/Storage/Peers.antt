-- ===== src/Storage/Peers.antt =====
-- examples/storage/server.go: `peerConfig`, which finds a server's own ID.
use gorums_ata.Base.{
  ℕ, ◌+◌, ◌-◌, ◌%◌, ◌^◌, ◌<◌, Ordering, ◌≡◌, refl, ap, ◌∙◌, ◌≢◌, inl, inr, true, Option, none, some,
  List, [], ◌∷◌, arith, if◌then◌else◌, Bool-cases, Option-cases, length, get_elem?, any,
  length-sort_by, sort_by, any-sort_by,
}
use Prim.Native.String.{String}
use text.Mathlib.Text.{◌==◌ as str_eq}
use native.Mathlib.Nat.{mod-eq_of_lt}
use text.Mathlib.TextEquality.{eq_iff}

-- `slices.Index`
unfoldable pub index : List String → String → Option ℕ
index [] a = none
index (x ∷ xs) a =
    let rest = index xs a in
    if str_eq x a then some 0 else elim rest [ none ↦ none | some i ↦ some (i + 1) ]

-- `peerConfig`: the ID, a uint32, with the list it is an index of. `order` compares strings.
unfoldable pub peer_config :
    (String → String → Ordering) → String → List String → Option (ℕ × List String)
unfolding index
peer_config order address peers =
    let sorted = sort_by order peers in
    elim (index sorted address) [ none ↦ none | some i ↦ some ((i + 1) % 2 ^ 32, sorted) ]

index-some :
    (xs : List String) (a : String) (i : ℕ)
    → index xs a ≡ some i
    → (get_elem? xs i ≡ some a) × (i < length xs)
unfolding index
index-some [] a i h = cc
index-some (x ∷ xs) a i h = elim (Bool-cases (str_eq x a)) [
  | inl hit ↦
      let equal : x ≡ a = (eq_iff x a).0 hit in
      let first : 0 ≡ i = ground arith in rw (← first) (rw equal refl, omega arith)
  | inr miss ↦ elim (Option-cases (index xs a)) [
    | inl missing ↦ absurd (ground arith)
    | inr (j, found) ↦
        let (at, below) = index-some xs a j found in
        let next : j + 1 ≡ i = ground arith in rw (← next) (ground arith, omega arith)
  ]
]

index-none : (xs : List String) (a : String) → any (λ x. str_eq x a) xs ≡ true → index xs a ≢ none
unfolding index
index-none [] a h = λ k. cc
index-none (x ∷ xs) a h = λ k. elim (Bool-cases (str_eq x a)) [
  | inl hit ↦ ground arith
  | inr miss ↦ ground (arith, index-none xs a)
]

-- `peerConfig` accepts an address exactly if it is one of the peers, and the ID less 1 is then the
-- index of the address in the sorted list, which is where `WithNodeList` gives that ID. There are
-- fewer than 2^32 peers.
pub peer_config_lem :
    (order : String → String → Ordering) (address : String) (peers : List String)
    → length peers < 2 ^ 32 - 1
    → (any (λ p. str_eq p address) peers ≡ true)
    → (i : ℕ) × (peer_config order address peers ≡ some (i + 1, sort_by order peers))
      × (get_elem? (sort_by order peers) i ≡ some address)
unfolding peer_config
peer_config_lem order address peers small member =
    let sorted = sort_by order peers in
    let there : any (λ p. str_eq p address) sorted ≡ true =
      any-sort_by order (λ p. str_eq p address) peers ∙ member in
    elim (Option-cases (index sorted address)) [
      | inl missing ↦ absurd (index-none sorted address there missing)
      | inr (i, found) ↦
          let (at, below) = index-some sorted address i found in
          let len = length-sort_by order peers in
          (i, rw (peer_config, found) (ap (λ k. some (k, sorted)) (mod-eq_of_lt (omega arith))), at)
    ]
