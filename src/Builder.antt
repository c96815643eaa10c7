-- ===== src/Builder.antt =====
-- config_opts.go: how a configuration is built from a map or a list of addresses.
pub mod Lists
pub mod Numbered
use gorums_ata.Base.{
  ℕ, ◌+◌, ◌-◌, ◌%◌, ◌^◌, compare, ◌≡◌, ◌⊎◌, inl, inr, not, Option, none, some, List, [], ◌∷◌, ◌++◌,
  map, ltb, ◌==◌, if◌then◌else◌, lookup, insert, sort_by,
}
use Prim.Native.String.{String}
use text.Mathlib.Text.{◌==◌ as str_eq}
use gorums_ata.Errors.{Err}
use gorums_ata.Node.{Node, compare_id}
use gorums_ata.Manager.{
  BuildError, missing_nodes, node_zero, invalid_address, id_in_use, address_in_use, Built, built,
  refused, ◌>>=◌,
}
use gorums_ata.Config.{Configuration, is_empty}

-- `nodeRegistry`: its nodes, and `newNode`, which makes a node with the ID and the address given.
pub record Registry : Type 1 where
  pub State : Type 0
  pub nodes : State → List Node
  pub new_node : State → ℕ → String → Built (State × Node)
  pub new_node_id :
      (s s' : State) (id : ℕ) (addr : String) (n : Node)
      → new_node s id addr ≡ built (s', n)
      → (n.id ≡ id) × (n.addr ≡ addr)

-- The map `addrToID`.
abbrev pub lookup_addr : String → List (String × ℕ) → Option ℕ
lookup_addr a [] = none
lookup_addr a ((b, i) ∷ m) = if str_eq b a then some i else lookup_addr a m

abbrev pub larger : ℕ → ℕ → ℕ
larger a b = if ltb a b then b else a

-- Two text results of `normalizeAddr`: the address, or the error of `net.ResolveTCPAddr`.
abbrev pub Resolved : Type 0
Resolved = String ⊎ Err

module _ (reg : Registry) where
  open reg use {State, nodes, new_node}

  -- `nodeBuilder`, with the registry's state.
  pub record Builder : Type 0 where
    pub registry : State
    pub addr_to_id : List (String × ℕ)
    pub id_to_node : List (ℕ × Node)
    pub max_id : ℕ
    pub chosen : Configuration  -- `nodes`

  -- The loop of `newNodeBuilder` over the registry's nodes.
  unfoldable pub populate : Builder → List Node → Builder
  populate b [] = b
  populate b (n ∷ ns) =
      populate
        (record b {
          addr_to_id = (n.addr, n.id) ∷ b.addr_to_id;
          id_to_node = insert n.id n b.id_to_node;
          max_id = larger b.max_id n.id;
        })
        ns

  -- `newNodeBuilder`
  unfoldable pub new_builder : State → Builder
  unfolding populate
  new_builder s =
      populate (record { registry = s; addr_to_id = []; id_to_node = []; max_id = 0; chosen = [] })
        (nodes s)

  -- The end of `add`, for an ID that is not in use.
  unfoldable pub add_new : Builder → ℕ → String → Built Builder
  add_new b id addr = new_node b.registry id addr >>= λ r. built (record b {
    registry = r.0;
    addr_to_id = (addr, id) ∷ b.addr_to_id;
    chosen = b.chosen ++ r.1 ∷ [];
  })

  -- The part of `add` behind `normalizeAddr`.
  unfoldable pub add_normalized : Builder → ℕ → String → Built Builder
  unfolding add_new
  add_normalized b id addr = elim (lookup id b.id_to_node) [
    | some n ↦
        if not (str_eq n.addr addr)
        then refused (id_in_use id)
        else built (record b { chosen = b.chosen ++ n ∷ [] })
    | none ↦ elim (lookup_addr addr b.addr_to_id) [
      | some other ↦ refused (address_in_use addr other)
      | none ↦ add_new b id addr
    ]
  ]

  module _ (resolve : String → Resolved) where
    -- `nodeBuilder.add`; `resolve` is `normalizeAddr`.
    unfoldable pub add : Builder → ℕ → String → Built Builder
    unfolding add_normalized
    add b id addr = elim (resolve addr) [
      | inl normalized ↦ if id == 0 then refused node_zero else add_normalized b id normalized
      | inr e ↦ if id == 0 then refused node_zero else refused (invalid_address addr e)
    ]

    -- The loops of the two `newConfig` methods.
    unfoldable pub add_all : Builder → List (ℕ × String) → Built Builder
    unfolding add
    add_all b [] = built b
    add_all b ((id, addr) ∷ rest) = add b id addr >>= λ b'. add_all b' rest

    -- `configuration`
    unfoldable pub configuration : Builder → Configuration
    configuration b = sort_by compare_id b.chosen

    -- `nodeMap.newConfig`: the map's keys are sorted first.
    unfoldable pub new_config_map : State → List (ℕ × String) → Built (State × Configuration)
    unfolding new_builder add_all configuration
    new_config_map s entries =
        let sorted = sort_by (λ x y. compare x.0 y.0) entries in
        if is_empty entries
        then refused missing_nodes
        else (add_all (new_builder s) sorted >>= λ b. built (b.registry, configuration b))

    -- The IDs of `nodeList.newConfig`: `nextID + uint32(i)`, as uint32.
    unfoldable pub number_from : ℕ → List String → List (ℕ × String)
    number_from id [] = []
    number_from id (a ∷ as_) = (id, a) ∷ number_from ((id + 1) % 2 ^ 32) as_

    -- `nodeList.newConfig`; `nextID` is `maxID + 1`, as uint32.
    unfoldable pub new_config_list : State → List String → Built (State × Configuration)
    unfolding new_builder add_all configuration number_from
    new_config_list s addrs =
        let b = new_builder s in
        let numbered = number_from ((b.max_id + 1) % 2 ^ 32) addrs in
        if is_empty addrs
        then refused missing_nodes
        else (add_all b numbered >>= λ b'. built (b'.registry, configuration b'))
