-- ===== src/Builder/Lists.antt =====
-- config_opts.go: what a new `nodeBuilder` knows of the nodes that are registered.
use gorums_ata.Base.{
  count_up, ℕ, zero, suc, ◌+◌, ◌≤◌, ◌<◌, ◌≡◌, refl, ◌⊎◌, inl, inr, ap, Bool, true, ◌||◌, none, List,
  [], ◌∷◌, ◌++◌, arith, ◌==◌, is_some, tally, any, lookup, insert, lookup-erase, IsSorted,
}
use Prim.Native.String.{String}
use text.Mathlib.Text.{◌==◌ as str_eq}
use gorums_ata.Node.{Node, compare_id}
use gorums_ata.Manager.{Built, built, refused, ◌>>=◌}
use gorums_ata.Config.{Configuration, node_ids}
use gorums_ata.Builder.{Registry, Builder, lookup_addr, larger, populate}

pub built-bind {ℓ κ} :
    {A : Type ℓ} {B : Type κ} (m : Built A) (f : A → Built B) {b : B}
    → (m >>= f) ≡ built b
    → (a : A) × (m ≡ built a) × (f a ≡ built b)
built-bind (built a) f h = (a, refl, h)
built-bind (refused e) f h = cc

abbrev pub has_id : ℕ → List Node → Bool
has_id k = any (λ n. n.id == k)

-- How many nodes have the address.
abbrev pub copies_addr : String → List Node → ℕ
copies_addr a = tally (λ n. str_eq n.addr a)

pub node_ids-append : (c d : Configuration) → node_ids (c ++ d) ≡ node_ids c ++ node_ids d
unfolding node_ids
node_ids-append [] d = refl
node_ids-append (n ∷ c) d = ap (◌∷◌ n.id) (node_ids-append c d)

pub ascending-IsSorted :
    (c : Configuration) (i n : ℕ) → node_ids c ≡ count_up i n → IsSorted compare_id c
unfolding node_ids compare_id
ascending-IsSorted [] i n e = tt
ascending-IsSorted (x ∷ c) i zero e = ground arith
ascending-IsSorted (x ∷ []) i (suc n) e = (tt, tt)
ascending-IsSorted (x ∷ y ∷ c) i (suc zero) e = ground arith
ascending-IsSorted (x ∷ y ∷ c) i (suc (suc n)) e =
    (ground arith, ascending-IsSorted (y ∷ c) (i + 1) (suc n) (ground arith))

module _ (reg : Registry) where
  -- No node is known under an ID above the largest.
  abbrev pub IsBounded : Builder reg → Type 0
  IsBounded b = (k : ℕ) → b.max_id < k → lookup k b.id_to_node ≡ none

  -- The builder after one registered node.
  abbrev noted : Node → Builder reg → Builder reg
  noted n b = record b {
    addr_to_id = (n.addr, n.id) ∷ b.addr_to_id;
    id_to_node = insert n.id n b.id_to_node;
    max_id = larger b.max_id n.id;
  }

  pub populate-IsBounded :
      (ns : List Node) (b : Builder reg) → IsBounded b → IsBounded (populate reg b ns)
  unfolding populate
  populate-IsBounded [] b h = h
  populate-IsBounded (n ∷ ns) b h =
      populate-IsBounded ns (noted n b)
        (λ k lt. ground (arith, h k, lookup-erase n.id k b.id_to_node))

  populate-grows : (ns : List Node) (b : Builder reg) → b.max_id ≤ (populate reg b ns).max_id
  unfolding populate
  populate-grows [] b = omega arith
  populate-grows (n ∷ ns) b = ground (arith, populate-grows ns (noted n b))

  pub populate-max :
      (ns : List Node) (b : Builder reg) (k : ℕ)
      → has_id k ns ≡ true
      → k ≤ (populate reg b ns).max_id
  unfolding populate
  populate-max [] b k h = ground arith
  populate-max (n ∷ ns) b k h =
      ground (arith, populate-grows ns (noted n b), populate-max ns (noted n b) k)

  -- The largest ID is that of a node, or the one from before.
  pub populate-attained :
      (ns : List Node) (b : Builder reg)
      → ((populate reg b ns).max_id ≡ b.max_id) ⊎ (has_id (populate reg b ns).max_id ns ≡ true)
  unfolding populate
  populate-attained [] b = inl refl
  populate-attained (n ∷ ns) b = elim (populate-attained ns (noted n b)) [
    | inl same ↦ ground arith
    | inr found ↦ ground arith
  ]

  -- Each address of the nodes is known.
  pub populate-addr :
      (a : String) (ns : List Node) (b : Builder reg)
      → (is_some (lookup_addr a b.addr_to_id) || any (λ n. str_eq n.addr a) ns) ≡ true
      → is_some (lookup_addr a (populate reg b ns).addr_to_id) ≡ true
  unfolding populate
  populate-addr a [] b h = ground arith
  populate-addr a (n ∷ ns) b h = populate-addr a ns (noted n b) (ground arith)

  pub populate-chosen : (ns : List Node) (b : Builder reg) → (populate reg b ns).chosen ≡ b.chosen
  unfolding populate
  populate-chosen [] b = refl
  populate-chosen (n ∷ ns) b = populate-chosen ns (noted n b)
