-- ===== src/Builder/Numbered.antt =====
-- config_opts.go: the IDs and addresses that `WithNodeList` gives.
use gorums_ata.Base.{
  Sum-cases, count_up, ℕ, ◌+◌, ◌%◌, ◌^◌, ◌≤◌, ◌<◌, ◌≡◌, refl, sym, ap, ◌∙◌, ◌⊎◌, inl, inr, true,
  false, none, List, [], ◌∷◌, ◌++◌, arith, Bool-cases, Option-cases, is_some, to_nat, length, any,
  tally-append, lookup, sort_by, sort_by_sorted,
}
use Prim.Native.String.{String}
use mathlib.Core.List.{append_assoc, append-nil}
use text.Mathlib.Text.{◌==◌ as str_eq}
use text.Mathlib.TextEquality.{eq_iff}
use gorums_ata.Node.{Node, compare_id}
use gorums_ata.Manager.{Built, built, ◌>>=◌}
use gorums_ata.Config.{Configuration, node_ids}
use gorums_ata.Builder.{
  Registry, Builder, Resolved, lookup_addr, new_builder, add_new, add_normalized, add, add_all,
  configuration, number_from, new_config_list,
}
use gorums_ata.Builder.Lists.{
  IsBounded, has_id, copies_addr, populate-IsBounded, populate-max, populate-addr, populate-chosen,
  populate-attained, built-bind, node_ids-append, ascending-IsSorted,
}

module _ (reg : Registry) where
  module _ (resolve : String → Resolved) where
    add-fresh :
        (b b' : Builder reg) (id : ℕ) (addr : String)
        → lookup id b.id_to_node ≡ none
        → add reg resolve b id addr ≡ built b'
        → (a : String) × (lookup_addr a b.addr_to_id ≡ none) × (add_new reg b id a ≡ built b')
    unfolding add add_normalized
    add-fresh b b' id addr h e = elim (Sum-cases (resolve addr)) [
      | inl (a, is) ↦
          let taken = Option-cases (lookup_addr a b.addr_to_id) in
          let free : lookup_addr a b.addr_to_id ≡ none = ground arith in (a, free, ground arith)
      | inr (x, is) ↦ ground arith
    ]

    add_new_lem :
        (b b' : Builder reg) (id : ℕ) (a : String)
        → add_new reg b id a ≡ built b'
        → (n : Node) × (n.id ≡ id)
          × (n.addr ≡ a)
          × (b'.chosen ≡ b.chosen ++ n ∷ [])
          × (b'.addr_to_id ≡ (a, id) ∷ b.addr_to_id)
          × (b'.id_to_node ≡ b.id_to_node)
          × (b'.max_id ≡ b.max_id)
    unfolding add_new
    add_new_lem b b' id a e =
        let (r, made, same) = built-bind (reg.new_node b.registry id a) _ e in
        let (i, addr) = reg.new_node_id b.registry r.0 id a r.1 made in
        (r.1, i, addr, ground arith, ground arith, ground arith, ground arith)

    -- What `add` does when the ID is above all the known ones.
    add_above :
        (b b' : Builder reg) (id : ℕ) (addr : String)
        → IsBounded reg b
        → b.max_id < id
        → add reg resolve b id addr ≡ built b'
        → (n : Node) × (n.id ≡ id)
          × (b'.chosen ≡ b.chosen ++ n ∷ [])
          × (lookup_addr n.addr b.addr_to_id ≡ none)
          × (b'.addr_to_id ≡ (n.addr, id) ∷ b.addr_to_id)
          × (b'.id_to_node ≡ b.id_to_node)
          × (b'.max_id ≡ b.max_id)
    add_above b b' id addr bounded lt e =
        let (a, free, made) = add-fresh b b' id addr (bounded id lt) e in
        let (n, i, same, chosen, addrs, ids, top) = add_new_lem b b' id a made in
        (
          n,
          i,
          chosen,
          ap (λ x. lookup_addr x b.addr_to_id) same ∙ free,
          addrs ∙ ap (λ x. (x, id) ∷ b.addr_to_id) (sym same),
          ids,
          top,
        )

    add_all-node_ids :
        (addrs : List String) (b b' : Builder reg) (id : ℕ)
        → IsBounded reg b
        → b.max_id < id
        → id + length addrs < 2 ^ 32
        → add_all reg resolve b (number_from reg resolve id addrs) ≡ built b'
        → node_ids b'.chosen ≡ node_ids b.chosen ++ count_up id (length addrs)
    unfolding add_all number_from node_ids
    add_all-node_ids [] b b' id bounded lt fits e =
        let same : b ≡ b' = ground arith in
        ap (λ c. node_ids c.chosen) (sym same) ∙ sym (append-nil (node_ids b.chosen))
    add_all-node_ids (x ∷ addrs) b b' id bounded lt fits e =
        let (b1, one, rest) = built-bind (add reg resolve b id x) _ e in
        let (n, i, chosen, _, _, ids, top) = add_above b b1 id x bounded lt one in
        let next : (id + 1) % 2 ^ 32 ≡ id + 1 = omega arith in
        let run = ap (λ j. add_all reg resolve b1 (number_from reg resolve j addrs)) (sym next) in
        let ih =
          add_all-node_ids addrs b1 b' (id + 1) (ground arith) (omega arith) (omega arith)
            (run ∙ rest) in
        ih
        ∙ ap (λ c. node_ids c ++ count_up (id + 1) (length addrs)) chosen
        ∙ ap (λ c. c ++ count_up (id + 1) (length addrs)) (node_ids-append b.chosen (n ∷ []))
        ∙ append_assoc (node_ids b.chosen) (n.id ∷ []) (count_up (id + 1) (length addrs))
        ∙ ap (λ j. node_ids b.chosen ++ j ∷ count_up (id + 1) (length addrs)) i

    -- No address is given twice, or to a node that is known.
    add_all-copies_addr :
        (a : String) (addrs : List String) (b b' : Builder reg) (id : ℕ)
        → IsBounded reg b
        → b.max_id < id
        → id + length addrs < 2 ^ 32
        → add_all reg resolve b (number_from reg resolve id addrs) ≡ built b'
        → copies_addr a b'.chosen + to_nat (is_some (lookup_addr a b.addr_to_id))
          ≤ copies_addr a b.chosen + 1
    unfolding add_all number_from
    add_all-copies_addr a [] b b' id bounded lt fits e =
        let same : b ≡ b' = ground arith in
        let more = ap (λ c. copies_addr a c.chosen) same in ground arith
    add_all-copies_addr a (x ∷ addrs) b b' id bounded lt fits e =
        let (b1, one, rest) = built-bind (add reg resolve b id x) _ e in
        let (n, i, chosen, free, known, ids, top) = add_above b b1 id x bounded lt one in
        let next : (id + 1) % 2 ^ 32 ≡ id + 1 = omega arith in
        let run = ap (λ j. add_all reg resolve b1 (number_from reg resolve j addrs)) (sym next) in
        let ih =
          add_all-copies_addr a addrs b1 b' (id + 1) (ground arith) (omega arith) (omega arith)
            (run ∙ rest) in
        let count =
          ap (copies_addr a) chosen ∙ tally-append (λ n. str_eq n.addr a) b.chosen (n ∷ []) in
        let is = (eq_iff n.addr a).0 in
        let now = ap (lookup_addr a) known in
        let before = λ (p : n.addr ≡ a). ap (λ y. lookup_addr y b.addr_to_id) (sym p) ∙ free in
        ground arith

  module _ (resolve : String → Resolved) (s : reg.State) (top : ℕ)
      (is : top ≡ (new_builder reg s).max_id) where
    new_config_list-ran :
        (addrs : List String) (s' : reg.State) (c : Configuration)
        → top + 1 < 2 ^ 32
        → new_config_list reg resolve s addrs ≡ built (s', c)
        → (b' : Builder reg) × (add_all reg resolve
              (new_builder reg s)
              (number_from reg resolve (top + 1) addrs)
            ≡ built b')
          × (c ≡ sort_by compare_id b'.chosen)
    unfolding new_config_list configuration
    new_config_list-ran addrs s' c fits e =
        let b = new_builder reg s in
        let next : (b.max_id + 1) % 2 ^ 32 ≡ top + 1 = omega arith in
        let ran = add_all reg resolve b (number_from reg resolve (top + 1) addrs) in
        let numbered = ap (λ j. add_all reg resolve b (number_from reg resolve j addrs)) next in
        let end : Builder reg → Built (reg.State × Configuration) =
          λ b'. built (b'.registry, configuration reg resolve b') in
        let full : (ran >>= end) ≡ built (s', c) = ground arith in
        let (b', done_ran, same) = built-bind ran end full in (b', done_ran, ground arith)

    new_builder-IsBounded : IsBounded reg (new_builder reg s)
    unfolding new_builder
    new_builder-IsBounded = populate-IsBounded reg (reg.nodes s) _ (λ k lt. refl)

    new_builder-chosen : (new_builder reg s).chosen ≡ []
    unfolding new_builder
    new_builder-chosen = populate-chosen reg (reg.nodes s) _

    new_builder-max : (k : ℕ) → has_id k (reg.nodes s) ≡ true → k ≤ top
    unfolding new_builder
    new_builder-max k h = rw is (populate-max reg (reg.nodes s) _ k h)

    new_builder-below : (k : ℕ) → (has_id k (reg.nodes s) ≡ false) ⊎ (k ≤ top)
    new_builder-below k = elim (Bool-cases (has_id k (reg.nodes s))) [
      | inl found ↦ inr (new_builder-max k found)
      | inr missing ↦ inl missing
    ]

    new_builder-attained : (top ≡ 0) ⊎ (has_id top (reg.nodes s) ≡ true)
    unfolding new_builder
    new_builder-attained = rw is (populate-attained reg (reg.nodes s) _)

    new_builder-addr :
        (a : String)
        → any (λ n. str_eq n.addr a) (reg.nodes s) ≡ true
        → is_some (lookup_addr a (new_builder reg s).addr_to_id) ≡ true
    unfolding new_builder
    new_builder-addr a h = populate-addr reg a (reg.nodes s) _ h

    -- When `WithNodeList` succeeds, the new nodes have the IDs that follow the largest known one,
    -- `top`, in order, no address twice and none that a known node has, if `top + 1` and the number of
    -- addresses sum to less than `2 ^ 32`. No known ID is above `top`, which is 0 or a known ID.
    pub new_config_list_lem :
        (s' : reg.State) (addrs : List String) (c : Configuration) (k : ℕ) (a : String)
        → top + 1 + length addrs < 2 ^ 32
        → new_config_list reg resolve s addrs ≡ built (s', c)
        → (node_ids c ≡ count_up (top + 1) (length addrs))
          × ((has_id k (reg.nodes s) ≡ false) ⊎ (k ≤ top))
          × ((top ≡ 0) ⊎ (has_id top (reg.nodes s) ≡ true))
          × (copies_addr a c + to_nat (any (λ n. str_eq n.addr a) (reg.nodes s)) ≤ 1)
    unfolding node_ids
    new_config_list_lem s' addrs c k a fits e =
        let b = new_builder reg s in
        let (b', ran, sorted) = new_config_list-ran addrs s' c (omega arith) e in
        let bounded = new_builder-IsBounded in
        let ids : node_ids b'.chosen ≡ count_up (top + 1) (length addrs) =
          add_all-node_ids resolve addrs b b' (top + 1) bounded (omega arith) fits ran
          ∙ ap (λ c. node_ids c ++ count_up (top + 1) (length addrs)) new_builder-chosen in
        let in_order = ascending-IsSorted b'.chosen (top + 1) (length addrs) ids in
        let same : c ≡ b'.chosen = sorted ∙ sort_by_sorted compare_id b'.chosen in_order in
        let once =
          add_all-copies_addr resolve a addrs b b' (top + 1) bounded (omega arith) fits ran in
        let none_yet = ap (copies_addr a) new_builder-chosen in
        let is_c = ap (copies_addr a) same in
        let seen = new_builder-addr a in
        (ap node_ids same ∙ ids, new_builder-below k, new_builder-attained, ground arith)
