-- ===== src/Config/Members.antt =====
-- config.go: which nodes the configurations hold that the operations make.
use gorums_ata.Base.{
  ℕ, ◌≤◌, ◌≡◌, refl, ap, ◌∙◌, inl, inr, Bool, true, false, ◌&&◌, ◌||◌, not, none, some, List, [],
  ◌∷◌, ◌++◌, arith, ◌==◌, if◌then◌else◌, ==_iff, Bool-cases, Option-cases, is_some, keep, tally,
  any, tally-append, any-append, mem, sort_by, tally-sort_by, any-sort_by, IsSorted,
  sort_by-IsSorted,
}
use gorums_ata.Stream.Types.{Run, ok, blocks, panics, ◌>>=◌}
use gorums_ata.Node.{Node, compare_id}
use gorums_ata.Node.Compare.{compare_id-flip}
use gorums_ata.Manager.{Manager, node_of}
use gorums_ata.Manager.Registered.{IsKeyed}
use gorums_ata.Config.{
  Configuration, is_empty, node_ids, contains, add_from, add, union, remove, difference,
}

pub mem-node_ids : (k : ℕ) (c : Configuration) → mem k (node_ids c) ≡ contains k c
unfolding node_ids contains
mem-node_ids k [] = refl
mem-node_ids k (n ∷ c) = ground (arith, mem-node_ids k c)

pub any-keep : (p q : Node → Bool) (c : Configuration) → any p (keep q c) ≡ any (λ n. q n && p n) c
any-keep p q [] = refl
any-keep p q (n ∷ c) = ground (arith, any-keep p q c)

pub any-without :
    (k : ℕ) (ids : List ℕ) (c : Configuration)
    → any (λ n. not (mem n.id ids) && (n.id == k)) c ≡ (any (λ n. n.id == k) c && not (mem k ids))
any-without k ids [] = refl
any-without k ids (n ∷ c) = elim (Bool-cases (n.id == k)) [
  | inl same ↦
      let e : n.id ≡ k = (==_iff n.id k).0 same in
      let m : mem n.id ids ≡ mem k ids = ap (λ (j : ℕ). mem j ids) e in
      ground (arith, any-without k ids c)
  | inr other ↦ ground (arith, any-without k ids c)
]

-- `Remove` keeps exactly the nodes whose IDs are not listed.
contains-remove :
    (k : ℕ) (c : Configuration) (ids : List ℕ)
    → contains k (remove c ids) ≡ (contains k c && not (mem k ids))
unfolding contains remove
contains-remove k c ids =
    any-keep (λ n. n.id == k) (λ n. not (mem n.id ids)) c ∙ any-without k ids c

pub contains-difference :
    (k : ℕ) (c other : Configuration)
    → contains k (difference c other) ≡ (contains k c && not (contains k other))
unfolding difference contains
contains-difference k c [] = ground arith
contains-difference k c (n ∷ other) =
    contains-remove k c (node_ids (n ∷ other))
    ∙ ap (λ b. contains k c && not b) (mem-node_ids k (n ∷ other))

-- The nodes that `c` holds with ID `k`.
abbrev pub copies : ℕ → Configuration → ℕ
copies k c = tally (λ n. n.id == k) c

copies-absent : (k : ℕ) (c : Configuration) → any (λ n. n.id == k) c ≡ false → copies k c ≡ 0
copies-absent k [] h = refl
copies-absent k (n ∷ c) h = ground (arith, copies-absent k c)

abbrev pub is_panic {ℓ} : {A : Type ℓ} → Run A → Bool
is_panic (ok a) = false
is_panic blocks = false
is_panic panics = true

-- What the loop of `Add` makes with a manager that is not nil.
unfoldable add_known : Manager → Configuration → List ℕ → List ℕ → Configuration
add_known m nodes seen [] = nodes
add_known m nodes seen (id ∷ ids) =
    let skipped = add_known m nodes seen ids in
    elim (node_of m id) [
      | none ↦ skipped
      | some n ↦
          let added = add_known m (nodes ++ n ∷ []) (id ∷ seen) ids in
          if mem id seen then skipped else added
    ]

add_from-known :
    (m : Manager) (nodes : Configuration) (seen ids : List ℕ)
    → add_from (some m) nodes seen ids ≡ ok (add_known m nodes seen ids)
unfolding add_from add_known
add_from-known m nodes seen [] = refl
add_from-known m nodes seen (id ∷ ids) = elim (Option-cases (node_of m id)) [
  | inl absent ↦ ground (arith, add_from-known m nodes seen ids)
  | inr (n, found) ↦
      ground
        (arith, add_from-known m nodes seen ids, add_from-known m (nodes ++ n ∷ []) (id ∷ seen) ids)
]

-- With a nil manager `Add` panics exactly if there is an ID that is not in the configuration.
add_from-nil :
    (nodes c : Configuration) (other : Configuration)
    → is_panic (add_from none nodes (node_ids c) (node_ids other))
      ≡ not (is_empty (keep (λ n. not (mem n.id (node_ids c))) other))
unfolding add_from node_ids
add_from-nil nodes c [] = refl
add_from-nil nodes c (n ∷ other) = ground (arith, add_from-nil nodes c other)

is_panic-sorted :
    (r : Run Configuration) → is_panic (r >>= λ nodes. ok (sort_by compare_id nodes)) ≡ is_panic r
is_panic-sorted (ok a) = refl
is_panic-sorted blocks = refl
is_panic-sorted panics = refl

union-nil :
    (c other : Configuration)
    → is_panic (union none c other) ≡ (not (is_empty c) && not (is_empty (difference other c)))
unfolding union add difference remove
union-nil [] other = refl
union-nil (x ∷ c) [] = refl
union-nil (x ∷ c) (n ∷ other) =
    is_panic-sorted (add_from none (x ∷ c) (node_ids (x ∷ c)) (node_ids (n ∷ other)))
    ∙ add_from-nil (x ∷ c) (x ∷ c) (n ∷ other)

module _ (m : Manager) (keyed : IsKeyed m) where
  contains-add_known :
      (k : ℕ) (nodes : Configuration) (seen ids : List ℕ)
      → mem k seen ≡ contains k nodes
      → contains k (add_known m nodes seen ids)
        ≡ (contains k nodes || (mem k ids && is_some (node_of m k)))
  unfolding add_known contains
  contains-add_known k nodes seen [] h = ground arith
  contains-add_known k nodes seen (id ∷ ids) h = elim (Option-cases (node_of m id)) [
    | inl absent ↦ ground (arith, contains-add_known k nodes seen ids h)
    | inr (n, found) ↦
        let grown = any-append (λ x. x.id == k) nodes (n ∷ []) in
        ground (
          arith,
          keyed id n found,
          grown,
          contains-add_known k nodes seen ids h,
          contains-add_known k (nodes ++ n ∷ []) (id ∷ seen) ids,
        )
  ]

  add_known-nonempty :
      (nodes : Configuration) (seen ids : List ℕ)
      → is_empty nodes ≡ false
      → is_empty (add_known m nodes seen ids) ≡ false
  unfolding add_known
  add_known-nonempty nodes seen [] h = h
  add_known-nonempty nodes seen (id ∷ ids) h = elim (Option-cases (node_of m id)) [
    | inl absent ↦ ground (arith, add_known-nonempty nodes seen ids h)
    | inr (n, found) ↦ ground (
      arith,
      add_known-nonempty nodes seen ids h,
      add_known-nonempty (nodes ++ n ∷ []) (id ∷ seen) ids,
    )
  ]

  -- `Add` holds the nodes of `c`, unless `c` is empty, and the nodes of the manager whose IDs are
  -- listed.
  contains-add :
      (k : ℕ) (c : Configuration) (ids : List ℕ)
      → is_empty c ≡ false
      → (d : Configuration) × (add (some m) c ids ≡ ok d)
        × (contains k d ≡ (contains k c || (mem k ids && is_some (node_of m k))))
  unfolding add contains
  contains-add k c ids h = (
    sort_by compare_id (add_known m c (node_ids c) ids),
    ground (arith, add_from-known m c (node_ids c) ids),
    any-sort_by compare_id (λ n. n.id == k) (add_known m c (node_ids c) ids)
        ∙ contains-add_known k c (node_ids c) ids (mem-node_ids k c),
  )

  copies-add_known :
      (k : ℕ) (nodes : Configuration) (seen ids : List ℕ)
      → mem k seen ≡ contains k nodes
      → copies k nodes ≤ 1
      → copies k (add_known m nodes seen ids) ≤ 1
  unfolding add_known contains
  copies-add_known k nodes seen [] h once = once
  copies-add_known k nodes seen (id ∷ ids) h once = elim (Option-cases (node_of m id)) [
    | inl absent ↦ ground (arith, copies-add_known k nodes seen ids h once)
    | inr (n, found) ↦
        let grown = any-append (λ x. x.id == k) nodes (n ∷ []) in
        let more = tally-append (λ x. x.id == k) nodes (n ∷ []) in
        ground (
          arith,
          keyed id n found,
          grown,
          more,
          copies-absent k nodes,
          copies-add_known k nodes seen ids h once,
          copies-add_known k (nodes ++ n ∷ []) (id ∷ seen) ids,
        )
  ]

  -- `Add` makes a configuration sorted by ID, with one node for an ID if `c` has
  -- no more.
  pub add-IsSorted :
      (k : ℕ) (c : Configuration) (ids : List ℕ)
      → copies k c ≤ 1
      → (d : Configuration) × (add (some m) c ids ≡ ok d) × IsSorted compare_id d × (copies k d ≤ 1)
  unfolding add
  add-IsSorted k [] ids once = ([], refl, tt, omega arith)
  add-IsSorted k (n ∷ c) ids once =
      let all = add_known m (n ∷ c) (node_ids (n ∷ c)) ids in
      (
        sort_by compare_id all,
        rw (add_from-known m (n ∷ c) (node_ids (n ∷ c)) ids) refl,
        sort_by-IsSorted compare_id compare_id-flip all,
        omega (
          arith,
          tally-sort_by compare_id (λ x. x.id == k) all,
          copies-add_known k (n ∷ c) (node_ids (n ∷ c)) ids (mem-node_ids k (n ∷ c)) once,
        ),
      )

  -- `Union` of a configuration whose manager has its nodes by their IDs returns: it holds the nodes of `c`, and those nodes of
  -- `other` whose IDs the manager of `c` has, or all if `c` is empty. With an empty configuration it
  -- is the other one. If `c` is a configuration of inbound nodes, whose manager is nil, it panics
  -- exactly if `c` is not empty and `other` has a node that `c` does not have.
  pub contains-union :
      (k : ℕ) (c other : Configuration)
      → ((d : Configuration) × (union (some m) c other ≡ ok d)
          × (contains k d
              ≡ (contains k c || (contains k other && (is_empty c || is_some (node_of m k))))))
        × (union (some m) [] other ≡ ok other)
        × (union (some m) c [] ≡ ok c)
        × (is_panic (union none c other)
            ≡ (not (is_empty c) && not (is_empty (difference other c))))
  unfolding union contains
  contains-union k [] other = ((other, refl, ground arith), refl, refl, union-nil [] other)
  contains-union k (n ∷ c) [] = ((n ∷ c, refl, ground arith), refl, refl, union-nil (n ∷ c) [])
  contains-union k (n ∷ c) (x ∷ other) =
      let (d, made, has) = contains-add k (n ∷ c) (node_ids (x ∷ other)) refl in
      (
        (d, made, ground (arith, has, mem-node_ids k (x ∷ other))),
        refl,
        refl,
        union-nil (n ∷ c) (x ∷ other),
      )
