-- ===== src/Config.antt =====
-- config.go: configurations, which are lists of nodes, and the operations that make new ones.
-- `mgr()`, the manager of the first node, which is nil for an inbound node, is an argument; so are the
-- results of its nodes' calls.
pub mod Members
pub mod Excluded
pub mod Sorting
pub mod Watch
pub mod Extend
use gorums_ata.Base.{
  ℕ, ◌+◌, ◌-◌, Ordering, Bool, true, false, ◌&&◌, not, Option, none, some, List, [], ◌∷◌, ◌++◌,
  ◌==◌, if◌then◌else◌, length, keep, any, mem, sort_by,
}
use gorums_ata.Errors.{Err, NodeErrors, nil, cons, errors_is}
use gorums_ata.Stream.Types.{Run, ok, panics, ◌>>=◌}
use gorums_ata.Node.{Node, compare_id}
use gorums_ata.Manager.{Manager, node_of}

abbrev pub Configuration : Type 0
Configuration = List Node

-- `len(c) == 0`
abbrev pub is_empty {ℓ} : {A : Type ℓ} → List A → Bool
is_empty [] = true
is_empty (x ∷ xs) = false

-- `NodeIDs`
unfoldable pub node_ids : Configuration → List ℕ
node_ids [] = []
node_ids (n ∷ c) = n.id ∷ node_ids c

-- `Size`
abbrev pub size : Configuration → ℕ
size c = length c

-- `Contains`
unfoldable pub contains : ℕ → Configuration → Bool
contains id c = any (λ n. n.id == id) c

same_ids : Configuration → Configuration → Bool
same_ids [] [] = true
same_ids (x ∷ xs) (y ∷ ys) = x.id == y.id && same_ids xs ys
same_ids _ _ = false

-- `Equal`
unfoldable pub equal : Configuration → Configuration → Bool
unfolding same_ids
equal c b = length c == length b && same_ids c b

-- The loop of `Add`, with its variables `nodes` and `seenIDs`. Asking a nil manager panics.
unfoldable pub add_from : Option Manager → Configuration → List ℕ → List ℕ → Run Configuration
add_from m nodes seen [] = ok nodes
add_from m nodes seen (id ∷ ids) =
    let skipped = add_from m nodes seen ids in
    let asked : Run Configuration = elim m [
      | none ↦ panics
      | some mgr ↦ elim (node_of mgr id) [
        | none ↦ skipped
        | some n ↦ add_from m (nodes ++ n ∷ []) (id ∷ seen) ids
      ]
    ] in
    if not (mem id seen) then asked else skipped

-- `Add`
unfoldable pub add : Option Manager → Configuration → List ℕ → Run Configuration
unfolding add_from node_ids
add m c ids =
    let all = add_from m c (node_ids c) ids in
    if is_empty c then ok [] else (all >>= λ nodes. ok (sort_by compare_id nodes))

-- `Union`
unfoldable pub union : Option Manager → Configuration → Configuration → Run Configuration
unfolding add node_ids
union m c other =
    if is_empty c then ok other else if is_empty other then ok c else add m c (node_ids other)

-- `Remove`
unfoldable pub remove : Configuration → List ℕ → Configuration
remove c ids = keep (λ n. not (mem n.id ids)) c

-- `Difference`
unfoldable pub difference : Configuration → Configuration → Configuration
unfolding remove node_ids
difference c other = if is_empty other then c else remove c (node_ids other)

-- `SortBy`
unfoldable pub config_sort_by : Configuration → (Node → Node → Ordering) → Configuration
config_sort_by c cmp = if is_empty c then [] else sort_by cmp c

-- The closure `exclude` of `WithoutErrors`.
unfoldable pub exclude : List Err → Err → Bool
exclude types e = if is_empty types then true else any (λ t. errors_is e t) types

-- `excludeSet` of `WithoutErrors`
unfoldable pub excluded_ids : List Err → NodeErrors → List ℕ
unfolding exclude
excluded_ids types nil = []
excluded_ids types (cons e i es) =
    let rest = excluded_ids types es in if exclude types e then i ∷ rest else rest

-- `WithoutErrors`, of the node errors of a `QuorumCallError`.
unfoldable pub without_errors : Configuration → NodeErrors → List Err → Configuration
unfolding excluded_ids
without_errors c errors types = keep (λ n. not (mem n.id (excluded_ids types errors))) c
