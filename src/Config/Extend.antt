-- ===== src/Config/Extend.antt =====
-- config.go, mgr.go: `Extend`, and `Close` of a configuration and of its manager. The error of
-- closing a connection is not looked at by the code and is left out.
use gorums_ata.Base.{
  ℕ, ◌≡◌, refl, ◌∙◌, ◌⊎◌, inl, inr, true, ◌||◌, Option, none, some, List, [], ◌∷◌, arith,
  if◌then◌else◌, is_some, insert,
}
use gorums_ata.Manager.Registered.{IsKeyed}
use gorums_ata.Stream.Types.{Run, ok, ◌>>=◌}
use gorums_ata.Stream.Deliver.{World}
use gorums_ata.Node.{Node, close_node}
use gorums_ata.Manager.{Manager, BuildError, Built, built, refused, node_of}
use gorums_ata.Config.{Configuration, union, contains}
use gorums_ata.Config.Members.{contains-union}

-- The loop of `outboundManager.Close`: a closed node has another router.
unfoldable pub close_nodes : World → List Node → Run (World × List Node)
close_nodes w [] = ok (w, [])
close_nodes w (n ∷ ns) =
    close_node w n >>= λ r. close_nodes r.0 ns >>= λ q. ok (q.0, record n { router = r.1 } ∷ q.1)

-- The map holds the same nodes as the slice.
abbrev pub refresh : List Node → List (ℕ × Node) → List (ℕ × Node)
refresh [] m = m
refresh (n ∷ ns) m = refresh ns (insert n.id n m)

-- `outboundManager.Close`
unfoldable pub close_manager : World → Manager → Run (World × Manager)
unfolding close_nodes
close_manager w m =
    let closed = close_nodes w m.nodes in
    if m.close_ran
    then ok (w, m)
    else (closed >>= λ q.
        ok (q.0, record m { nodes = q.1; by_id = refresh q.1 m.by_id; close_ran = true }))

-- `Configuration.Close`; the manager is that of the first node, if there is one.
unfoldable pub close_configuration :
    World → Configuration → Option Manager → Run (World × Option Manager)
unfolding close_manager
close_configuration w [] m = ok (w, m)
close_configuration w (n ∷ c) none = ok (w, none)
close_configuration w (n ∷ c) (some m) = close_manager w m >>= λ r. ok (r.0, some r.1)

-- Why `Extend` fails.
pub data ExtendError : Type 0 where
  empty_configuration : ExtendError
  not_built : BuildError → ExtendError

-- A `NodeListOption`, which may be nil: its `newConfig`.
abbrev pub NodeList : Type 0
NodeList = Option (Manager → Built (Manager × Configuration))

-- `Extend`, of a configuration of outbound nodes, whose manager is `m`.
unfoldable pub extend :
    Manager → Configuration → NodeList → Run ((Manager × Configuration) ⊎ ExtendError)
unfolding union
extend m [] opt = ok (inr empty_configuration)
extend m (n ∷ c) none = ok (inl (m, n ∷ c))
extend m (n ∷ c) (some new_config) = elim (new_config m) [
  | refused e ↦ ok (inr (not_built e))
  | built r ↦ union (some r.0) (n ∷ c) r.1 >>= λ d. ok (inl (r.0, d))
]

-- `Extend` by a list of nodes from which `newConfig` makes nodes that the manager then has: the
-- result holds the nodes of both, and if `newConfig` fails there is only its error.
pub contains-extend :
    (m m' : Manager) (n : Node) (c new : Configuration)
    (new_config : Manager → Built (Manager × Configuration)) (k : ℕ)
    → IsKeyed m'
    → new_config m ≡ built (m', new)
    → (contains k new ≡ true → is_some (node_of m' k) ≡ true)
    → (d : Configuration) × (extend m (n ∷ c) (some new_config) ≡ ok (inl (m', d)))
      × (contains k d ≡ (contains k (n ∷ c) || contains k new))
unfolding extend
contains-extend m m' n c new new_config k keyed made known =
    let (d, joined, has) = (contains-union m' keyed k (n ∷ c) new).0 in
    (d, rw (extend, made) (rw joined refl), has ∙ ground arith)
