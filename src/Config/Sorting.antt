-- ===== src/Config/Sorting.antt =====
-- config.go: `SortBy` by latency.
use gorums_ata.Base.{
  Ordering, ◌≡◌, refl, ◌≢◌, ◌⊎◌, Bool, true, false, [], ◌∷◌, arith, keep, tally, tally-sort_by,
  IsSorted, sort_by-IsSorted, is_neg, compare_int, keep-sort_by,
}
use gorums_ata.Node.{Node, latency, compare_latency}
use gorums_ata.Node.Compare.{compare_latency-flip}
use gorums_ata.Config.{Configuration, config_sort_by}

-- No node with a measured latency stands behind one without, and those with one ascend.
abbrev pub MeasuredFirst : Configuration → Type 0
MeasuredFirst [] = Unit {0}
MeasuredFirst (a ∷ []) = Unit {0}
MeasuredFirst (a ∷ b ∷ c) =
    ((is_neg (latency a) ≡ false)
        × (is_neg (latency b) ≡ false)
        × (compare_int (latency a) (latency b) ≢ Ordering.gt)
      ⊎ (is_neg (latency b) ≡ true))
    × MeasuredFirst (b ∷ c)

IsSorted-MeasuredFirst : (c : Configuration) → IsSorted compare_latency c → MeasuredFirst c
unfolding compare_latency
IsSorted-MeasuredFirst [] s = tt
IsSorted-MeasuredFirst (a ∷ []) s = tt
IsSorted-MeasuredFirst (a ∷ b ∷ c) s = (ground arith, IsSorted-MeasuredFirst (b ∷ c) s.1)

-- `SortBy(Latency)` has the nodes of `c`, as often as `c` has them, with the measured ones first, in
-- ascending order of latency; the nodes of any set of which
-- none sorts behind another stay in their order.
pub sort_by_latency :
    (c : Configuration) (p : Node → Bool)
    → ((a b : Node) → p a ≡ true → p b ≡ true → compare_latency a b ≢ Ordering.gt)
    → MeasuredFirst (config_sort_by c compare_latency)
      × ((q : Node → Bool) → tally q (config_sort_by c compare_latency) ≡ tally q c)
      × (keep p (config_sort_by c compare_latency) ≡ keep p c)
unfolding config_sort_by
sort_by_latency [] p h = (tt, λ q. refl, refl)
sort_by_latency (n ∷ c) p h = (
  IsSorted-MeasuredFirst _ (sort_by-IsSorted compare_latency compare_latency-flip (n ∷ c)),
  λ q. tally-sort_by compare_latency q (n ∷ c),
  keep-sort_by compare_latency p h (n ∷ c),
)
