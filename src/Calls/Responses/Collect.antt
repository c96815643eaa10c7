-- ===== src/Calls/Responses/Collect.antt =====
-- responses.go: the maps that `CollectN` and `CollectAll` build, after `IgnoreErrors` or not.
use gorums_ata.Base.{
  ℕ, ◌≤◌, ◌<◌, ◌≡◌, refl, ◌⊎◌, Option, none, some, List, [], ◌∷◌, arith, ◌==◌, if◌then◌else◌,
  is_none, length, tally, All, lookup, erase, insert, lookup-erase, Bool-cases, ltb, inl, inr,
}
use gorums_ata.Calls.Responses.{
  NodeResponse, ResponseSeq, ignore_errors, filter, collect_n_from, collect_n, collect_all_from,
  collect_all,
}

module _ {R : Type 0} where
  -- The value of the last response from node `i`.
  unfoldable pub last_value : ℕ → ResponseSeq R → Option R
  last_value i [] = none
  last_value i (r ∷ rs) = elim (last_value i rs) [
    | some v ↦ some v
    | none ↦ if r.node_id == i then some r.value else none
  ]

  abbrev or_from : Option R → Option R → Option R
  or_from (some v) o = some v
  or_from none o = o

  collect_all_from-lookup :
      (i : ℕ) (m : List (ℕ × R)) (rs : ResponseSeq R)
      → lookup i (collect_all_from m rs) ≡ or_from (last_value i rs) (lookup i m)
  unfolding collect_all_from last_value
  collect_all_from-lookup i m [] = refl
  collect_all_from-lookup i m (r ∷ rs) =
      ground (
        arith,
        collect_all_from-lookup i (insert r.node_id r.value m) rs,
        lookup-erase r.node_id i m,
      )

  -- `CollectAll` holds for each node the value of its last response, and nothing for other nodes.
  pub lookup-collect_all :
      (i : ℕ) (seq : ResponseSeq R) → lookup i (collect_all seq) ≡ last_value i seq
  unfolding collect_all
  lookup-collect_all i seq = ground (arith, collect_all_from-lookup i [] seq)

  length-erase-le : (k : ℕ) (m : List (ℕ × R)) → length (erase k m) ≤ length m
  length-erase-le k [] = omega arith
  length-erase-le k ((j, v) ∷ m) = ground (arith, length-erase-le k m)

  collect_n_from_lem :
      (n : ℕ) (m : List (ℕ × R)) (rs : ResponseSeq R)
      → length m < n ⊎ (n ≡ 0) × (length m ≡ 0)
      → (length (collect_n_from n m rs) ≤ n) ⊎ (n ≡ 0) × (length (collect_n_from n m rs) ≤ 1)
  unfolding collect_n_from
  collect_n_from_lem n m [] h = ground arith
  collect_n_from_lem n m (r ∷ rs) h =
      ground
        (arith, collect_n_from_lem n (insert r.node_id r.value m) rs, length-erase-le r.node_id m)

  collect_n_from-all :
      (n : ℕ) (m : List (ℕ × R)) (rs : ResponseSeq R)
      → length (collect_n_from n m rs) < n
      → collect_n_from n m rs ≡ collect_all_from m rs
  unfolding collect_n_from collect_all_from
  collect_n_from-all n m [] h = refl
  collect_n_from-all n m (r ∷ rs) h =
      ground (arith, collect_n_from-all n (insert r.node_id r.value m) rs)

  -- `CollectN` holds at most `n` entries, or one where `n` is 0; and if it holds fewer than `n`,
  -- it is what `CollectAll` returns.
  pub collect_n_lem :
      (seq : ResponseSeq R) (n : ℕ)
      → ((length (collect_n seq n) ≤ n) ⊎ (n ≡ 0) × (length (collect_n seq n) ≤ 1))
        × ((n ≤ length (collect_n seq n)) ⊎ (collect_n seq n ≡ collect_all seq))
  unfolding collect_n collect_all
  collect_n_lem seq n = (
    collect_n_from_lem n [] seq (ground arith),
    elim (Bool-cases (ltb (length (collect_n seq n)) n)) [
      | inl fewer ↦ inr (collect_n_from-all n [] seq (ground arith))
      | inr enough ↦ inl (ground arith)
    ],
  )

  -- `CollectN(0)` returns one entry if there is any response: it stops only after an insertion.
  pub collect_n-zero :
      (r : NodeResponse R) (rs : ResponseSeq R) → collect_n (r ∷ rs) 0 ≡ (r.node_id, r.value) ∷ []
  unfolding collect_n collect_n_from
  collect_n-zero r rs = refl

  -- What `IgnoreErrors` yields are the responses with no error, in order; so what `Filter` by that
  -- test yields.
  pub ignore_errors_lem :
      (seq : ResponseSeq R)
      → (ignore_errors seq ≡ filter (λ r. is_none r.err) seq)
        × (length (ignore_errors seq) ≡ tally (λ r. is_none r.err) seq)
        × All (λ r. r.err ≡ none) (ignore_errors seq)
  unfolding ignore_errors filter
  ignore_errors_lem [] = (refl, refl, tt)
  ignore_errors_lem (r ∷ rs) = ground (arith, ignore_errors_lem rs)
