-- ===== src/Benchmark/Sorted.antt =====
-- benchmark/benchmark.go: the results of `RunBenchmarks`.
use gorums_ata.Base.{
  ◌+◌, Ordering, ◌≡◌, ◌≢◌, ◌⊎◌, inl, inr, Bool, true, false, ◌&&◌, List, [], ◌∷◌, arith, tally,
  IsSorted, Text, compare_text_flip, insert_by-IsSorted, tally-insert_by,
}
use gorums_ata.Errors.{Err}
use gorums_ata.Benchmark.{Floats, Result, by_name, insert_result, run_benchmarks}

module _ (fl : Floats) where
  abbrev pub Bench : Type 0
  Bench = Text × Bool × (Result fl ⊎ Err)

  by_name_flip : (a b : Result fl) → by_name fl a b ≡ Ordering.gt → by_name fl b a ≢ Ordering.gt
  by_name_flip a b h = compare_text_flip a.name b.name h

  run_benchmarks_from :
      (bs : List Bench) (results end : List (Result fl))
      → IsSorted (by_name fl) results
      → run_benchmarks fl bs results ≡ inl end
      → IsSorted (by_name fl) end
        × ((p : Text → Bool)
            → tally (λ r. p r.name) end
              ≡ tally (λ r. p r.name) results + tally (λ b. b.1 && p b.0) bs)
  unfolding run_benchmarks insert_result
  run_benchmarks_from [] results end sorted h =
      let same : results ≡ end = cc in (rw (← same) sorted, λ p. rw (← same) (omega arith))
  run_benchmarks_from ((name, false, inl r) ∷ bs) results end sorted h =
      let (in_order, names) = run_benchmarks_from bs results end sorted h in
      (in_order, λ p. omega (arith, names p))
  run_benchmarks_from ((name, false, inr e) ∷ bs) results end sorted h =
      let (in_order, names) = run_benchmarks_from bs results end sorted h in
      (in_order, λ p. omega (arith, names p))
  run_benchmarks_from ((name, true, inr e) ∷ bs) results end sorted h = cc
  run_benchmarks_from ((name, true, inl r) ∷ bs) results end sorted h =
      let named : Result fl = record r { name = name } in
      let (in_order, names) =
        run_benchmarks_from bs (insert_result fl named results) end
          (insert_by-IsSorted (by_name fl) by_name_flip named results sorted) h in
      (
        in_order,
        λ p. omega (arith, names p, tally-insert_by (by_name fl) (λ x. p x.name) named results),
      )

  -- If `RunBenchmarks` returns no error, then its results are in the order of their names, and the
  -- names are those of the benchmarks that match, as often as there.
  pub run_benchmarks_lem :
      (bs : List Bench) (end : List (Result fl))
      → run_benchmarks fl bs [] ≡ inl end
      → IsSorted (by_name fl) end
        × ((p : Text → Bool) → tally (λ r. p r.name) end ≡ tally (λ b. b.1 && p b.0) bs)
  run_benchmarks_lem bs end h =
      let (sorted, names) = run_benchmarks_from bs [] end tt h in
      (sorted, λ p. omega (arith, names p))
