-- ===== src/Benchmark/Combined.antt =====
-- benchmark/qspec.go: how `StopServerBenchmarkQF` combines the replies.
use gorums_ata.Base.{
  ℕ, ◌+◌, ◌*◌, ◌/◌, ◌%◌, ◌^◌, ◌<◌, ◌≡◌, refl, sym, ap, ◌∙◌, inl, List, [], ◌∷◌, ◌++◌, arith, length,
}
use mathlib.Core.List.{append-nil, append_assoc}
use gorums_ata.Benchmark.{
  Floats, MemoryStat, Result, zero_result, combine, combine_all, stop_server_benchmark_qf,
}

module _ (fl : Floats) where
  abbrev pub sum_ops : List (Result fl) → ℕ
  sum_ops [] = 0
  sum_ops (r ∷ rs) = r.total_ops + sum_ops rs

  -- The memory of each reply, by the operations of all replies up to it.
  abbrev pub memory_from : ℕ → List (Result fl) → List MemoryStat
  memory_from before [] = []
  memory_from before (r ∷ rs) =
      record {
        allocs = (r.allocs_per_op * (before + r.total_ops)) % 2 ^ 64;
        memory = (r.mem_per_op * (before + r.total_ops)) % 2 ^ 64;
      }
      ∷ memory_from (before + r.total_ops) rs

  combine_all_lem :
      (resp : Result fl) (rs : List (Result fl))
      → resp.name ≡ []
      → resp.total_ops + sum_ops rs < 2 ^ 64
      → let end = combine_all fl resp rs in
        (end.name ≡ [])
        × (end.total_ops ≡ resp.total_ops + sum_ops rs)
        × (end.server_stats ≡ resp.server_stats ++ memory_from resp.total_ops rs)
  unfolding combine_all combine
  combine_all_lem resp [] h small = (h, omega arith, sym (append-nil resp.server_stats))
  combine_all_lem resp (r ∷ rs) h small =
      let ops : (resp.total_ops + r.total_ops) % 2 ^ 64 ≡ resp.total_ops + r.total_ops =
        omega arith in
      let (unnamed, sum, stats) =
        combine_all_lem (combine fl resp r) rs (rw h refl) (omega arith) in
      (
        unnamed,
        omega (arith, sum),
        stats
            ∙ append_assoc resp.server_stats _ _
            ∙ ap
                (λ t.
                  resp.server_stats
                  ++ (record {
                    allocs = (r.allocs_per_op * t) % 2 ^ 64;
                    memory = (r.mem_per_op * t) % 2 ^ 64;
                  }
                      ∷ memory_from t rs))
                ops,
      )

  -- The combined result has no name, whatever names the replies have. It has the average of the
  -- numbers of operations. The memory of a reply is that of one of its operations, times the sum of
  -- the operations of this reply and of those read before it, not times its own operations. The
  -- operations of all replies fit 64 bits.
  pub stop_server_benchmark_qf_lem :
      (r : Result fl) (rs : List (Result fl))
      → sum_ops (r ∷ rs) < 2 ^ 64
      → (end : Result fl) × (stop_server_benchmark_qf fl (r ∷ rs) ≡ inl end)
        × (end.name ≡ [])
        × (end.total_ops ≡ sum_ops (r ∷ rs) / length (r ∷ rs))
        × (end.server_stats ≡ memory_from 0 (r ∷ rs))
  unfolding stop_server_benchmark_qf
  stop_server_benchmark_qf_lem r rs small =
      let (unnamed, sum, stats) = combine_all_lem (zero_result fl) (r ∷ rs) refl (omega arith) in
      (_, refl, unnamed, ap (λ t. t / length (r ∷ rs)) (omega (arith, sum)), stats)
