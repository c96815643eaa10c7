-- ===== src/Tests/Benchmarks.antt =====
-- benchmark: the theorems at concrete inputs.
use gorums_ata.Base.{ℕ, ◌+◌, ◌-◌, ◌*◌, ◌/◌, ◌≡◌, inl, [], ◌∷◌, arith, length, codes, ℤ, pos, negsuc}
use gorums_ata.Benchmark.{
  Floats, MemStats, Stats, Result, start_benchmark, stop_server_benchmark, stop_server_benchmark_qf,
  no_memory,
}
use gorums_ata.Benchmark.Measured.{add_all, Measures, stop_server_benchmark-Measures}
use gorums_ata.Benchmark.Combined.{sum_ops, memory_from, stop_server_benchmark_qf_lem}

abbrev whole_part : ℤ → ℕ
whole_part (pos n) = n
whole_part (negsuc n) = 0

-- Whole numbers in place of floats.
abbrev whole : Floats
whole = record {
  Float = ℕ;
  of_nat = λ n. n;
  of_int = whole_part;
  add = λ a b. a + b;
  sub = λ a b. a - b;
  mul = λ a b. a * b;
  div = λ a b. a / b;
}

abbrev idle : Stats whole
idle = record {
  start_time = 0;
  end_time = 0;
  start_ms = no_memory whole;
  end_ms = no_memory whole;
  count = 7;
  mean = 4;
  m2 = 2;
}

abbrev used : MemStats
used = record { mallocs = 90; total_alloc = 4096 }

stop_server_benchmark-Measures_example :
    Measures whole 10 60
      (no_memory whole)
      used
      (pos 5 ∷ pos 8 ∷ [])
      (stop_server_benchmark whole whole_part 60 used
        (add_all whole (pos 5 ∷ pos 8 ∷ []) (start_benchmark whole 10 (no_memory whole) idle))).1
stop_server_benchmark-Measures_example =
    stop_server_benchmark-Measures whole whole_part idle 10 60 (no_memory whole) used
      (pos 5 ∷ pos 8 ∷ []) (omega arith)

abbrev reply : ℕ → Result whole
reply ops = record {
  name = codes "Multicast";
  total_ops = ops;
  total_time = pos 100;
  throughput = 3;
  latency_avg = 20;
  latency_var = 4;
  allocs_per_op = 6;
  mem_per_op = 64;
  server_stats = [];
}

stop_server_benchmark_qf_lem_example :
    (end : Result whole) × (stop_server_benchmark_qf whole (reply 10 ∷ reply 30 ∷ []) ≡ inl end)
    × (end.name ≡ [])
    × (end.total_ops ≡ sum_ops whole (reply 10 ∷ reply 30 ∷ []) / length (reply 10 ∷ reply 30 ∷ []))
    × (end.server_stats ≡ memory_from whole 0 (reply 10 ∷ reply 30 ∷ []))
stop_server_benchmark_qf_lem_example =
    stop_server_benchmark_qf_lem whole (reply 10) (reply 30 ∷ []) (omega arith)
