-- ===== src/Benchmark/Measured.antt =====
-- benchmark/stats.go, server.go: what a server reports of one benchmark.
use gorums_ata.Base.{
  ℕ, ◌+◌, ◌/◌, ◌^◌, ◌<◌, ◌≡◌, refl, ap, ◌∙◌, false, List, [], ◌∷◌, arith, ◌==◌, length, mem, ℤ,
}
use gorums_ata.Stream.Types.{Run, ok, panics}
use gorums_ata.Benchmark.{
  Floats, MemStats, Stats, Result, minus64, duration, start, end, clear, add_latency, get_result,
  start_benchmark, stop_server_benchmark, result_of,
}

module _ (fl : Floats) where
  open fl use {Float}

  unfoldable pub add_all : List ℤ → Stats fl → Stats fl
  add_all [] s = s
  add_all (l ∷ ls) s = add_all ls (add_latency fl l s)

  -- What was measured: a panic if there was no message, or else the result.
  abbrev pub Measures : ℕ → ℕ → MemStats → MemStats → List ℤ → Run (Result fl) → Type 0
  Measures now later ms ms' [] r = r ≡ panics
  Measures now later ms ms' (l ∷ ls) r =
      (res : Result fl) × (r ≡ ok res)
      × (res.total_ops ≡ length (l ∷ ls))
      × (res.total_time ≡ duration later now)
      × (res.allocs_per_op ≡ minus64 ms'.mallocs ms.mallocs / length (l ∷ ls))
      × (res.mem_per_op ≡ minus64 ms'.total_alloc ms.total_alloc / length (l ∷ ls))

  -- The fields that a latency leaves alone, and the count.
  add_all_keeps :
      (ls : List ℤ) (s : Stats fl)
      → s.count + length ls < 2 ^ 64
      → let t = add_all ls s in
        (t.count ≡ s.count + length ls) × (t.start_time ≡ s.start_time) × (t.start_ms ≡ s.start_ms)
  unfolding add_all add_latency
  add_all_keeps [] s h = (omega arith, refl, refl)
  add_all_keeps (l ∷ ls) s h =
      let (counted, time, memory) = add_all_keeps ls (add_latency fl l s) (omega arith) in
      (omega arith, time, memory)

  get_result_lem :
      (seconds : ℤ → Float) (s : Stats fl)
      → (s.count == 0) ≡ false
      → (res : Result fl) × (get_result fl seconds s ≡ ok res)
        × (res.total_ops ≡ s.count)
        × (res.total_time ≡ duration s.end_time s.start_time)
        × (res.allocs_per_op ≡ minus64 s.end_ms.mallocs s.start_ms.mallocs / s.count)
        × (res.mem_per_op ≡ minus64 s.end_ms.total_alloc s.start_ms.total_alloc / s.count)
  unfolding get_result
  get_result_lem seconds s some_ = (result_of fl seconds s, rw some_ refl, refl, refl, refl, refl)

  -- A server that is asked to stop a benchmark panics if no message has come since the benchmark was
  -- started, since it divides by their number. Otherwise its result has the number of the messages,
  -- the time between the two requests (by `Time.Sub`), and the memory allocated between them for each message,
  -- whatever the server has recorded before.
  pub stop_server_benchmark-Measures :
      (seconds : ℤ → Float) (s : Stats fl) (now later : ℕ) (ms ms' : MemStats) (ls : List ℤ)
      → length ls < 2 ^ 64
      → Measures now later ms ms' ls
          (stop_server_benchmark fl seconds later ms' (add_all ls (start_benchmark fl now ms s))).1
  unfolding stop_server_benchmark start_benchmark start clear end
  stop_server_benchmark-Measures seconds s now later ms ms' [] small =
      unfold add_all get_result in refl
  stop_server_benchmark-Measures seconds s now later ms ms' (l ∷ ls) small =
      let s1 = start_benchmark fl now ms s in
      let t = add_all (l ∷ ls) s1 in
      let (counted, time, memory) = add_all_keeps (l ∷ ls) s1 (omega arith) in
      let n : t.count ≡ length (l ∷ ls) = omega (arith, counted) in
      let (res, is, ops, total, allocs, mem) =
        get_result_lem seconds (end fl later ms' t) (rw n (ground arith)) in
      (
        res,
        is,
        ops ∙ n,
        total ∙ ap (λ b. duration later b) time,
        allocs
            ∙ ap (λ (x : ℕ × MemStats). minus64 ms'.mallocs x.1.mallocs / x.0)
                (λ i. (n i, memory i)),
        mem
            ∙ ap (λ (x : ℕ × MemStats). minus64 ms'.total_alloc x.1.total_alloc / x.0)
                (λ i. (n i, memory i)),
      )
