-- ===== src/Benchmark.antt =====
-- benchmark/stats.go, server.go, qspec.go, benchmark.go: what a benchmark records, and how results are
-- combined. A `time.Time` is a number of nanoseconds since the zero time; int64 is a signed number.
pub mod Measured
pub mod Combined
pub mod Sorted
use gorums_ata.Base.{
  ℕ, ◌+◌, ◌-◌, ◌*◌, ◌/◌, ◌%◌, ◌^◌, Ordering, ◌⊎◌, inl, inr, Bool, true, false, not, List, [], ◌∷◌,
  ◌++◌, map, ltb, ◌==◌, if◌then◌else◌, length, insert_by, Text, compare_text, ℤ, pos, negsuc,
}
use gorums_ata.Errors.{Err, atom, incomplete}
use gorums_ata.Stream.Types.{Run, ok, panics}

-- Go's float64, as the code uses it.
pub record Floats : Type 1 where
  pub Float : Type 0
  pub of_nat : ℕ → Float
  pub of_int : ℤ → Float
  pub add : Float → Float → Float
  pub sub : Float → Float → Float
  pub mul : Float → Float → Float
  pub div : Float → Float → Float

-- `runtime.MemStats`, the fields that are read.
pub record MemStats : Type 0 where
  pub mallocs : ℕ  -- uint64
  pub total_alloc : ℕ  -- uint64

pub record MemoryStat : Type 0 where
  pub allocs : ℕ  -- uint64
  pub memory : ℕ  -- uint64

-- `a - b` of two uint64.
abbrev pub minus64 : ℕ → ℕ → ℕ
minus64 a b = (a + 2 ^ 64 - b) % 2 ^ 64

-- The 64 bits of an int64, and the int64 that has them.
abbrev pub bits64 : ℤ → ℕ
bits64 (pos n) = n % 2 ^ 64
bits64 (negsuc n) = 2 ^ 64 - 1 - n % 2 ^ 64

abbrev pub int64 : ℕ → ℤ
int64 n = if ltb n (2 ^ 63) then pos n else negsuc (2 ^ 64 - 1 - n)

-- `a + b` and `a - b` of two int64, which wrap around.
abbrev pub plus_int64 : ℤ → ℤ → ℤ
plus_int64 a b = int64 ((bits64 a + bits64 b) % 2 ^ 64)

abbrev pub minus_int64 : ℤ → ℤ → ℤ
minus_int64 a b = int64 (minus64 (bits64 a) (bits64 b))

-- `a / n` of an int64 and a positive one, rounded towards 0.
abbrev pub div_int64 : ℤ → ℕ → ℤ
div_int64 (pos a) n = pos (a / n)
div_int64 (negsuc a) n = let q = (a + 1) / n in if q == 0 then pos 0 else negsuc (q - 1)

abbrev at_most : ℕ → ℕ → ℕ
at_most top n = if ltb top n then top else n

-- `Time.Sub`: a duration is an int64, at most the largest and at least the smallest one.
abbrev pub duration : ℕ → ℕ → ℤ
duration t u =
    if ltb t u
    then negsuc (at_most (2 ^ 63 - 1) (u - t - 1))
    else pos (at_most (2 ^ 63 - 1) (t - u))

module _ (fl : Floats) where
  open fl use {Float, of_nat, of_int, add, sub, mul, div}

  -- `Stats`
  pub record Stats : Type 0 where
    pub start_time : ℕ
    pub end_time : ℕ
    pub start_ms : MemStats
    pub end_ms : MemStats
    pub count : ℕ  -- uint64
    pub mean : Float
    pub m2 : Float

  -- `Result`
  pub record Result : Type 0 where
    pub name : Text
    pub total_ops : ℕ  -- uint64
    pub total_time : ℤ  -- int64
    pub throughput : Float
    pub latency_avg : Float
    pub latency_var : Float
    pub allocs_per_op : ℕ  -- uint64
    pub mem_per_op : ℕ  -- uint64
    pub server_stats : List MemoryStat

  -- `Start`, at a time and with the memory that is read.
  unfoldable pub start : ℕ → MemStats → Stats → Stats
  start now ms s = record s { start_time = now; start_ms = ms }

  -- `End`
  unfoldable pub end : ℕ → MemStats → Stats → Stats
  end now ms s = record s { end_time = now; end_ms = ms }

  -- `AddLatency`
  unfoldable pub add_latency : ℤ → Stats → Stats
  add_latency l s =
      let count = (s.count + 1) % 2 ^ 64 in
      let delta = sub (of_int l) s.mean in
      let mean = add s.mean (div delta (of_nat count)) in
      let delta2 = sub (of_int l) mean in
      record s { count = count; mean = mean; m2 = add s.m2 (mul delta delta2) }

  abbrev pub no_memory : MemStats
  no_memory = record { mallocs = 0; total_alloc = 0 }

  -- `Clear`
  unfoldable pub clear : Stats → Stats
  clear s = record s {
    start_time = 0;
    end_time = 0;
    start_ms = no_memory;
    end_ms = no_memory;
    count = 0;
    mean = of_nat 0;
    m2 = of_nat 0;
  }

  -- What `GetResult` sets; `seconds` is `Duration.Seconds`.
  unfoldable pub result_of : (ℤ → Float) → Stats → Result
  result_of seconds s =
      let total_time = duration s.end_time s.start_time in
      record {
        name = [];
        total_ops = s.count;
        total_time = total_time;
        throughput = div (of_nat s.count) (seconds total_time);
        latency_avg = s.mean;
        latency_var = if ltb 2 s.count then div s.m2 (of_nat (s.count - 1)) else of_nat 0;
        allocs_per_op = minus64 s.end_ms.mallocs s.start_ms.mallocs / s.count;
        mem_per_op = minus64 s.end_ms.total_alloc s.start_ms.total_alloc / s.count;
        server_stats = [];
      }

  -- `GetResult`: dividing integers by 0 panics.
  unfoldable pub get_result : (ℤ → Float) → Stats → Run Result
  unfolding result_of
  get_result seconds s = if s.count == 0 then panics else ok (result_of seconds s)

  -- `StartServerBenchmark` and `StartBenchmark`
  unfoldable pub start_benchmark : ℕ → MemStats → Stats → Stats
  unfolding clear start
  start_benchmark now ms s = start now ms (clear s)

  -- `StopServerBenchmark`
  unfoldable pub stop_server_benchmark : (ℤ → Float) → ℕ → MemStats → Stats → Stats × Run Result
  unfolding end get_result
  stop_server_benchmark seconds now ms s = let s1 = end now ms s in (s1, get_result seconds s1)

  -- `StopBenchmark`
  unfoldable pub stop_benchmark : ℕ → MemStats → Stats → Stats × MemoryStat
  unfolding end
  stop_benchmark now ms s =
      let s1 = end now ms s in
      (
        s1,
        record {
          allocs = minus64 s1.end_ms.mallocs s1.start_ms.mallocs;
          memory = minus64 s1.end_ms.total_alloc s1.start_ms.total_alloc;
        },
      )

  -- `Multicast`, of a message with a send time; `now` is `UnixNano` of the time.
  unfoldable pub multicast : ℤ → ℤ → Stats → Stats
  unfolding add_latency
  multicast now send_time s = add_latency (minus_int64 now send_time) s

  abbrev pub zero_result : Result
  zero_result = record {
    name = [];
    total_ops = 0;
    total_time = pos 0;
    throughput = of_nat 0;
    latency_avg = of_nat 0;
    latency_var = of_nat 0;
    allocs_per_op = 0;
    mem_per_op = 0;
    server_stats = [];
  }

  abbrev is_named : Text → Bool
  is_named [] = false
  is_named (c ∷ s) = true

  -- The body of the first loop of `StopServerBenchmarkQF`.
  unfoldable pub combine : Result → Result → Result
  combine resp reply =
      let ops = (resp.total_ops + reply.total_ops) % 2 ^ 64 in
      record resp {
        name = if is_named resp.name then reply.name else resp.name;
        total_ops = ops;
        total_time = plus_int64 resp.total_time reply.total_time;
        throughput = add resp.throughput reply.throughput;
        latency_avg = add resp.latency_avg (mul reply.latency_avg (of_nat reply.total_ops));
        server_stats =
            resp.server_stats
            ++ record {
              allocs = (reply.allocs_per_op * ops) % 2 ^ 64;
              memory = (reply.mem_per_op * ops) % 2 ^ 64;
            }
              ∷ [];
      }

  unfoldable pub combine_all : Result → List Result → Result
  unfolding combine
  combine_all resp [] = resp
  combine_all resp (r ∷ rs) = combine_all (combine resp r) rs

  -- The second loop.
  unfoldable pub pool : Float → List Result → Float
  pool v [] = v
  pool v (r ∷ rs) = pool (add v (mul (of_nat (minus64 r.total_ops 1)) r.latency_var)) rs

  -- `StopServerBenchmarkQF`; the replies are in the order in which the map is read.
  unfoldable pub stop_server_benchmark_qf : List Result → Result ⊎ Err
  unfolding combine_all pool
  stop_server_benchmark_qf [] = inr (atom incomplete)
  stop_server_benchmark_qf (r ∷ rs) =
      let n = length (r ∷ rs) in
      let resp = combine_all zero_result (r ∷ rs) in
      inl (record resp {
        latency_avg = div resp.latency_avg (of_nat resp.total_ops);
        latency_var = div (pool resp.latency_var (r ∷ rs)) (sub (of_nat resp.total_ops) (of_nat n));
        total_ops = resp.total_ops / n;
        total_time = div_int64 resp.total_time n;
        throughput = div resp.throughput (of_nat n);
      })

  abbrev pub by_name : Result → Result → Ordering
  by_name a b = compare_text a.name b.name

  -- The insertion at the index that `sort.Search` finds in results that are sorted.
  unfoldable pub insert_result : Result → List Result → List Result
  unfolding insert_by
  insert_result r results = insert_by by_name r results

  -- The loop of `RunBenchmarks`: of each benchmark its name, whether it matches, and what it returns.
  unfoldable pub run_benchmarks :
      List (Text × Bool × (Result ⊎ Err)) → List Result → List Result ⊎ Err
  unfolding insert_result
  run_benchmarks [] results = inl results
  run_benchmarks ((name, matches, outcome) ∷ bs) results =
      let rest = run_benchmarks bs (elim outcome [
        | inr e ↦ results
        | inl r ↦ if matches then insert_result (record r { name = name }) results else results
      ]) in
      if not matches then rest else elim outcome [ inr e ↦ inr e | inl r ↦ rest ]
