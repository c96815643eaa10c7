-- ===== src/Config/Watch.antt =====
-- config.go: the goroutine of `Watch`, against a consumer of its channel.
use gorums_ata.Base.{
  ℕ, zero, suc, ◌≡◌, refl, ap, ◌∙◌, Bool, true, false, ◌||◌, Option, none, some, List, [], ◌∷◌,
  arith, if◌then◌else◌, is_none,
}
use gorums_ata.Config.{Configuration, equal}
use gorums_ata.Config.Excluded.{equal_iff}

-- The goroutine's `current`, the channel `ch` with its buffer of 1, whether it is closed, and what
-- the consumer has received, the latest first.
pub record Watcher : Type 0 where
  pub current : Configuration
  pub ch : Option Configuration
  pub closed : Bool
  pub seen : List Configuration

-- A tick at which `derive(c)` is `fresh`, a receive by the consumer, or the end of the context.
pub data Event : Type 0 where
  tick : Configuration → Event
  receive stop : Event

-- The start of the goroutine, with the first result of `derive(c)`.
unfoldable pub start : Configuration → Watcher
start first = record { current = first; ch = some first; closed = false; seen = [] }

unfoldable pub step : Watcher → Event → Watcher
step s (tick fresh) =
    if s.closed || equal fresh s.current
    then s
    else record s { current = fresh; ch = if is_none s.ch then some fresh else s.ch }
step s receive = elim s.ch [ none ↦ s | some c ↦ record s { ch = none; seen = c ∷ s.seen } ]
step s stop = record s { closed = true }

unfoldable pub run : Watcher → List Event → Watcher
unfolding step
run s [] = s
run s (e ∷ es) = run (step s e) es

-- `n` ticks that derive the same configuration.
abbrev pub ticks_of : Configuration → ℕ → List Event
ticks_of c zero = []
ticks_of c (suc n) = tick c ∷ ticks_of c n

equal_refl : (c : Configuration) → equal c c ≡ true
equal_refl c = (equal_iff c c).1 refl

step-same : (s : Watcher) → step s (tick s.current) ≡ s
unfolding step
step-same s = ground (arith, equal_refl s.current)

run-same : (s : Watcher) (n : ℕ) → run s (ticks_of s.current n) ≡ s
unfolding run
run-same s zero = refl
run-same s (suc n) = ap (λ t. run t (ticks_of s.current n)) (step-same s) ∙ run-same s n

step-skipped :
    (s : Watcher) (old fresh : Configuration)
    → s.closed ≡ false
    → s.ch ≡ some old
    → equal fresh s.current ≡ false
    → step (step s (tick fresh)) receive
      ≡ record s { current = fresh; ch = none; seen = old ∷ s.seen }
unfolding step
step-skipped s old fresh open_ full changed = ground arith

-- If a tick finds a changed configuration while the channel is still full, and the consumer then
-- receives, it gets the old configuration, and no later tick that derives the changed one again
-- emits it: the channel stays empty.
pub skipped_update_lost :
    (s : Watcher) (old fresh : Configuration) (n : ℕ)
    → s.closed ≡ false
    → s.ch ≡ some old
    → equal fresh s.current ≡ false
    → let s' = run s (tick fresh ∷ receive ∷ ticks_of fresh n) in
      (s'.ch ≡ none) × (s'.seen ≡ old ∷ s.seen) × (s'.current ≡ fresh)
unfolding run
skipped_update_lost s old fresh n open_ full changed =
    let s₂ : Watcher = record s { current = fresh; ch = none; seen = old ∷ s.seen } in
    let e : run s (tick fresh ∷ receive ∷ ticks_of fresh n) ≡ s₂ =
      ap (λ t. run t (ticks_of fresh n)) (step-skipped s old fresh open_ full changed)
      ∙ run-same s₂ n in
    (ap (λ t. t.ch) e, ap (λ t. t.seen) e, ap (λ t. t.current) e)
