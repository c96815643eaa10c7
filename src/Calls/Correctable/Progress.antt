-- ===== src/Calls/Correctable/Progress.antt =====
-- correctable.go: the goroutine of a correctable call never calls `update` on a completed call, and
-- what the call's state says in between.
use gorums_ata.Base.{
  ℕ, zero, suc, ◌<◌, ◌≡◌, refl, ◌⊎◌, inl, inr, true, false, ◌&&◌, not, Option, none, some, List, [],
  ◌∷◌, ◌++◌, arith, leb, Bool-cases, Option-cases, is_none, ℤ, pos,
}
use gorums_ata.Errors.{quorum_call, atom, incomplete}
use gorums_ata.Calls.Responses.{NodeResponse, push_failure}
use gorums_ata.Calls.Correctable.{
  Watcher, Call, Event, response, watches, exhausted, level_not_set, le_level, close_reached,
  close_all, new, watch, update, start, on_response, on_exhausted, step, run,
}

-- The level that stands for `count` successful responses in a call that goes on.
abbrev pub level_of : ℕ → ℤ
level_of zero = level_not_set
level_of (suc n) = pos (suc n)

-- No watcher that waits could be notified at this level.
abbrev pub Waiting : ℤ → List (Option Watcher) → Type 0
Waiting level [] = Unit
Waiting level (none ∷ ws) = Waiting level ws
Waiting level (some w ∷ ws) = (le_level w.level level ≡ false) × Waiting level ws

Waiting-push :
    (level : ℤ) (ws : List (Option Watcher)) (w : Watcher)
    → Waiting level ws
    → le_level w.level level ≡ false
    → Waiting level (ws ++ some w ∷ [])
Waiting-push level [] w h k = (k, tt)
Waiting-push level (none ∷ ws) w h k = Waiting-push level ws w h k
Waiting-push level (some v ∷ ws) w h k = (h.0, Waiting-push level ws w h.1 k)

close_reached-Waiting :
    (level : ℤ) (ws : List (Option Watcher)) (closed : List ℕ)
    → Waiting level (close_reached level ws closed).0
unfolding close_reached
close_reached-Waiting level [] closed = tt
close_reached-Waiting level (none ∷ ws) closed = close_reached-Waiting level ws closed
close_reached-Waiting level (some w ∷ ws) closed = elim (Bool-cases (le_level w.level level)) [
  | inl hit ↦ rw hit (close_reached-Waiting level ws (w.ch ∷ closed))
  | inr miss ↦ rw miss (miss, close_reached-Waiting level ws closed)
]

module _ {R : Type 0} (threshold : ℕ) where
  -- Between two events: the call is completed exactly when the goroutine has returned; until then
  -- its level counts the successful responses, which are fewer than the threshold, and no waiting
  -- watcher is due; a completed call without an error has reached the threshold.
  pub record IsSound (k : Call R) : Type 0 where
    pub live : k.state.done ≡ not k.running
    pub level : k.running ≡ true → k.state.level ≡ level_of k.count
    pub below : k.running ≡ true → (k.count ≡ 0) ⊎ (k.count < threshold)
    pub waiting : k.running ≡ true → Waiting k.state.level k.state.watchers
    pub final : k.running ≡ false → k.state.level ≡ pos k.count
    pub verdict : k.running ≡ false → is_none k.state.err ≡ leb 1 k.count && leb threshold k.count

  start-IsSound : (v : R) → IsSound (start v)
  unfolding start new
  start-IsSound v = ground arith

  watch-IsSound :
      (k : Call R) (level : ℤ)
      → IsSound k
      → (k' : Call R) × (step threshold k (watches level) ≡ some k') × IsSound k'
  unfolding step watch
  watch-IsSound k level s = (
    record k { state = (watch k.state level).0 },
    refl,
    elim (Bool-cases (le_level level k.state.level)) [
      | inl due ↦ rw due (ground (arith, s))
      | inr later ↦ rw later (record {
        live = s.live;
        level = s.level;
        below = s.below;
        final = s.final;
        verdict = s.verdict;
        waiting = λ r. Waiting-push _ k.state.watchers _ (s.waiting r) later;
      })
    ],
  )

  response-IsSound :
      (k : Call R) (r : NodeResponse R)
      → IsSound k
      → (k' : Call R) × (step threshold k (response r) ≡ some k') × IsSound k'
  unfolding step on_response update
  response-IsSound k r s = elim (Bool-cases k.running) [
    | inr off ↦ (k, ground arith, s)
    | inl on ↦ elim (Option-cases r.err) [
      | inr (e, p) ↦
          (record k { errs = push_failure k.errs r.err r.node_id }, ground arith, ground arith)
      | inl p ↦ elim (Bool-cases (leb threshold (suc k.count))) [
        | inl reached ↦ (
          record k {
            state = record k.state {
              reply = r.value;
              level = pos (suc k.count);
              err = none;
              done = true;
              closed = close_all k.state.watchers (k.state.donech ∷ k.state.closed);
            };
            last_resp = r.value;
            count = suc k.count;
            running = false;
          },
          ground arith,
          ground arith,
        )
        | inr more ↦
            let moved = close_reached (pos (suc k.count)) k.state.watchers k.state.closed in
            (
              record k {
                state = record k.state {
                  reply = r.value;
                  level = pos (suc k.count);
                  err = none;
                  done = false;
                  watchers = moved.0;
                  closed = moved.1;
                };
                last_resp = r.value;
                count = suc k.count;
                running = true;
              },
              ground arith,
              ground (
                arith,
                close_reached-Waiting (pos (suc k.count)) k.state.watchers k.state.closed,
              ),
            )
      ]
    ]
  ]

  exhausted-IsSound :
      (k : Call R) → IsSound k → (k' : Call R) × (step threshold k exhausted ≡ some k') × IsSound k'
  unfolding step on_exhausted update
  exhausted-IsSound k s = elim (Bool-cases k.running) [
    | inl on ↦ (
      record k {
        state = record k.state {
          reply = k.last_resp;
          level = pos k.count;
          err = some (quorum_call (atom incomplete) k.errs);
          done = true;
          closed = close_all k.state.watchers (k.state.donech ∷ k.state.closed);
        };
        running = false;
      },
      ground arith,
      ground arith,
    )
    | inr off ↦ (k, ground arith, s)
  ]

  step-IsSound :
      (k : Call R) (e : Event R)
      → IsSound k
      → (k' : Call R) × (step threshold k e ≡ some k') × IsSound k'
  step-IsSound k (response r) s = response-IsSound k r s
  step-IsSound k (watches level) s = watch-IsSound k level s
  step-IsSound k exhausted s = exhausted-IsSound k s

  run-IsSound :
      (k : Call R) (es : List (Event R))
      → IsSound k
      → (k' : Call R) × (run threshold k es ≡ some k') × IsSound k'
  unfolding run
  run-IsSound k [] s = (k, refl, s)
  run-IsSound k (e ∷ es) s =
      let (k', stepped, s') = step-IsSound k e s in rw (stepped, run) (run-IsSound k' es s')

  -- No order of responses, calls of `Watch` and the end of the responses makes `update` panic, and
  -- after any of them the state of the call is sound.
  pub run-start-IsSound :
      (v : R) (es : List (Event R))
      → (k : Call R) × (run threshold (start v) es ≡ some k) × IsSound k
  run-start-IsSound v es = run-IsSound (start v) es (start-IsSound v)
