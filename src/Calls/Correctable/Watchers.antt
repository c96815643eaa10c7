-- ===== src/Calls/Correctable/Watchers.antt =====
-- correctable.go: which of the channels that `Watch` returns are closed, and when.
use gorums_ata.Base.{
  ℕ, suc, ◌<◌, ◌≡◌, refl, inl, inr, Bool, true, false, ◌&&◌, ◌||◌, not, Option, none, some, List,
  [], ◌∷◌, ◌++◌, arith, ◌==◌, if◌then◌else◌, Option-cases, mem, ℤ, pos,
}
use gorums_ata.Calls.Responses.{NodeResponse}
use gorums_ata.Calls.Correctable.{
  Watcher, Call, Event, response, watches, exhausted, le_level, close_reached, close_all, watch,
  update, on_response, on_exhausted, step, run,
}

-- Whether a watcher that was not notified waits on the channel.
abbrev pub waits : ℕ → List (Option Watcher) → Bool
waits ch [] = false
waits ch (none ∷ ws) = waits ch ws
waits ch (some w ∷ ws) = w.ch == ch || waits ch ws

mem-close_all :
    (ch : ℕ) (ws : List (Option Watcher)) (closed : List ℕ)
    → mem ch (close_all ws closed) ≡ (waits ch ws || mem ch closed)
unfolding close_all
mem-close_all ch [] closed = refl
mem-close_all ch (none ∷ ws) closed = mem-close_all ch ws closed
mem-close_all ch (some w ∷ ws) closed = ground (arith, mem-close_all ch ws (w.ch ∷ closed))

close_reached-keeps :
    (ch : ℕ) (level : ℤ) (ws : List (Option Watcher)) (closed : List ℕ)
    → (mem ch (close_reached level ws closed).1 || waits ch (close_reached level ws closed).0)
      ≡ (mem ch closed || waits ch ws)
unfolding close_reached
close_reached-keeps ch level [] closed = refl
close_reached-keeps ch level (none ∷ ws) closed = close_reached-keeps ch level ws closed
close_reached-keeps ch level (some w ∷ ws) closed = ground (
  arith,
  close_reached-keeps ch level ws (if le_level w.level level then w.ch ∷ closed else closed),
)

waits-append :
    (ch : ℕ) (ws vs : List (Option Watcher)) → waits ch (ws ++ vs) ≡ (waits ch ws || waits ch vs)
waits-append ch [] vs = refl
waits-append ch (none ∷ ws) vs = waits-append ch ws vs
waits-append ch (some w ∷ ws) vs = ground (arith, waits-append ch ws vs)

module _ {R : Type 0} (threshold : ℕ) where
  -- The channel is closed, or a watcher of a call that goes on waits on it.
  abbrev pub IsServed : ℕ → Call R → Type 0
  IsServed ch k = (mem ch k.state.closed || (k.running && waits ch k.state.watchers)) ≡ true

  watch-IsServed :
      (ch : ℕ) (k k' : Call R) (level : ℤ)
      → step threshold k (watches level) ≡ some k'
      → IsServed ch k
      → IsServed ch k'
  unfolding step watch
  watch-IsServed ch k k' level e h = ground (
    arith,
    waits-append ch k.state.watchers (some (record { level = level; ch = k.state.next_ch }) ∷ []),
  )

  response-IsServed :
      (ch : ℕ) (k k' : Call R) (r : NodeResponse R)
      → k.state.done ≡ not k.running
      → step threshold k (response r) ≡ some k'
      → IsServed ch k
      → IsServed ch k'
  unfolding step on_response update
  response-IsServed ch k k' r d e h = ground (
    arith,
    mem-close_all ch k.state.watchers (k.state.donech ∷ k.state.closed),
    close_reached-keeps ch (pos (suc k.count)) k.state.watchers k.state.closed,
  )

  exhausted-IsServed :
      (ch : ℕ) (k k' : Call R)
      → step threshold k exhausted ≡ some k'
      → IsServed ch k
      → IsServed ch k'
  unfolding step on_exhausted update
  exhausted-IsServed ch k k' e h =
      ground (arith, mem-close_all ch k.state.watchers (k.state.donech ∷ k.state.closed))

  -- The goroutine has returned exactly if the call is completed.
  abbrev pub IsLive : Call R → Type 0
  IsLive k = k.state.done ≡ not k.running

  step-IsLive : (k k' : Call R) (e : Event R) → step threshold k e ≡ some k' → IsLive k → IsLive k'
  unfolding step on_response on_exhausted update watch
  step-IsLive k k' (response r) e h = ground arith
  step-IsLive k k' (watches level) e h = ground arith
  step-IsLive k k' exhausted e h = ground arith

  step-IsServed :
      (ch : ℕ) (k k' : Call R) (e : Event R)
      → IsLive k
      → step threshold k e ≡ some k'
      → IsServed ch k
      → IsServed ch k'
  step-IsServed ch k k' (response r) l e h = response-IsServed ch k k' r l e h
  step-IsServed ch k k' (watches level) l e h = watch-IsServed ch k k' level e h
  step-IsServed ch k k' exhausted l e h = exhausted-IsServed ch k k' e h

  run-IsServed :
      (ch : ℕ) (k k' : Call R) (es : List (Event R))
      → IsLive k
      → run threshold k es ≡ some k'
      → IsServed ch k
      → IsServed ch k'
  unfolding run
  run-IsServed ch k k' [] l e h = ground arith
  run-IsServed ch k k' (x ∷ es) l e h = elim (Option-cases (step threshold k x)) [
    | inl panics ↦ ground arith
    | inr (m, stepped) ↦
        run-IsServed ch m k' es (step-IsLive k m x stepped l) (ground arith)
          (step-IsServed ch k m x l stepped h)
  ]

  watch-serves :
      (k : Call R) (level : ℤ)
      → k.running ≡ true
      → IsServed (watch k.state level).1 (record k { state = (watch k.state level).0 })
  unfolding watch
  watch-serves k level on = ground (
    arith,
    waits-append k.state.next_ch k.state.watchers
        (some (record { level = level; ch = k.state.next_ch }) ∷ []),
  )

  -- The channel that `Watch` returns, for any level, while the call goes on is closed once the
  -- call is completed, whatever happens in between.
  pub watch-closed :
      (k k' : Call R) (level : ℤ) (es : List (Event R))
      → IsLive k
      → k.running ≡ true
      → run threshold (record k { state = (watch k.state level).0 }) es ≡ some k'
      → k'.running ≡ false
      → mem (watch k.state level).1 k'.state.closed ≡ true
  unfolding step
  watch-closed k k' level es l on e off =
      let k₀ : Call R = record k { state = (watch k.state level).0 } in
      ground (
        arith,
        run-IsServed (watch k.state level).1 k₀ k' es (step-IsLive k k₀ (watches level) refl l) e
            (watch-serves k level on),
      )

  step-late :
      (ch : ℕ) (k k' : Call R) (e : Event R)
      → step threshold k e ≡ some k'
      → k.running ≡ false
      → ch < k.state.next_ch
      → mem ch k.state.closed ≡ false
      → (k'.running ≡ false) × (ch < k'.state.next_ch) × (mem ch k'.state.closed ≡ false)
  unfolding step watch
  step-late ch k k' (response r) e off lt h = ground arith
  step-late ch k k' (watches level) e off lt h = ground arith
  step-late ch k k' exhausted e off lt h = ground arith

  run-late :
      (ch : ℕ) (k k' : Call R) (es : List (Event R))
      → run threshold k es ≡ some k'
      → k.running ≡ false
      → ch < k.state.next_ch
      → mem ch k.state.closed ≡ false
      → mem ch k'.state.closed ≡ false
  unfolding run
  run-late ch k k' [] e off lt h = ground arith
  run-late ch k k' (x ∷ es) e off lt h = elim (Option-cases (step threshold k x)) [
    | inl panics ↦ ground arith
    | inr (m, stepped) ↦
        let (off', lt', h') = step-late ch k m x stepped off lt h in
        run-late ch m k' es (ground arith) off' lt' h'
  ]

  -- `Watch` for a level above that of a completed call returns a channel that is never closed, by
  -- whatever happens later: a caller that receives from it blocks for ever.
  pub watch_completed-never_closed :
      (k k' : Call R) (level : ℤ) (es : List (Event R))
      → k.running ≡ false
      → le_level level k.state.level ≡ false
      → mem k.state.next_ch k.state.closed ≡ false
      → run threshold (record k { state = (watch k.state level).0 }) es ≡ some k'
      → mem (watch k.state level).1 k'.state.closed ≡ false
  unfolding watch
  watch_completed-never_closed k k' level es off above fresh e =
      ground
        (arith, run-late k.state.next_ch (record k { state = (watch k.state level).0 }) k' es e off)
