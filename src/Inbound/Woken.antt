-- ===== src/Inbound/Woken.antt =====
-- inbound_manager.go: no change of a configuration is missed by `waitForConfig`.
use gorums_ata.Base.{
  ℕ, ◌+◌, ◌≤◌, ◌<◌, ◌≡◌, ◌≢◌, ◌⊎◌, inl, inr, true, false, Option, none, some, arith, ◌==◌,
  Bool-cases, Option-cases, is_some, if◌then◌else◌,
}
use gorums_ata.Errors.{Err, atom, stopped}
use gorums_ata.Inbound.{Inbound, close}
use gorums_ata.Inbound.Waiting.{
  Waiter, checks, waits, returned, Condition, is_met, Turn, met, unmet, cancelled, stops, changed,
  Turns, done, turn, Wait, Step, waiter, event, closed, cancel, Reach, here, next, turn_count,
}
use gorums_ata.Inbound.Later.{IsLater, step-IsLater}

module _ (cond : Condition) where
  -- A waiter whose channel is still `configCh` waits for a condition that does not hold.
  abbrev IsCurrent : Inbound → Waiter → Type 0
  IsCurrent im checks = Unit {0}
  IsCurrent im (returned r) = Unit {0}
  IsCurrent im (waits k) = (k ≤ im.epoch) × (im.epoch ≡ k → is_met cond im ≡ false)

  IsCurrent-later :
      (im im' : Inbound) (a : Waiter) → IsLater im im' → IsCurrent im a → IsCurrent im' a
  IsCurrent-later im im' checks l h = tt
  IsCurrent-later im im' (returned r) l h = tt
  IsCurrent-later im im' (waits k) (inl e) h = rw e h
  IsCurrent-later im im' (waits k) (inr up) h = (omega arith, λ e. absurd (omega arith))

  Turn-IsCurrent :
      {a b : Waiter} (im : Inbound) (ctx : Option Err) → Turn cond im ctx a b → IsCurrent im b
  Turn-IsCurrent im ctx (met h) = tt
  Turn-IsCurrent im ctx (unmet h) = (omega arith, λ e. h)
  Turn-IsCurrent im ctx (cancelled e h) = tt
  Turn-IsCurrent im ctx (stops h) = tt
  Turn-IsCurrent im ctx (changed h) = tt

  IsCurrent-close : (im : Inbound) (a : Waiter) → IsCurrent im a → IsCurrent (close im) a
  unfolding close
  IsCurrent-close im checks h = tt
  IsCurrent-close im (returned r) h = tt
  IsCurrent-close im (waits k) h = h

  Step-IsCurrent :
      {s t : Wait} → Step cond s t → IsCurrent s.manager s.at → IsCurrent t.manager t.at
  Step-IsCurrent {s} (waiter h) c = Turn-IsCurrent s.manager s.ctx h
  Step-IsCurrent {s} {t} (event e ran) c =
      IsCurrent-later s.manager t.manager s.at
        (step-IsLater s.world t.world s.manager t.manager e _ ran) c
  Step-IsCurrent {s} closed c = IsCurrent-close s.manager s.at c
  Step-IsCurrent (cancel e) c = c

  Reach-IsCurrent : {s t : Wait} → s.at ≡ checks → Reach cond s t → IsCurrent t.manager t.at
  Reach-IsCurrent first here = rw first tt
  Reach-IsCurrent first (next r st) = Step-IsCurrent st (Reach-IsCurrent first r)

  -- What ends a wait: the condition holds, the manager is closed, or the context is done.
  abbrev IsReady : Inbound → Option Err → Type 0
  IsReady im ctx = (is_met cond im ≡ true) ⊎ ((im.stopped ≡ true) ⊎ (is_some ctx ≡ true))

  select_ends :
      (im : Inbound) (ctx : Option Err) (k : ℕ)
      → (im.stopped ≡ true) ⊎ (is_some ctx ≡ true)
      → (r : Option Err) × Turns cond im ctx (waits k) (returned r)
  select_ends im ctx k (inl stop) = (some (atom stopped), turn (stops stop) done)
  select_ends im ctx k (inr over) = elim (Option-cases ctx) [
    | inl open_ ↦ absurd (ground arith)
    | inr (e, h) ↦ (some e, turn (cancelled e h) done)
  ]

  check_ends :
      (im : Inbound) (ctx : Option Err)
      → IsReady im ctx
      → (r : Option Err) × Turns cond im ctx checks (returned r)
  check_ends im ctx ready = elim (Bool-cases (is_met cond im)) [
    | inl yes_ ↦ (none, turn (met yes_) done)
    | inr no_ ↦ elim ready [
      | inl yes_ ↦ absurd (ground arith)
      | inr other ↦ let (r, ts) = select_ends im ctx im.epoch other in (r, turn (unmet no_) ts)
    ]
  ]

  waiter_ends :
      (im : Inbound) (ctx : Option Err) (a : Waiter)
      → IsCurrent im a
      → IsReady im ctx
      → (r : Option Err) × Turns cond im ctx a (returned r)
  waiter_ends im ctx checks c ready = check_ends im ctx ready
  waiter_ends im ctx (returned r) c ready = (r, done)
  waiter_ends im ctx (waits k) c (inr other) = select_ends im ctx k other
  waiter_ends im ctx (waits k) c (inl yes_) =
      let moved : im.epoch ≢ k = λ e. absurd (ground (arith, c.1 e)) in
      let (r, ts) = check_ends im ctx (inl yes_) in (r, turn (changed moved) ts)

  -- How many steps are left at most while nothing else moves.
  abbrev steps_left : Inbound → Waiter → ℕ
  steps_left im checks = 2
  steps_left im (returned r) = 0
  steps_left im (waits k) = if im.epoch == k then 1 else 3

  Turn-steps_left :
      {a b : Waiter} (im : Inbound) (ctx : Option Err)
      → Turn cond im ctx a b
      → steps_left im b < steps_left im a
  Turn-steps_left im ctx (met h) = omega arith
  Turn-steps_left im ctx (unmet h) = ground arith
  Turn-steps_left {a} im ctx (cancelled e h) = ground arith
  Turn-steps_left im ctx (stops h) = ground arith
  Turn-steps_left im ctx (changed h) = ground arith

  Turns-steps_left :
      (im : Inbound) (ctx : Option Err) {a b : Waiter} (ts : Turns cond im ctx a b)
      → turn_count ts + steps_left im b ≤ steps_left im a
  Turns-steps_left im ctx done = omega arith
  Turns-steps_left im ctx (turn t ts) =
      omega (arith, Turn-steps_left im ctx t, Turns-steps_left im ctx ts)

  steps_left_few : (im : Inbound) (a : Waiter) → steps_left im a ≤ 3
  steps_left_few im checks = omega arith
  steps_left_few im (returned r) = omega arith
  steps_left_few im (waits k) = ground arith

  Turns-IsCurrent :
      (im : Inbound) (ctx : Option Err) {a b : Waiter}
      → Turns cond im ctx a b
      → IsCurrent im a
      → IsCurrent im b
  Turns-IsCurrent im ctx done c = c
  Turns-IsCurrent im ctx (turn t ts) c = Turns-IsCurrent im ctx ts (Turn-IsCurrent im ctx t)

  -- `waitForConfig` misses no change: after any sequence of steps of the waiter and of events at
  -- the manager, if the condition holds of the configurations, the manager is closed, or the
  -- context is done, then the waiter makes at most three steps of its own while nothing else moves,
  -- and wherever they have brought it, it can go on until it returns.
  pub wait_ends :
      {s t : Wait}
      → s.at ≡ checks
      → Reach cond s t
      → IsReady t.manager t.ctx
      → (b : Waiter) (ts : Turns cond t.manager t.ctx t.at b)
      → (turn_count ts ≤ 3) × (r : Option Err) × Turns cond t.manager t.ctx b (returned r)
  wait_ends {s} {t} first reached ready b ts =
      let few : turn_count ts ≤ 3 =
        omega (arith, Turns-steps_left t.manager t.ctx ts, steps_left_few t.manager t.at) in
      let current = Turns-IsCurrent t.manager t.ctx ts (Reach-IsCurrent first reached) in
      let (r, rest) = waiter_ends t.manager t.ctx b current ready in (few, r, rest)
