-- ===== src/Inbound/Waiting.antt =====
-- inbound_manager.go: `checkConfig` and `waitForConfig`, one waiter beside the manager, in any
-- order of their steps.
use gorums_ata.Base.{ℕ, ◌≡◌, ◌≢◌, Bool, true, false, Option, none, some, List, suc}
use gorums_ata.Errors.{Err, atom, stopped}
use gorums_ata.Stream.Types.{ok}
use gorums_ata.Stream.Deliver.{World}
use gorums_ata.Inbound.{Inbound, Accepted, Event, step, close}

-- Where the loop of `waitForConfig` is: before `checkConfig`, in the select with the channel that
-- `configCh` was, by its number, or behind the return.
pub data Waiter : Type 0 where
  checks : Waiter
  waits : ℕ → Waiter
  returned : Option Err → Waiter

-- The condition of `waitForKnownConfig` or of `waitForClientConfig` reads one of the two
-- configurations.
abbrev pub Condition : Type 0
Condition = List ℕ → List ℕ → Bool

-- `cond()`, under the lock
abbrev pub is_met : Condition → Inbound → Bool
is_met cond im = cond im.config im.client_config

-- A step of the waiter. In the select any ready case may be taken.
pub data Turn (cond : Condition) (im : Inbound) (ctx : Option Err) : Waiter → Waiter → Type 0 where
  met : is_met cond im ≡ true → Turn cond im ctx checks (returned none)
  unmet : is_met cond im ≡ false → Turn cond im ctx checks (waits im.epoch)
  cancelled : {k : ℕ} (e : Err) → ctx ≡ some e → Turn cond im ctx (waits k) (returned (some e))
  stops : {k : ℕ} → im.stopped ≡ true → Turn cond im ctx (waits k) (returned (some (atom stopped)))
  changed : {k : ℕ} → im.epoch ≢ k → Turn cond im ctx (waits k) checks

-- Some steps of the waiter while nothing else moves.
pub data Turns (cond : Condition) (im : Inbound) (ctx : Option Err) : Waiter → Waiter → Type 0 where
  done : {a : Waiter} → Turns cond im ctx a a
  turn : {a b c : Waiter} → Turn cond im ctx a b → Turns cond im ctx b c → Turns cond im ctx a c

abbrev pub turn_count :
    {cond : Condition} {im : Inbound} {ctx : Option Err} {a b : Waiter} → Turns cond im ctx a b → ℕ
turn_count done = 0
turn_count (turn t ts) = suc (turn_count ts)

pub record Wait : Type 0 where
  pub world : World
  pub manager : Inbound
  pub ctx : Option Err
  pub at : Waiter

-- A step of the waiter, an event at the manager, `close`, or the end of the caller's context.
pub data Step (cond : Condition) (s : Wait) : Wait → Type 0 where
  waiter : {a : Waiter} → Turn cond s.manager s.ctx s.at a → Step cond s (record s { at = a })
  event :
      {w : World} {im : Inbound} {as_ : List Accepted} (e : Event)
      → step s.world s.manager e ≡ ok (w, im, as_)
      → Step cond s (record s { world = w; manager = im })
  closed : Step cond s (record s { manager = close s.manager })
  cancel : (e : Err) → Step cond s (record s { ctx = some e })

pub data Reach (cond : Condition) (s : Wait) : Wait → Type 0 where
  here : Reach cond s s
  next : {t u : Wait} → Reach cond s t → Step cond t u → Reach cond s u
