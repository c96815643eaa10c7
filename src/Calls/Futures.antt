-- ===== src/Calls/Futures.antt =====
-- async.go: the futures of a quorum call. The goroutine of `AsyncThreshold` ends when `Threshold`
-- has returned.
use gorums_ata.Base.{ℕ, Bool, Option, none, some, is_some}
use gorums_ata.Errors.{Err}
use gorums_ata.Calls.Responses.{Responses, threshold, quorum_size}

-- `Async`: the reply and the error, once the channel `c` is closed, and the threshold that the
-- goroutine has yet to reach.
pub record Async (R : Type 0) : Type 0 where
  pub outcome : Option (R × Option Err)
  pub awaited : ℕ

module _ {R : Type 0} where
  -- `AsyncThreshold`
  unfoldable pub async_threshold : Responses R → ℕ → Async R
  async_threshold r n = record { outcome = none; awaited = n }

  -- `AsyncFirst`
  unfoldable pub async_first : Responses R → Async R
  unfolding async_threshold
  async_first r = async_threshold r 1

  -- `AsyncMajority`
  unfoldable pub async_majority : Responses R → Async R
  unfolding async_threshold
  async_majority r = async_threshold r (quorum_size r)

  -- `AsyncAll`
  unfoldable pub async_all : Responses R → Async R
  unfolding async_threshold
  async_all r = async_threshold r r.size

  -- The goroutine that `AsyncThreshold` starts; `zero_value` is the zero value of `Resp`.
  unfoldable pub finish : R → Responses R → Async R → Async R
  unfolding threshold
  finish zero_value r f = record f { outcome = some (threshold zero_value r f.awaited) }

  -- `Get`; `none` is that it waits.
  unfoldable pub async_get : Async R → Option (R × Option Err)
  async_get f = f.outcome

  -- `Done`
  unfoldable pub async_done : Async R → Bool
  async_done f = is_some f.outcome
