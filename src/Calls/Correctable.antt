-- ===== src/Calls/Correctable.antt =====
-- correctable.go: the state of a correctable call, its watchers, and the goroutine that fills it in.
-- A Go channel that is only ever closed is a number; `closed` lists those that are closed.
pub mod Progress
pub mod Watchers
use gorums_ata.Base.{
  ℕ, zero, suc, ◌+◌, ◌-◌, ◌<◌, Bool, true, false, not, Option, none, some, List, [], ◌∷◌, ◌++◌, leb,
  if◌then◌else◌, is_some, any, is_gt, ℤ, pos, negsuc, compare_int,
}
use gorums_ata.Errors.{Err, NodeErrors, nil, atom, incomplete, quorum_call, push_error}
use gorums_ata.Calls.Responses.{NodeResponse, ResponseSeq, push_failure}

pub record Watcher : Type 0 where
  pub level : ℤ
  pub ch : ℕ

-- `LevelNotSet`
abbrev pub level_not_set : ℤ
level_not_set = negsuc 0

-- `Correctable`; an entry of `watchers` that was notified is `none`. `next_ch` is the next channel
-- that `make(chan struct{})` returns, and `donech` is a channel too.
pub record Correctable (R : Type 0) : Type 0 where
  pub reply : R
  pub level : ℤ
  pub err : Option Err
  pub done : Bool
  pub watchers : List (Option Watcher)
  pub donech : ℕ
  pub closed : List ℕ
  pub next_ch : ℕ

-- `level <= c.level` on the levels of the source, `int`.
abbrev pub le_level : ℤ → ℤ → Bool
le_level a b = not (is_gt (compare_int a b))

-- The channels that `update` closes when the call is complete: those of the watchers not notified.
unfoldable pub close_all : List (Option Watcher) → List ℕ → List ℕ
close_all [] closed = closed
close_all (none ∷ ws) closed = close_all ws closed
close_all (some w ∷ ws) closed = close_all ws (w.ch ∷ closed)

-- The last loop of `update`: it notifies the watchers that wait for `level` or less.
unfoldable pub close_reached : ℤ → List (Option Watcher) → List ℕ → List (Option Watcher) × List ℕ
close_reached level [] closed = ([], closed)
close_reached level (none ∷ ws) closed =
    let (ws', closed') = close_reached level ws closed in (none ∷ ws', closed')
close_reached level (some w ∷ ws) closed =
    let hit = le_level w.level level in
    let (ws', closed') = close_reached level ws (if hit then w.ch ∷ closed else closed) in
    ((if hit then none else some w) ∷ ws', closed')

module _ {R : Type 0} where
  -- The literal that `Responses.Correctable` starts from; `zero_value` is the zero value of `Resp`.
  unfoldable pub new : R → Correctable R
  new zero_value = record {
    reply = zero_value;
    level = level_not_set;
    err = none;
    done = false;
    watchers = [];
    donech = 0;
    closed = [];
    next_ch = 1;
  }

  -- `Get`
  unfoldable pub get : Correctable R → R × ℤ × Option Err
  get c = (c.reply, c.level, c.err)

  -- `Watch`: the new state, and the channel returned.
  unfoldable pub watch : Correctable R → ℤ → Correctable R × ℕ
  watch c level =
      let ch = c.next_ch in
      let made = record c { next_ch = suc ch } in
      if le_level level c.level then (record made { closed = ch ∷ c.closed }, ch) else (
        record made { watchers = c.watchers ++ some (record { level = level; ch = ch }) ∷ [] },
        ch,
      )

  -- `update`; `none` is its panic on a completed call.
  unfoldable pub update : Correctable R → R → ℤ → Bool → Option Err → Option (Correctable R)
  unfolding close_all close_reached
  update c reply level done err =
      let set = record c { reply = reply; level = level; err = err; done = done } in
      let (ws, closed) = close_reached level c.watchers c.closed in
      if c.done
      then none
      else if done
      then some (record set { closed = close_all c.watchers (c.donech ∷ c.closed) })
      else some (record set { watchers = ws; closed = closed })

-- What happens to a correctable call: the next response, a call of `Watch`, or the end of the
-- response sequence.
pub data Event (R : Type 0) : Type 0 where
  response : NodeResponse R → Event R
  watches : ℤ → Event R
  exhausted : Event R

-- The call with the variables of the goroutine in `Responses.Correctable`; `running` is whether it
-- has not returned.
pub record Call (R : Type 0) : Type 0 where
  pub state : Correctable R
  pub last_resp : R
  pub count : ℕ
  pub errs : NodeErrors
  pub running : Bool

module _ {R : Type 0} where
  unfoldable pub start : R → Call R
  unfolding new
  start zero_value = record {
    state = new zero_value;
    last_resp = zero_value;
    count = 0;
    errs = nil;
    running = true;
  }

  -- One round of the loop over the responses.
  unfoldable pub on_response : ℕ → Call R → NodeResponse R → Option (Call R)
  unfolding update
  on_response threshold k r =
      let count = suc k.count in
      let done = leb threshold count in
      if is_some r.err
      then some (record k { errs = push_failure k.errs r.err r.node_id })
      else elim (update k.state r.value (pos count) done none) [
        | none ↦ none
        | some c ↦
            some (record k { state = c; last_resp = r.value; count = count; running = not done })
      ]

  -- What follows the loop.
  unfoldable pub on_exhausted : Call R → Option (Call R)
  unfolding update
  on_exhausted k =
      elim (update k.state k.last_resp (pos k.count) true
        (some (quorum_call (atom incomplete) k.errs))) [
          | none ↦ none
          | some c ↦ some (record k { state = c; running = false })
        ]

  -- The goroutine takes no more responses once it has returned; `Watch` may be called at any time.
  unfoldable pub step : ℕ → Call R → Event R → Option (Call R)
  unfolding on_response on_exhausted watch
  step threshold k (response r) = if k.running then on_response threshold k r else some k
  step threshold k (watches level) = some (record k { state = (watch k.state level).0 })
  step threshold k exhausted = if k.running then on_exhausted k else some k

  unfoldable pub run : ℕ → Call R → List (Event R) → Option (Call R)
  unfolding step
  run threshold k [] = some k
  run threshold k (e ∷ es) = elim (step threshold k e) [
    | none ↦ none
    | some k' ↦ run threshold k' es
  ]
