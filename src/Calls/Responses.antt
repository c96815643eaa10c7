-- ===== src/Calls/Responses.antt =====
-- responses.go: the response sequence of a quorum call, its filters, collectors and thresholds.
-- A sequence is the list of the responses that it would yield to a consumer that never stops.
pub mod Threshold
pub mod Quorum
pub mod Failures
pub mod Collect
use gorums_ata.Base.{
  ℕ, zero, ◌+◌, ◌-◌, ◌/◌, Bool, false, not, Option, none, some, List, [], ◌∷◌, map, leb, ◌==◌,
  if◌then◌else◌, is_none, length, All, insert,
}
use gorums_ata.Errors.{
  Err, NodeErrors, nil, atom, skip_node, incomplete, quorum_call, push_error, errors_is,
}
pub use gorums_ata.Stream.Types.{NodeResponse}

abbrev pub ResponseSeq : Type 0 → Type 0
ResponseSeq R = List (NodeResponse R)

module _ {R : Type 0} where
  -- `IgnoreErrors`
  unfoldable pub ignore_errors : ResponseSeq R → ResponseSeq R
  ignore_errors [] = []
  ignore_errors (r ∷ rs) = let rest = ignore_errors rs in if is_none r.err then r ∷ rest else rest

  -- `Filter`
  unfoldable pub filter : (NodeResponse R → Bool) → ResponseSeq R → ResponseSeq R
  filter pass [] = []
  filter pass (r ∷ rs) = let rest = filter pass rs in if pass r then r ∷ rest else rest

  -- The loop of `CollectN`: the map is filled until it holds `n` keys.
  unfoldable pub collect_n_from : ℕ → List (ℕ × R) → ResponseSeq R → List (ℕ × R)
  collect_n_from n replies [] = replies
  collect_n_from n replies (r ∷ rs) =
      let grown = insert r.node_id r.value replies in
      let rest = collect_n_from n grown rs in if leb n (length grown) then grown else rest

  -- `CollectN`
  unfoldable pub collect_n : ResponseSeq R → ℕ → List (ℕ × R)
  unfolding collect_n_from
  collect_n seq n = collect_n_from n [] seq

  -- The loop of `CollectAll`
  unfoldable pub collect_all_from : List (ℕ × R) → ResponseSeq R → List (ℕ × R)
  collect_all_from replies [] = replies
  collect_all_from replies (r ∷ rs) = collect_all_from (insert r.node_id r.value replies) rs

  -- `CollectAll`
  unfoldable pub collect_all : ResponseSeq R → List (ℕ × R)
  unfolding collect_all_from
  collect_all seq = collect_all_from [] seq

-- `Responses[Resp]`: the sequence and the number of nodes that were called.
pub record Responses (R : Type 0) : Type 0 where
  pub seq : ResponseSeq R
  pub size : ℕ

-- The test of `Threshold`'s first branch: a response with an error that is not `ErrSkipNode`.
abbrev pub failed : Option Err → Bool
failed none = false
failed (some e) = not (errors_is e (atom skip_node))

abbrev pub push_failure : NodeErrors → Option Err → ℕ → NodeErrors
push_failure errs none i = errs
push_failure errs (some e) i = push_error errs e i

module _ {R : Type 0} where
  -- The loop of `Threshold`, with its variables `resp`, `count` and `errs`.
  unfoldable pub threshold_from : ℕ → R → ℕ → NodeErrors → ResponseSeq R → R × Option Err
  threshold_from threshold resp count errs [] = (resp, some (quorum_call (atom incomplete) errs))
  threshold_from threshold resp count errs (r ∷ rs) =
      let skipped = threshold_from threshold resp count (push_failure errs r.err r.node_id) rs in
      let resp' = if count == 0 then r.value else resp in
      let counted = threshold_from threshold resp' (count + 1) errs rs in
      if failed r.err then skipped else if leb threshold (count + 1) then (resp', none) else counted

  -- `Threshold`; `zero_value` is the zero value of `Resp`. A negative threshold acts as 0.
  unfoldable pub threshold : R → Responses R → ℕ → R × Option Err
  unfolding threshold_from
  threshold zero_value r n = threshold_from n zero_value 0 nil r.seq

  -- `First`
  unfoldable pub first : R → Responses R → R × Option Err
  unfolding threshold
  first zero_value r = threshold zero_value r 1

  -- `r.size/2 + 1`, as `Majority` and `AsyncMajority` compute it.
  abbrev pub quorum_size : Responses R → ℕ
  quorum_size r = r.size / 2 + 1

  -- `Majority`
  unfoldable pub majority : R → Responses R → R × Option Err
  unfolding threshold
  majority zero_value r = threshold zero_value r (quorum_size r)

  -- `All`
  unfoldable pub all : R → Responses R → R × Option Err
  unfolding threshold
  all zero_value r = threshold zero_value r r.size
