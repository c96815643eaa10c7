-- ===== src/Calls/Responses/Threshold.antt =====
-- responses.go: what `Threshold`, and so `First`, `Majority` and `All`, return.
use gorums_ata.Base.{
  ℕ, ◌+◌, ◌<◌, ◌≡◌, Bool, ◌&&◌, not, none, some, [], ◌∷◌, arith, leb, if◌then◌else◌, tally,
}
use gorums_ata.Errors.{NodeErrors, nil, atom, incomplete, quorum_call}
use gorums_ata.Calls.Responses.{
  NodeResponse, ResponseSeq, Responses, failed, push_failure, threshold_from, threshold,
}

module _ {R : Type 0} where
  -- A response that counts towards the threshold.
  abbrev pub counts : NodeResponse R → Bool
  counts r = not (failed r.err)

  -- The value of the first response that counts.
  unfoldable pub first_value : R → ResponseSeq R → R
  first_value v [] = v
  first_value v (r ∷ rs) = let rest = first_value v rs in if counts r then r.value else rest

  -- The failures of the sequence, behind `errs`, in the order of arrival.
  unfoldable pub failures_from : NodeErrors → ResponseSeq R → NodeErrors
  failures_from errs [] = errs
  failures_from errs (r ∷ rs) =
      failures_from (if failed r.err then push_failure errs r.err r.node_id else errs) rs

  -- What is left to do once a response has counted: `resp` stays.
  threshold_from-counted :
      (n : ℕ) (resp : R) (count : ℕ) (errs : NodeErrors) (rs : ResponseSeq R)
      → 0 < count
      → count < n
      → threshold_from n resp count errs rs ≡ (
        resp,
        if leb n (count + tally counts rs)
            then none
            else some (quorum_call (atom incomplete) (failures_from errs rs)),
      )
  unfolding threshold_from failures_from
  threshold_from-counted n resp count errs [] p q = ground arith
  threshold_from-counted n resp count errs (r ∷ rs) p q = ground (
    arith,
    threshold_from-counted n resp count (push_failure errs r.err r.node_id) rs,
    threshold_from-counted n resp (count + 1) errs rs,
  )

  threshold_from_lem :
      (n : ℕ) (v : R) (errs : NodeErrors) (rs : ResponseSeq R)
      → threshold_from n v 0 errs rs ≡ (
        first_value v rs,
        if leb 1 (tally counts rs) && leb n (tally counts rs)
            then none
            else some (quorum_call (atom incomplete) (failures_from errs rs)),
      )
  unfolding threshold_from failures_from first_value
  threshold_from_lem n v errs [] = ground arith
  threshold_from_lem n v errs (r ∷ rs) = ground (
    arith,
    threshold_from_lem n v (push_failure errs r.err r.node_id) rs,
    threshold_from-counted n r.value 1 errs rs,
  )

  -- `Threshold` returns the value of the first response that counts (one with no error, or with an
  -- `ErrSkipNode`), and no error exactly if at least one, and at least `n`, responses count;
  -- otherwise it returns an incomplete call's error with the failures in the order of arrival.
  pub threshold_lem :
      (v : R) (r : Responses R) (n : ℕ)
      → threshold v r n ≡ (
        first_value v r.seq,
        if leb 1 (tally counts r.seq) && leb n (tally counts r.seq)
            then none
            else some (quorum_call (atom incomplete) (failures_from nil r.seq)),
      )
  unfolding threshold
  threshold_lem v r n = threshold_from_lem n v nil r.seq
