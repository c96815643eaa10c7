-- ===== src/Calls/Client/Replies.antt =====
-- client_interceptor.go, multicast.go: what a call makes of the replies.
use gorums_ata.Base.{
  ℕ, zero, suc, ◌≤◌, ◌≡◌, refl, sym, ap, ◌∙◌, ◌⊎◌, inl, inr, Bool, true, false, ◌&&◌, ◌||◌, Option,
  none, some, List, [], ◌∷◌, map, arith, leb, if◌then◌else◌, Option-cases, length, tally, any,
  tally-le-length,
}
use gorums_ata.Errors.{Err, NodeErrors, nil, push_error, atom, send_failure, quorum_call}
use gorums_ata.Stream.Types.{Message, Response}
use gorums_ata.Node.{Node}
use gorums_ata.Config.{Configuration}
use gorums_ata.Calls.Responses.{ResponseSeq, Responses, threshold, push_failure, failed}
use gorums_ata.Calls.Responses.Threshold.{counts, failures_from, threshold_lem}
use gorums_ata.Calls.Client.{
  Arrival, responded, cancelled, default_response_seq, map_response, drain_replies, is_cancelled,
}

module _ {Resp : Type 0} (f : Resp → Node → Resp) (c : Configuration) where
  map_response-counts :
      (rs : ResponseSeq Resp) → tally counts (map_response f c rs) ≡ tally counts rs
  unfolding map_response
  map_response-counts [] = refl
  map_response-counts (r ∷ rs) = ground (arith, map_response-counts rs)

  map_response-failures :
      (errs : NodeErrors) (rs : ResponseSeq Resp)
      → failures_from errs (map_response f c rs) ≡ failures_from errs rs
  unfolding map_response failures_from
  map_response-failures errs [] = refl
  map_response-failures errs (r ∷ rs) = elim (Option-cases r.err) [
    | inl fine ↦ ground (arith, map_response-failures errs rs)
    | inr (e, bad) ↦ ground (
      arith,
      map_response-failures errs rs,
      map_response-failures (push_failure errs r.err r.node_id) rs,
    )
  ]

  -- `MapResponse` does not change whether a threshold is reached, nor the error if it is not.
  pub threshold-map_response :
      (v : Resp) (r : Responses Resp) (n : ℕ)
      → (threshold v (record r { seq = map_response f c r.seq }) n).1 ≡ (threshold v r n).1
  threshold-map_response v r n =
      ap (λ x. x.1) (threshold_lem v (record r { seq = map_response f c r.seq }) n)
      ∙ rw (map_response-counts r.seq)
          (rw (map_response-failures nil r.seq) (sym (ap (λ x. x.1) (threshold_lem v r n))))

module _ {Resp : Type 0} (zero_value : Resp) (unmarshal : Option Message → Option Resp ⊎ Err) where
  -- The response sequence of a call on `n` nodes yields at most `n` responses, and returns exactly
  -- if `n` results arrive or the context is done; each response keeps the ID of its node.
  pub default_response_seq_lem :
      (n : ℕ) (as_ : List Arrival)
      → (length (default_response_seq zero_value unmarshal n as_).0 ≤ n)
        × ((default_response_seq zero_value unmarshal n as_).1
            ≡ (leb n (length as_) || any is_cancelled as_))
  unfolding default_response_seq
  default_response_seq_lem zero as_ = (omega arith, ground arith)
  default_response_seq_lem (suc n) [] = (omega arith, ground arith)
  default_response_seq_lem (suc n) (cancelled e ∷ as_) = (omega arith, ground arith)
  default_response_seq_lem (suc n) (responded r ∷ as_) =
      ground (arith, default_response_seq_lem n as_)

abbrev is_nil : NodeErrors → Bool
is_nil nil = true
is_nil (NodeErrors.cons e i es) = false

push_error-is_nil : (errs : NodeErrors) (e : Err) (i : ℕ) → is_nil (push_error errs e i) ≡ false
unfolding push_error
push_error-is_nil nil e i = refl
push_error-is_nil (NodeErrors.cons d j es) e i = refl

failures_from-is_nil :
    (errs : NodeErrors) (rs : List Response)
    → is_nil (failures_from errs rs) ≡ (is_nil errs && leb (length rs) (tally counts rs))
unfolding failures_from
failures_from-is_nil errs [] = ground arith
failures_from-is_nil errs (r ∷ rs) = elim (Option-cases r.err) [
  | inl fine ↦ ground (arith, failures_from-is_nil errs rs)
  | inr (e, bad) ↦ ground (
    arith,
    push_error-is_nil errs e r.node_id,
    failures_from-is_nil errs rs,
    failures_from-is_nil (push_error errs e r.node_id) rs,
    tally-le-length counts rs,
  )
]

drain_replies-failures :
    (errs : NodeErrors) (rs : List Response)
    → drain_replies (length rs) errs (map responded rs) ≡ drain_replies 0 (failures_from errs rs) []
unfolding drain_replies failures_from
drain_replies-failures nil [] = refl
drain_replies-failures (NodeErrors.cons e i es) [] = refl
drain_replies-failures errs (r ∷ rs) =
    drain_replies-failures (if failed r.err then push_failure errs r.err r.node_id else errs) rs

drain_replies-none :
    (errs : NodeErrors)
    → drain_replies 0 errs []
      ≡ some (if is_nil errs then none else some (quorum_call (atom send_failure) errs))
unfolding drain_replies
drain_replies-none nil = refl
drain_replies-none (NodeErrors.cons e i es) = refl

-- When each node has confirmed or failed, and the context is not done before, `Multicast` returns no
-- error exactly if every node confirmed, or was skipped, and otherwise an error with the failures.
pub drain_replies_lem :
    (rs : List Response)
    → drain_replies (length rs) nil (map responded rs)
      ≡ some (
          if leb (length rs) (tally counts rs)
          then none
          else some (quorum_call (atom send_failure) (failures_from nil rs)))
drain_replies_lem rs =
    drain_replies-failures nil rs
    ∙ drain_replies-none (failures_from nil rs)
    ∙ ap
        (λ b.
          some (if b then none else some (quorum_call (atom send_failure) (failures_from nil rs))))
        (failures_from-is_nil nil rs)
