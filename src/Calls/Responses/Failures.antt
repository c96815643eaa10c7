-- ===== src/Calls/Responses/Failures.antt =====
-- errors.go, responses.go: what `errors.Is` finds in the error of a threshold.
use gorums_ata.Base.{
  ℕ, ◌+◌, ◌≡◌, refl, ap, ◌∙◌, inl, inr, Bool, true, false, ◌&&◌, ◌||◌, Option, none, some, [], ◌∷◌,
  arith, leb, ◌==◌, if◌then◌else◌, Bool-cases, any,
}
use mathlib.Core.Path.{subst}
use gorums_ata.Errors.{
  Err, NodeErrors, nil, cons, atom, incomplete, quorum_call, errors_is, any_is, quorum_is,
  push_error,
}
use gorums_ata.Calls.Responses.{
  NodeResponse, ResponseSeq, Responses, failed, push_failure, threshold_from, threshold,
}

abbrev pub matches : Option Err → Err → Bool
matches none t = false
matches (some e) t = failed (some e) && errors_is e t

any_is-push_error :
    (es : NodeErrors) (e t : Err) (i : ℕ)
    → any_is (push_error es e i) t ≡ (any_is es t || errors_is e t)
unfolding push_error any_is
any_is-push_error nil e t i = ground arith
any_is-push_error (cons f j es) e t i = ground (arith, any_is-push_error es e t i)

errors_is-quorum_call :
    (c : Err) (es : NodeErrors) (t : Err)
    → errors_is (quorum_call c es) t ≡ (quorum_is c t || any_is es t)
unfolding errors_is any_is
errors_is-quorum_call c es t = refl

any_is-nil : (t : Err) (b : Bool) → (any_is nil t || b) ≡ b
unfolding any_is
any_is-nil t b = ground arith

any_is-push_failure :
    (es : NodeErrors) (o : Option Err) (t : Err) (i : ℕ)
    → failed o ≡ true
    → any_is (push_failure es o i) t ≡ (any_is es t || matches o t)
any_is-push_failure es none t i h = cc
any_is-push_failure es (some e) t i h = ground (arith, any_is-push_error es e t i)

matches_counted :
    (es : NodeErrors) (o : Option Err) (t : Err)
    → failed o ≡ false
    → any_is es t ≡ (any_is es t || matches o t)
matches_counted es none t h = ground arith
matches_counted es (some e) t h = ground arith

module _ {R : Type 0} where
  -- What the loop returns with an error holds the errors before and those of the responses.
  abbrev IsReport : NodeErrors → ResponseSeq R → Option Err → Type 0
  IsReport errs rs none = Unit {0}
  IsReport errs rs (some e) =
      (es : NodeErrors) × (e ≡ quorum_call (atom incomplete) es)
      × ((t : Err) → any_is es t ≡ (any_is errs t || any (λ r. matches r.err t) rs))

  IsReport-more :
      (errs errs' : NodeErrors) (r : NodeResponse R) (rs : ResponseSeq R) (e : Option Err)
      → ((t : Err) → any_is errs' t ≡ (any_is errs t || matches r.err t))
      → IsReport errs' rs e
      → IsReport errs (r ∷ rs) e
  IsReport-more errs errs' r rs none h k = tt
  IsReport-more errs errs' r rs (some e) h (es, is, found) =
      (es, is, λ t. ground (arith, found t, h t))

  threshold_from-IsReport :
      (n : ℕ) (resp : R) (count : ℕ) (errs : NodeErrors) (rs : ResponseSeq R)
      → IsReport errs rs (threshold_from n resp count errs rs).1
  unfolding threshold_from
  threshold_from-IsReport n resp count errs [] = (errs, refl, λ t. ground arith)
  threshold_from-IsReport n resp count errs (r ∷ rs) = elim (Bool-cases (failed r.err)) [
    | inl bad ↦
        let errs' = push_failure errs r.err r.node_id in
        let ran : threshold_from n resp count errs (r ∷ rs) ≡ threshold_from n resp count errs' rs =
          ground arith in
        rw ran (
          IsReport-more errs errs' r rs _ (λ t. any_is-push_failure errs r.err t r.node_id bad)
            (threshold_from-IsReport n resp count errs' rs))
    | inr good ↦
        let resp' = if count == 0 then r.value else resp in
        elim (Bool-cases (leb n (count + 1))) [
          | inl enough ↦
              let ran : threshold_from n resp count errs (r ∷ rs) ≡ (resp', none) = ground arith in
              rw ran tt
          | inr few ↦
              let ran : threshold_from n resp count errs (r ∷ rs)
                  ≡ threshold_from n resp' (count + 1) errs rs =
                ground arith in
              rw ran (
                IsReport-more errs errs r rs _ (λ t. matches_counted errs r.err t good)
                  (threshold_from-IsReport n resp' (count + 1) errs rs))
        ]
  ]

  -- An error of `Threshold` is, for `errors.Is`, what `ErrIncomplete` is, and what the error of
  -- some response is that counted as a failure, and nothing else.
  pub errors_is-threshold :
      (zero_value : R) (r : Responses R) (n : ℕ) (e t : Err)
      → (threshold zero_value r n).1 ≡ some e
      → errors_is e t ≡ (quorum_is (atom incomplete) t || any (λ q. matches q.err t) r.seq)
  unfolding threshold
  errors_is-threshold zero_value r n e t h =
      let (es, is, found) : IsReport nil r.seq (some e) =
        subst (IsReport nil r.seq) h (threshold_from-IsReport n zero_value 0 nil r.seq) in
      rw is (
        errors_is-quorum_call (atom incomplete) es t
        ∙ ap (λ b. quorum_is (atom incomplete) t || b) (found t ∙ any_is-nil t _))
