-- ===== src/Calls/Client/Started.antt =====
-- responses.go, client_interceptor.go, async.go: when the requests of a call are sent, and how its
-- responses are read.
use gorums_ata.Base.{
  ℕ, zero, suc, ◌≡◌, refl, ap, ◌∙◌, ◌⊎◌, inl, inr, Bool, true, false, ◌&&◌, not, List, [], ◌∷◌,
  ◌++◌, map, arith, ltb, if◌then◌else◌, Bool-cases, is_some, any,
}
use gorums_ata.Errors.{Err}
use gorums_ata.Stream.Types.{MetadataEntry, Response}
use gorums_ata.Config.{node_ids, size}
use gorums_ata.Calls.Client.{ClientCtx, Effect, target, send, Arrival, responded, cancelled}
use gorums_ata.Calls.Client.Sending.{send-node_ids}
use mathlib.Core.List.{append_assoc}

-- `Responses` over a `ClientCtx`: whether `sendOnce` has fired, what `send` has done, what the reply
-- channel and the context have yet to give, and the responses that were read.
pub record Started (Req : Type 0) : Type 0 where
  pub call : ClientCtx Req
  pub node_count : ℕ  -- `size`
  pub sent : Bool
  pub effects : List Effect
  pub arrivals : List Arrival
  pub yielded : List Response

-- `Size`, `Results`, a loop over the sequence that stops at the given number of responses, and
-- `AsyncThreshold`, up to the loop of its goroutine.
pub data Access : Type 0 where
  asks_size gets_results starts : Access
  iterates : ℕ → Access

abbrev pub sends : Access → Bool
sends asks_size = false
sends gets_results = false
sends starts = true
sends (iterates n) = true

-- How many rounds the loop over the sequence has, where the consumer stops after `n`.
abbrev rounds : Bool → ℕ → ℕ → ℕ
rounds streaming n count = if streaming then n else if ltb count n then count else n

-- What a loop reads, and what it leaves: it waits if nothing has arrived, and a context that is
-- done stays so.
abbrev pub yields : ℕ → List Arrival → List Response × List Arrival
yields zero as_ = ([], as_)
yields (suc n) [] = ([], [])
yields (suc n) (cancelled e ∷ as_) = ([], cancelled e ∷ as_)
yields (suc n) (responded r ∷ as_) = let rest = yields n as_ in (r ∷ rest.0, rest.1)

module _ {Req : Type 0} where
  -- `NewResponses`
  unfoldable pub new_responses : ClientCtx Req → List Arrival → Started Req
  new_responses c arrivals = record {
    call = c;
    node_count = size c.config;
    sent = false;
    effects = [];
    arrivals = arrivals;
    yielded = [];
  }

  module _ (marshal : Req → List ℕ ⊎ Err) (entries : List MetadataEntry)
      (is_valid : Req → Bool) where
    -- `sendNow`
    unfoldable pub send_now : Started Req → Started Req
    send_now s =
        if s.sent
        then s
        else record s { sent = true; effects = s.effects ++ send marshal entries is_valid s.call }

    unfoldable pub access : Started Req → Access → Started Req
    unfolding send_now
    access s asks_size = s
    access s gets_results = s
    access s starts = send_now s
    access s (iterates n) =
        let s1 = send_now s in
        let got = yields (rounds s1.call.streaming n s1.node_count) s1.arrivals in
        record s1 { yielded = s1.yielded ++ got.0; arrivals = got.1 }

    unfoldable pub accesses : Started Req → List Access → Started Req
    unfolding access
    accesses s [] = s
    accesses s (u ∷ us) = accesses (access s u) us

    sent-accesses :
        (s : Started Req) (us : List Access)
        → (accesses s us).effects ≡ (
            if not s.sent && any sends us
            then s.effects ++ send marshal entries is_valid s.call
            else s.effects)
    unfolding accesses access send_now
    sent-accesses s [] = ground arith
    sent-accesses s (asks_size ∷ us) = sent-accesses s us
    sent-accesses s (gets_results ∷ us) = sent-accesses s us
    sent-accesses s (starts ∷ us) = ground (arith, sent-accesses (access s starts) us)
    sent-accesses s (iterates n ∷ us) = ground (arith, sent-accesses (access s (iterates n)) us)

    abbrev responses : List Response → List Arrival
    responses rs = map responded rs

    yields-all : (n : ℕ) (as_ : List Arrival) → responses (yields n as_).0 ++ (yields n as_).1 ≡ as_
    yields-all zero as_ = refl
    yields-all (suc n) [] = refl
    yields-all (suc n) (cancelled e ∷ as_) = refl
    yields-all (suc n) (responded r ∷ as_) = ap (◌∷◌ (responded r)) (yields-all n as_)

    map_responded-append :
        (xs ys : List Response) → responses (xs ++ ys) ≡ responses xs ++ responses ys
    map_responded-append [] ys = refl
    map_responded-append (x ∷ xs) ys = ap (◌∷◌ (responded x)) (map_responded-append xs ys)

    send_now-keeps :
        (s : Started Req)
        → (responses (send_now s).yielded ++ (send_now s).arrivals)
          ≡ (responses s.yielded ++ s.arrivals)
    unfolding send_now
    send_now-keeps s = elim (Bool-cases s.sent) [
      | inl before ↦ rw before refl
      | inr first ↦ rw first refl
    ]

    access-keeps :
        (s : Started Req) (u : Access)
        → responses (access s u).yielded ++ (access s u).arrivals
          ≡ responses s.yielded ++ s.arrivals
    unfolding access
    access-keeps s asks_size = refl
    access-keeps s gets_results = refl
    access-keeps s starts = send_now-keeps s
    access-keeps s (iterates n) =
        let s1 = send_now s in
        let got = yields (rounds s1.call.streaming n s1.node_count) s1.arrivals in
        ap (λ rs. rs ++ got.1) (map_responded-append s1.yielded got.0)
        ∙ append_assoc (responses s1.yielded) (responses got.0) got.1
        ∙ ap (◌++◌ (responses s1.yielded))
            (yields-all (rounds s1.call.streaming n s1.node_count) s1.arrivals)
        ∙ send_now-keeps s

    accesses-keeps :
        (s : Started Req) (us : List Access)
        → responses (accesses s us).yielded ++ (accesses s us).arrivals
          ≡ responses s.yielded ++ s.arrivals
    unfolding accesses
    accesses-keeps s [] = refl
    accesses-keeps s (u ∷ us) = accesses-keeps (access s u) us ∙ access-keeps s u

    -- However the responses of a quorum call are read, by several loops and futures in any order, no
    -- request is sent before the first of them, and then each node of the configuration is served
    -- once, in order. What the loops have read, with what is left, is what arrived, in its order.
    pub accesses_lem :
        (c : ClientCtx Req) (arrivals : List Arrival) (us : List Access)
        → is_some c.reply_chan ≡ true
        → let s = accesses (new_responses c arrivals) us in
          (map target s.effects ≡ (if any sends us then node_ids c.config else []))
          × (map responded s.yielded ++ s.arrivals ≡ arrivals)
    unfolding new_responses
    accesses_lem c arrivals us open_ =
        let once = sent-accesses (new_responses c arrivals) us in
        (
          elim (Bool-cases (any sends us)) [
            | inl some_ ↦ rw (once, some_) (send-node_ids marshal entries is_valid c open_)
            | inr none_ ↦ rw (once, none_) refl
          ],
          accesses-keeps (new_responses c arrivals) us,
        )
