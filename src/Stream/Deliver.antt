-- ===== src/Stream/Deliver.antt =====
-- internal/stream/channel.go: how a response reaches the channel of its request.
use gorums_ata.Base.{
  ℕ, ◌+◌, ◌≤◌, ◌≡◌, refl, ◌∙◌, inl, inr, Bool, true, false, Option, none, some, List, [], ◌∷◌, ◌++◌,
  arith, ltb, ◌==◌, if◌then◌else◌, Bool-cases, Option-cases, is_some, to_nat, length, length-append,
  tally,
}
use gorums_ata.Errors.{Err}
use gorums_ata.Stream.Types.{Request, Response, Run, ok, blocks, ◌>>=◌, >>=-returns}

-- The response channels with what they hold and can hold, the errors of the contexts that are done,
-- and the clock.
pub record World : Type 0 where
  pub buffer : ℕ → List Response
  pub capacity : ℕ → ℕ
  pub ctx_err : ℕ → Option Err
  pub clock : ℕ

abbrev pub put : (ℕ → List Response) → ℕ → Response → ℕ → List Response
put buffer c resp q = if c == q then buffer q ++ resp ∷ [] else buffer q

-- `deliver`: the channel is tried first, and only a full channel looks at the context. Sending on a
-- nil channel waits for the context alone.
unfoldable pub deliver : World → Request → Response → Run (World × Bool)
deliver w req resp = elim req.response_chan [
  | none ↦ if is_some (w.ctx_err req.ctx) then ok (w, false) else blocks
  | some c ↦
      if ltb (length (w.buffer c)) (w.capacity c)
      then ok (record w { buffer = put w.buffer c resp }, true)
      else if is_some (w.ctx_err req.ctx)
      then ok (w, false)
      else blocks
]

-- `replyError`
unfoldable pub reply_error : World → Request → ℕ → Err → Run World
unfolding deliver
reply_error w req node_id e =
    let reply = deliver w req (record { node_id = node_id; value = none; err = some e }) in
    if is_some req.response_chan then reply >>= (λ r. ok r.0) else ok w

-- The loops over requests of `cancelPendingMsgs`, `requeuePendingMsgs` and `drainSendQ`.
unfoldable pub reply_errors : World → List Request → ℕ → Err → Run World
unfolding reply_error
reply_errors w [] node_id e = ok w
reply_errors w (req ∷ reqs) node_id e =
    reply_error w req node_id e >>= λ w'. reply_errors w' reqs node_id e

-- Whether the request's responses go to channel `c`.
abbrev pub on : ℕ → Request → Bool
on c req = elim req.response_chan [ none ↦ false | some d ↦ d == c ]

abbrev pub held : ℕ → World → ℕ
held c w = length (w.buffer c)

-- What stays the same while responses are delivered, and how full channel `c` can get: at most `n`
-- more, and exactly `n` more if no context is done.
pub record Delivers (c : ℕ) (n : ℕ) (w w' : World) : Type 0 where
  pub capacity : w'.capacity ≡ w.capacity
  pub ctx_err : w'.ctx_err ≡ w.ctx_err
  pub clock : w'.clock ≡ w.clock
  pub at_most : held c w' ≤ held c w + n
  pub exact : ((i : ℕ) → w.ctx_err i ≡ none) → held c w' ≡ held c w + n

pub deliver-Delivers :
    (c : ℕ) (w w' : World) (req : Request) (resp : Response) (b : Bool)
    → deliver w req resp ≡ ok (w', b)
    → Delivers c (to_nat (on c req)) w w'
unfolding deliver
deliver-Delivers c w w' req resp b e = elim (Option-cases req.response_chan) [
  | inl closed ↦ record {
    capacity = ground arith;
    ctx_err = ground arith;
    clock = ground arith;
    at_most = ground arith;
    exact = λ live. ground (arith, live req.ctx);
  }
  | inr (d, open_) ↦ record {
    capacity = ground arith;
    ctx_err = ground arith;
    clock = ground arith;
    at_most = ground (arith, length-append (w.buffer c) (resp ∷ []));
    exact = λ live. ground (arith, live req.ctx, length-append (w.buffer c) (resp ∷ []));
  }
]

pub Delivers-refl : (c : ℕ) (w : World) → Delivers c 0 w w
Delivers-refl c w = record {
  capacity = refl;
  ctx_err = refl;
  clock = refl;
  at_most = omega arith;
  exact = λ live. omega arith;
}

pub Delivers-trans :
    (c m n : ℕ) (w v u : World) → Delivers c m w v → Delivers c n v u → Delivers c (m + n) w u
Delivers-trans c m n w v u f g = record {
  capacity = g.capacity ∙ f.capacity;
  ctx_err = g.ctx_err ∙ f.ctx_err;
  clock = g.clock ∙ f.clock;
  at_most = omega (arith, f.at_most, g.at_most);
  exact = λ live. omega (arith, f.exact live, g.exact (λ i. rw f.ctx_err (live i)));
}

pub reply_error-Delivers :
    (c : ℕ) (w w' : World) (req : Request) (i : ℕ) (e : Err)
    → reply_error w req i e ≡ ok w'
    → Delivers c (to_nat (on c req)) w w'
unfolding reply_error
reply_error-Delivers c w w' req i e h = elim (Bool-cases (is_some req.response_chan)) [
  | inl open_ ↦
      let (p, sent, out) =
        >>=-returns (deliver w req (record { node_id = i; value = none; err = some e }))
          (λ r. ok r.0) (rw open_ at h) in
      let same : p.0 ≡ w' = ground arith in rw (← same) (deliver-Delivers c w p.0 req _ p.1 sent)
  | inr closed ↦
      let same : w ≡ w' = ground arith in
      let off : 0 ≡ to_nat (on c req) = ground arith in rw (← same, ← off) (Delivers-refl c w)
]

pub reply_errors-Delivers :
    (c : ℕ) (w w' : World) (reqs : List Request) (i : ℕ) (e : Err)
    → reply_errors w reqs i e ≡ ok w'
    → Delivers c (tally (on c) reqs) w w'
unfolding reply_errors
reply_errors-Delivers c w w' [] i e h =
    let s : w ≡ w' = ground arith in rw (← s) (Delivers-refl c w)
reply_errors-Delivers c w w' (req ∷ reqs) i e h =
    let (m, one, rest) = >>=-returns (reply_error w req i e) (λ v. reply_errors v reqs i e) h in
    Delivers-trans c _ _ w m w' (reply_error-Delivers c w m req i e one)
      (reply_errors-Delivers c m w' reqs i e rest)

-- Every channel that the requests respond to has room for all of them.
abbrev pub HasRoom : World → List Request → Type 0
HasRoom w reqs = (c : ℕ) → held c w + tally (on c) reqs ≤ w.capacity c

pub reply_error_returns :
    (w : World) (req : Request) (i : ℕ) (e : Err)
    → HasRoom w (req ∷ [])
    → (w' : World) × (reply_error w req i e ≡ ok w')
unfolding reply_error deliver
reply_error_returns w req i e room = elim (Option-cases req.response_chan) [
  | inl closed ↦ (w, ground arith)
  | inr (c, open_) ↦ (
    record w { buffer = put w.buffer c (record { node_id = i; value = none; err = some e }) },
    ground (arith, room c),
  )
]

-- Error replies never wait while the response channels have room.
pub reply_errors_returns :
    (w : World) (reqs : List Request) (i : ℕ) (e : Err)
    → HasRoom w reqs
    → (w' : World) × (reply_errors w reqs i e ≡ ok w')
unfolding reply_errors
reply_errors_returns w [] i e room = (w, refl)
reply_errors_returns w (req ∷ reqs) i e room =
    let (m, one) = reply_error_returns w req i e (λ c. omega (arith, room c)) in
    let (w', rest) = reply_errors_returns m reqs i e (λ c.
      let d = reply_error-Delivers c w m req i e one in
      rw d.capacity (omega (arith, room c, d.at_most))) in
    (w', rw one rest)
