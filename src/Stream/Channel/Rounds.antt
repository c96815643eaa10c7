-- ===== src/Stream/Channel/Rounds.antt =====
-- internal/stream/channel.go: what a round of `sender` does to the requests for a channel.
-- one response channel.
use gorums_ata.Base.{
  ℕ, ◌+◌, ◌≡◌, refl, inl, inr, Bool, true, false, ◌&&◌, not, Option, none, some, arith,
  if◌then◌else◌, Bool-cases, is_some, to_nat, lookup,
}
use gorums_ata.Errors.{Err, atom, stream_down}
use gorums_ata.Stream.Types.{
  Request, Response, ok, >>=-returns, want_server_response, want_send_confirmation,
}
use gorums_ata.Stream.Deliver.{deliver, on, deliver-Delivers}
use gorums_ata.Stream.Router.Pending.{tally-register, tally-register_fresh}
use gorums_ata.Stream.Channel.{
  Channel, Net, clear_stream, set_last_err, reply, requeue_pending_msgs, ensure_stream, is_stream,
}
use gorums_ata.Stream.Channel.Sender.{
  Answers, abandon, expire, or_else, send_failed, confirm, register_request, transmit, sender_round,
}
use gorums_ata.Stream.Channel.Ledger.{
  Moves, Moves-trans, Moves-weaken, Moves-same, reply-Moves, requeue_pending_msgs-Moves,
  abandon-Moves,
}

confirm-Moves :
    (c : ℕ) (n n' : Net) (req : Request)
    → confirm n req ≡ ok n'
    → Moves c (to_nat (want_send_confirmation req && on c req)) (Unit {0}) n n'
unfolding confirm
confirm-Moves c n n' req h = elim (Bool-cases (want_send_confirmation req)) [
  | inl wanted ↦
      let resp : Response = record { node_id = n.chan.id; value = none; err = none } in
      let (d, sent, out) =
        >>=-returns (deliver n.world req resp) (λ d. ok (record n { world = d.0 }))
          (rw (wanted, confirm) at h) in
      let same : record n { world = d.0 } ≡ n' = ground arith in
      let v = deliver-Delivers c n.world d.0 req resp d.1 sent in
      rw (wanted, ← same)
        (record {
          kind = refl;
          at_most = omega (arith, v.at_most);
          exact = λ _ live. omega (arith, v.exact live);
          live = λ _ live. rw v.ctx_err live;
        })
  | inr not_wanted ↦
      let same : n ≡ n' = ground arith in rw (not_wanted, ← same) (Moves-same c n n refl refl refl)
]

clear-Moves :
    (c : ℕ) (n : Net) (s : ℕ) (e : Err)
    → Moves c 0 (Unit {0}) n (record n { chan = (clear_stream (set_last_err n.chan e) s).0 })
unfolding clear_stream
clear-Moves c n s e = elim (Bool-cases (is_stream n.chan.stream s)) [
  | inl won ↦ rw won (Moves-same c n _ refl refl refl)
  | inr lost ↦ rw lost (Moves-same c n _ refl refl refl)
]

send_failed-Moves :
    (c : ℕ) (n n' : Net) (s : ℕ) (req : Request) (e : Err)
    → send_failed n s req e ≡ ok n'
    → Moves c (to_nat (not (want_server_response req) && on c req)) (Unit {0}) n n'
unfolding send_failed clear_stream
send_failed-Moves c n n' s req e h =
    let n₁ : Net = record n { chan = (clear_stream (set_last_err n.chan e) s).0 } in
    let (m, requeued, rest) =
      >>=-returns (requeue_pending_msgs n₁)
        (λ m.
          if want_server_response req
          then ok m
          else reply m req (or_else (m.world.ctx_err req.ctx) e))
        h in
    let f₁ = requeue_pending_msgs-Moves c n₁ m requeued in
    let f : Moves c 0 (Unit {0}) n m =
      Moves-weaken c (0 + 0) 0 (Unit {0} × Unit {0}) (Unit {0}) n m (omega arith) (λ _. (tt, tt))
        (Moves-trans c 0 0 (Unit {0}) (Unit {0}) n n₁ m (clear-Moves c n s e) f₁) in
    elim (Bool-cases (want_server_response req)) [
      | inl wanted ↦ let same : m ≡ n' = ground arith in rw (wanted, ← same) f
      | inr not_wanted ↦
          let h' : reply m req (or_else (m.world.ctx_err req.ctx) e) ≡ ok n' = ground arith in
          rw not_wanted (
            Moves-weaken c (0 + to_nat (on c req)) (to_nat (on c req)) (Unit {0} × Unit {0})
              (Unit {0}) n n' (omega arith) (λ _. (tt, tt))
              (Moves-trans c 0 (to_nat (on c req)) (Unit {0}) (Unit {0}) n m n' f
                (reply-Moves c m n' req (or_else (m.world.ctx_err req.ctx) e) h')))
    ]

-- The request's message ID is not pending.
abbrev pub IsFresh : Net → Request → Type 0
IsFresh n req = lookup req.msg.seq_no n.router.pending ≡ none

register_request-Moves :
    (c : ℕ) (n : Net) (req : Request)
    → Moves c
        (to_nat (want_server_response req && on c req))
        (IsFresh n req)
        n
        (register_request n req)
register_request-Moves c n req = elim (Bool-cases (want_server_response req)) [
  | inl wanted ↦ rw wanted (record {
    kind = refl;
    at_most = omega (arith, tally-register (on c) n.world.clock n.router req.msg.seq_no req);
    exact = λ fresh live.
        omega (arith, tally-register_fresh (on c) n.world.clock n.router req.msg.seq_no req fresh);
    live = λ _ live. live;
  })
  | inr not_wanted ↦
      rw not_wanted
        (Moves-weaken c 0 0 (Unit {0}) _ n n refl (λ _. tt) (Moves-same c n n refl refl refl))
]

pub expire-Moves :
    (c : ℕ) (n : Net) (ctx : ℕ) (ended : Option Err)
    → Moves c 0 (ended ≡ none) n (record n { world = expire n.world ctx ended })
expire-Moves c n ctx ended = record {
  kind = refl;
  at_most = omega arith;
  exact = λ _ live. omega arith;
  live = λ q live i. ground (arith, live i);
}

-- What the last part of a round adds, by the request's kind.
split_on :
    (c : ℕ) (req : Request)
    → (to_nat (want_server_response req && on c req)
          + to_nat (not (want_server_response req) && on c req)
        ≡ to_nat (on c req))
      × (to_nat (want_server_response req && on c req)
            + to_nat (want_send_confirmation req && on c req)
          ≡ to_nat (on c req))
unfolding want_server_response want_send_confirmation
split_on c req = ground arith

-- The environment of a round is calm if the context is not done when `Send` returns.
abbrev pub IsCalm : Net → Request → Answers → Type 0
IsCalm n req a = IsFresh n req × (a.done ≡ none)

after_send-Moves :
    (c : ℕ) (n n' : Net) (s : ℕ) (req : Request) (sent : Option Err)
    → (elim sent [ some e ↦ send_failed n s req e | none ↦ confirm n req ]) ≡ ok n'
    → (k : ℕ) × (to_nat (want_server_response req && on c req) + k ≡ to_nat (on c req))
      × Moves c k (Unit {0}) n n'
after_send-Moves c n n' s req none h = (_, (split_on c req).1, confirm-Moves c n n' req h)
after_send-Moves c n n' s req (some e) h =
    (_, (split_on c req).0, send_failed-Moves c n n' s req e h)

callback-Moves :
    (c : ℕ) (n n' : Net) (s : ℕ) (b : Bool)
    → (if b then abandon n s else ok n) ≡ ok n'
    → Moves c 0 (Unit {0}) n n'
callback-Moves c n n' s true h = abandon-Moves c n n' s h
callback-Moves c n n' s false h =
    let same : n ≡ n' = ground arith in rw (← same) (Moves-same c n n refl refl refl)

transmit-Moves :
    (c : ℕ) (n n' : Net) (s : ℕ) (req : Request) (a : Answers)
    → transmit n s req a ≡ ok n'
    → Moves c (to_nat (on c req)) (IsCalm n req a) n n'
unfolding transmit
transmit-Moves c n n' s req a h =
    let n₁ = register_request n req in
    let n₂ : Net = record n₁ { world = expire n₁.world req.ctx a.done } in
    let (n₃, called, rest) =
      >>=-returns (if a.called_back && is_some a.done then abandon n₂ s else ok n₂)
        (λ m. elim a.sent [ some e ↦ send_failed m s req e | none ↦ confirm m req ]) h in
    let (k, total, last) = after_send-Moves c n₃ n' s req a.sent rest in
    let r = to_nat (want_server_response req && on c req) in
    let m₂ =
      Moves-trans c r 0 (IsFresh n req) (a.done ≡ none) n n₁ n₂ (register_request-Moves c n req)
        (expire-Moves c n₁ req.ctx a.done) in
    let m₃ =
      Moves-trans c (r + 0) 0 (IsFresh n req × (a.done ≡ none)) (Unit {0}) n n₂ n₃ m₂
        (callback-Moves c n₂ n₃ s (a.called_back && is_some a.done) called) in
    let m₄ = Moves-trans c (r + 0 + 0) k _ (Unit {0}) n n₃ n' m₃ last in
    Moves-weaken c (r + 0 + 0 + k) (to_nat (on c req)) _ (IsCalm n req a) n n'
      (omega (arith, total)) (λ q. ((q, tt), tt)) m₄

ensure_stream_lem :
    (ready : Bool) (dial : Option Err) (c : Channel)
    → ((ensure_stream ready dial c).0.send_q ≡ c.send_q)
      × ((ensure_stream ready dial c).0.retries ≡ c.retries)
      × ((ensure_stream ready dial c).0.kind ≡ c.kind)
unfolding ensure_stream
ensure_stream_lem ready dial c = ground arith

dispatch_round-Moves :
    (c : ℕ) (n n' : Net) (req : Request) (a : Answers) (err over : Option Err) (stream : Option ℕ)
    → (elim err [
      | some e ↦ reply n req e
      | none ↦ elim over [
        | some e ↦ reply n req e
        | none ↦ elim stream [ none ↦ reply n req (atom stream_down) | some s ↦ transmit n s req a ]
      ]
    ])
      ≡ ok n'
    → Moves c (to_nat (on c req)) (IsCalm n req a) n n'
dispatch_round-Moves c n n' req a (some e) over stream h =
    Moves-weaken c _ _ (Unit {0}) _ n n' refl (λ _. tt) (reply-Moves c n n' req e h)
dispatch_round-Moves c n n' req a none (some e) stream h =
    Moves-weaken c _ _ (Unit {0}) _ n n' refl (λ _. tt) (reply-Moves c n n' req e h)
dispatch_round-Moves c n n' req a none none none h =
    Moves-weaken c _ _ (Unit {0}) _ n n' refl (λ _. tt)
      (reply-Moves c n n' req (atom stream_down) h)
dispatch_round-Moves c n n' req a none none (some s) h = transmit-Moves c n n' s req a h

-- A round of the sender moves the request that it took into the router, into a requeueing
-- goroutine, or into its response channel.
pub sender_round-Moves :
    (c : ℕ) (n n' : Net) (req : Request) (a : Answers)
    → sender_round n req a ≡ ok n'
    → Moves c (to_nat (on c req)) (IsCalm n req a) n n'
unfolding sender_round
sender_round-Moves c n n' req a h =
    let made = ensure_stream a.ready a.dial n.chan in
    let n₁ : Net = record n { chan = made.0 } in
    let q = ensure_stream_lem a.ready a.dial n.chan in
    let m₁ : Moves c 0 (Unit {0}) n n₁ = Moves-same c n n₁ q.2 (rw (q.0, q.1) refl) refl in
    let m₂ : Moves c (to_nat (on c req)) (IsCalm n req a) n₁ n' =
      dispatch_round-Moves c n₁ n' req a made.1 (n.world.ctx_err req.ctx) made.0.stream h in
    Moves-weaken c (0 + to_nat (on c req)) (to_nat (on c req)) (Unit {0} × IsCalm n req a)
      (IsCalm n req a) n n' (omega arith) (λ p. (tt, p))
      (Moves-trans c 0 (to_nat (on c req)) (Unit {0}) (IsCalm n req a) n n₁ n' m₁ m₂)
