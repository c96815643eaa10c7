-- ===== src/Stream/Channel/Ledger.antt =====
-- internal/stream/channel.go: the account of the requests that respond to one channel `c`. Each is
-- in `sendQ`, pending in the router, or held by a requeueing goroutine, until a response to it is
-- in `c`.
use gorums_ata.Base.{
  ℕ, ◌+◌, ◌≤◌, ◌≡◌, refl, ◌∙◌, inl, inr, true, false, ◌&&◌, ◌||◌, none, [], ◌∷◌, arith, Bool-cases,
  to_nat, tally, tally-append,
}
use gorums_ata.Errors.{Err, atom, stream_down, node_closed}
use gorums_ata.Stream.Types.{Request, ok, >>=-returns}
use gorums_ata.Stream.Deliver.{
  reply_error, reply_errors, on, held, reply_error-Delivers, reply_errors-Delivers,
}
use gorums_ata.Stream.Router.{Router, requests, cancel_pending, requeue_pending}
use gorums_ata.Stream.Router.Pending.{requeue_pending_lem}
use gorums_ata.Stream.Channel.{
  Channel, Net, clear_stream, reply, enqueue, cancel_pending_msgs, requeue_pending_msgs,
  drain_send_q, push_retries, push_request, close, is_local, is_stream,
}
use gorums_ata.Stream.Channel.Sender.{abandon}

-- The requests for `c` that have no response yet.
abbrev pub outstanding : ℕ → Net → ℕ
outstanding c n =
    tally (on c) n.chan.send_q
    + tally (on c) (requests n.router.pending)
    + tally (on c) n.chan.retries

-- Those, and the responses in `c`.
abbrev pub ledger : ℕ → Net → ℕ
ledger c n = outstanding c n + held c n.world

-- No context is done.
abbrev pub IsLive : Net → Type 0
IsLive n = (i : ℕ) → n.world.ctx_err i ≡ none

-- From `n` to `n'` the account of `c` grows by at most `k`, and by `k` if no context is done and
-- `Q` holds.
pub record Moves (c k : ℕ) (Q : Type 0) (n n' : Net) : Type 0 where
  pub kind : n'.chan.kind ≡ n.chan.kind
  pub at_most : ledger c n' ≤ ledger c n + k
  pub exact : Q → IsLive n → ledger c n' ≡ ledger c n + k
  pub live : Q → IsLive n → IsLive n'

pub Moves-trans :
    (c k l : ℕ) (P Q : Type 0) (n m p : Net)
    → Moves c k P n m
    → Moves c l Q m p
    → Moves c (k + l) (P × Q) n p
Moves-trans c k l P Q n m p f g = record {
  kind = g.kind ∙ f.kind;
  at_most = omega (arith, f.at_most, g.at_most);
  exact = λ q live. omega (arith, f.exact q.0 live, g.exact q.1 (f.live q.0 live));
  live = λ q live. g.live q.1 (f.live q.0 live);
}

pub Moves-weaken :
    (c k l : ℕ) (P Q : Type 0) (n m : Net) → k ≡ l → (Q → P) → Moves c k P n m → Moves c l Q n m
Moves-weaken c k l P Q n m e f g = record {
  kind = g.kind;
  at_most = omega (arith, g.at_most);
  exact = λ q live. omega (arith, g.exact (f q) live);
  live = λ q. g.live (f q);
}

-- A change that leaves the account alone.
pub Moves-same :
    (c : ℕ) (n m : Net)
    → m.chan.kind ≡ n.chan.kind
    → ledger c m ≡ ledger c n
    → m.world ≡ n.world
    → Moves c 0 (Unit {0}) n m
Moves-same c n m k l w = record {
  kind = k;
  at_most = omega arith;
  exact = λ q live. omega arith;
  live = λ q live. rw w live;
}

pub reply-Moves :
    (c : ℕ) (n n' : Net) (req : Request) (e : Err)
    → reply n req e ≡ ok n'
    → Moves c (to_nat (on c req)) (Unit {0}) n n'
unfolding reply
reply-Moves c n n' req e h =
    let (w, sent, out) =
      >>=-returns (reply_error n.world req n.chan.id e) (λ w. ok (record n { world = w })) h in
    let d = reply_error-Delivers c n.world w req n.chan.id e sent in
    let same : record n { world = w } ≡ n' = ground arith in
    rw (← same) (record {
      kind = refl;
      at_most = omega (arith, d.at_most);
      exact = λ q live. omega (arith, d.exact live);
      live = λ q live. rw d.ctx_err live;
    })

pub requeue_pending_msgs-Moves :
    (c : ℕ) (n n' : Net) → requeue_pending_msgs n ≡ ok n' → Moves c 0 (Unit {0}) n n'
unfolding requeue_pending_msgs
requeue_pending_msgs-Moves c n n' h =
    let q = requeue_pending n.router in
    let (w, sent, out) =
      >>=-returns (reply_errors n.world q.2 n.chan.id (atom stream_down))
        (λ w. ok (push_retries n q.0 w q.1)) h in
    let same : push_retries n q.0 w q.1 ≡ n' = ground arith in
    let d = reply_errors-Delivers c n.world w q.2 n.chan.id (atom stream_down) sent in
    let split = requeue_pending_lem n.router (on c) in
    let moved = tally-append (on c) n.chan.retries q.1 in
    rw (← same) (record {
      kind = refl;
      at_most = omega (arith, d.at_most, split.1, moved);
      exact = λ _ live. omega (arith, d.exact live, split.1, moved);
      live = λ _ live. rw d.ctx_err live;
    })

pub abandon-Moves : (c : ℕ) (n n' : Net) (s : ℕ) → abandon n s ≡ ok n' → Moves c 0 (Unit {0}) n n'
unfolding abandon clear_stream
abandon-Moves c n n' s h = elim (Bool-cases (is_stream n.chan.stream s)) [
  | inl won ↦
      let n₁ : Net = record n {
        chan = record n.chan { stream = none; cancelled = s ∷ n.chan.cancelled };
      } in
      let h' : requeue_pending_msgs n₁ ≡ ok n' = rw (won, abandon) at h in
      let m = requeue_pending_msgs-Moves c n₁ n' h' in
      record { kind = m.kind; at_most = m.at_most; exact = m.exact; live = m.live }
  | inr lost ↦ let same : n ≡ n' = ground arith in rw (← same) (Moves-same c n n refl refl refl)
]

pub enqueue-Moves :
    (c : ℕ) (n n' : Net) (req : Request)
    → is_local n.chan ≡ false
    → enqueue n req ≡ ok n'
    → Moves c (to_nat (on c req)) (Unit {0}) n n'
unfolding enqueue
enqueue-Moves c n n' req k h = elim (Bool-cases (req.oneway && req.streaming)) [
  | inl both ↦ ground arith
  | inr apart ↦ elim (Bool-cases n.chan.closed) [
    | inl shut ↦
        let h' : reply n req (atom node_closed) ≡ ok n' = ground arith in
        reply-Moves c n n' req (atom node_closed) h'
    | inr up ↦
        let same : push_request n req ≡ n' = ground arith in
        let more = tally-append (on c) n.chan.send_q (req ∷ []) in
        rw (← same) (record {
          kind = refl;
          at_most = omega (arith, more);
          exact = λ _ live. omega (arith, more);
          live = λ _ live. live;
        })
  ]
]

pub cancel_pending_msgs-Moves :
    (c : ℕ) (n n' : Net) (e : Err) → cancel_pending_msgs n e ≡ ok n' → Moves c 0 (Unit {0}) n n'
unfolding cancel_pending_msgs cancel_pending
cancel_pending_msgs-Moves c n n' e h =
    let reqs = requests n.router.pending in
    let r : Router = record n.router { pending = [] } in
    let (w, sent, out) =
      >>=-returns (reply_errors n.world reqs n.chan.id e)
        (λ w. ok (record n { world = w; router = r })) h in
    let same : record n { world = w; router = r } ≡ n' = ground arith in
    let d = reply_errors-Delivers c n.world w reqs n.chan.id e sent in
    rw (← same) (record {
      kind = refl;
      at_most = omega (arith, d.at_most);
      exact = λ _ live. omega (arith, d.exact live);
      live = λ _ live. rw d.ctx_err live;
    })

pub drain_send_q-Moves : (c : ℕ) (n n' : Net) → drain_send_q n ≡ ok n' → Moves c 0 (Unit {0}) n n'
unfolding drain_send_q
drain_send_q-Moves c n n' h =
    let ch : Channel = record n.chan { send_q = [] } in
    let (w, sent, out) =
      >>=-returns (reply_errors n.world n.chan.send_q n.chan.id (atom node_closed))
        (λ w. ok (record n { world = w; chan = ch })) h in
    let same : record n { world = w; chan = ch } ≡ n' = ground arith in
    let d = reply_errors-Delivers c n.world w n.chan.send_q n.chan.id (atom node_closed) sent in
    rw (← same) (record {
      kind = refl;
      at_most = omega (arith, d.at_most);
      exact = λ _ live. omega (arith, d.exact live);
      live = λ _ live. rw d.ctx_err live;
    })

pub close-Moves : (c : ℕ) (n n' : Net) → close n ≡ ok n' → Moves c 0 (Unit {0}) n n'
unfolding close
close-Moves c n n' h = elim (Bool-cases (is_local n.chan || n.chan.close_ran)) [
  | inl off ↦ let same : n ≡ n' = ground arith in rw (← same) (Moves-same c n n refl refl refl)
  | inr on_ ↦
      let n₁ : Net = record n { chan = record n.chan { closed = true; close_ran = true } } in
      let h' : cancel_pending_msgs n₁ (atom node_closed) ≡ ok n' = rw (on_, close) at h in
      let m = cancel_pending_msgs-Moves c n₁ n' (atom node_closed) h' in
      record { kind = m.kind; at_most = m.at_most; exact = m.exact; live = m.live }
]
